-- ===== src/AiUsage.antt =====
-- packages/shared/src/handlers/aiUsage/getAiUsageSummary.ts: the usage of the dashboard, the month of
-- the clock and the months before it. The rows and the plan that StrictDB answers are parameters. The
-- quotient of `pctOf` is exact, and a year is at least 100; the texts for the page are left out.
pub mod Months
pub mod Laws
mod Tests
use automatebro.Prelude.{
  ℕ, zero, suc, String, ◌+◌, ◌-◌, ◌*◌, ◌/◌, ◌%◌, Bool, true, false, Option, none, some, List, [],
  ◌∷◌, ◌&&◌, or_default, str_eq, ◌==◌, if◌then◌else◌,
}
use automatebro.Action.{Month, Result, ok, err}
use automatebro.Records.{AiUsage}
use automatebro.Calendar.{month_of}
use automatebro.Tenants.Repo.{Ctx, require_tenant}
use automatebro.Tenants.Access.{then}
use automatebro.Tenants.Pagination.{min_of}

-- A row of `aiUsage`, and its month.
pub record UsageRow : Type 0 where
  pub month : Month
  pub usage : AiUsage

pub record MonthlyUsage : Type 0 where
  pub month : Month
  pub input_tokens : ℕ
  pub output_tokens : ℕ
  pub cost_inr : ℕ
  pub cap : ℕ
  pub pct_used : ℕ
  pub synthetic : Bool

pub record AiUsageSummary : Type 0 where
  pub current : MonthlyUsage
  pub history : List MonthlyUsage
  pub plan : String

abbrev pub default_cap_by_plan : List (String × ℕ)
default_cap_by_plan =
    ("free", 10000) ∷ ("starter", 50000) ∷ ("growth", 200000) ∷ ("agency", 500000) ∷ []

abbrev pub cap_at : String → List (String × ℕ) → Option ℕ
cap_at plan [] = none
cap_at plan ((name, cap) ∷ rest) =
    let later = cap_at plan rest in if str_eq plan name then some cap else later

-- `DEFAULT_CAP_BY_PLAN[plan] ?? DEFAULT_CAP_BY_PLAN.free ?? 10_000`
unfoldable pub plan_cap : String → ℕ
plan_cap plan =
    or_default (cap_at plan default_cap_by_plan)
      (or_default (cap_at "free" default_cap_by_plan) 10000)

-- The month `i` before: `Date.UTC` carries into the year.
unfoldable pub months_before : Month → ℕ → Month
months_before (year, month) i =
    let total = year * 12 + (month - 1) - i in (total / 12, total % 12 + 1)

-- The keys for `i`, `i + 1`, and so on.
unfoldable pub keys_from : Month → ℕ → ℕ → List Month
keys_from now i zero = []
keys_from now i (suc count) = months_before now i ∷ keys_from now (i + 1) count

abbrev pub previous_month_keys : Month → ℕ → List Month
previous_month_keys now count = keys_from now 1 count

-- `Math.round` of the percentage, at most 999.
unfoldable pub pct_of : ℕ → ℕ → ℕ
pct_of used zero = 0
pct_of used (suc cap) = min_of 999 ((200 * used + suc cap) / (2 * suc cap))

unfoldable pub row_to_monthly : UsageRow → MonthlyUsage
row_to_monthly row = record {
  month = row.month;
  input_tokens = row.usage.input_tokens;
  output_tokens = row.usage.output_tokens;
  cost_inr = row.usage.cost_inr;
  cap = row.usage.cap;
  pct_used = pct_of row.usage.cost_inr row.usage.cap;
  synthetic = false;
}

unfoldable pub synthetic_monthly : Month → ℕ → MonthlyUsage
synthetic_monthly month cap = record {
  month = month;
  input_tokens = 0;
  output_tokens = 0;
  cost_inr = 0;
  cap = cap;
  pct_used = 0;
  synthetic = true;
}

abbrev pub is_month : Month → Month → Bool
is_month (year, month) (year', month') = year == year' && month == month'

-- `byMonth.get(key)`: the last row of the month.
unfoldable pub by_month : Month → List UsageRow → Option UsageRow
by_month key [] = none
by_month key (row ∷ rest) = elim (by_month key rest) [
  | some later ↦ some later
  | none ↦ if is_month key row.month then some row else none
]

-- The entry of a month.
unfoldable pub entry : List UsageRow → ℕ → Month → MonthlyUsage
entry rows cap key = elim (by_month key rows) [
  | some row ↦ row_to_monthly row
  | none ↦ synthetic_monthly key cap
]

abbrev pub entries : List UsageRow → ℕ → List Month → List MonthlyUsage
entries rows cap [] = []
entries rows cap (key ∷ keys) = entry rows cap key ∷ entries rows cap keys

unfoldable pub summary : List UsageRow → String → ℕ → ℕ → AiUsageSummary
unfolding entry plan_cap
summary rows plan clock months = record {
  current = entry rows (plan_cap plan) (month_of clock);
  history = entries rows (plan_cap plan) (previous_month_keys (month_of clock) months);
  plan = plan;
}

-- What StrictDB answers for a tenant: its rows of `aiUsage`, 200 of them at most, and its plan.
pub record Answers : Type 0 where
  pub rows : String → Result (List UsageRow)
  pub plan : String → Result (Option String)

unfoldable pub get_ai_usage_summary : Answers → Ctx → Option ℕ → ℕ → Result AiUsageSummary
unfolding summary require_tenant
get_ai_usage_summary db ctx months clock = (then) (require_tenant ctx.tenant_id ctx.role) (λ tenant.
    (then) (db.rows tenant) (λ rows.
      (then) (db.plan tenant) (λ plan.
        ok (summary rows (or_default plan "free") clock (min_of 24 (or_default months 6))))))
