-- ===== src/AiUsage/Laws.antt =====
-- packages/shared/src/handlers/aiUsage/getAiUsageSummary.ts: what a summary tells of a tenant.
use automatebro.Prelude.{
  ℕ, zero, suc, String, ◌+◌, ◌-◌, ◌≤◌, ◌≡◌, refl, ap, arith, Option, some, List, [], ◌∷◌, All,
  length, or_default,
}
use mathlib.Core.Path.{subst}
use automatebro.Action.{Month, ok}
use automatebro.Calendar.{month_of}
use automatebro.Tenants.Repo.{Ctx, Role, require_tenant}
use automatebro.Tenants.Pagination.{min_of}
use automatebro.AiUsage.{
  Answers, AiUsageSummary, get_ai_usage_summary, UsageRow, plan_cap, months_before, keys_from,
  previous_month_keys, entries, summary,
}
use automatebro.AiUsage.Months.{
  ordinal, Descends, Told, ordinal-months_before, month_of-late, entry-month, entry-Told,
}

entries-Descends :
    (rows : List UsageRow) (cap : ℕ) (now : Month) (i n : ℕ)
    → n + i ≤ suc (ordinal now)
    → Descends (suc (ordinal now) - i) (entries rows cap (keys_from now i n))
unfolding Descends keys_from
entries-Descends rows cap now i zero fits = tt
entries-Descends rows cap now i (suc n) fits =
    let rest = entries-Descends rows cap now (i + 1) n (omega arith) in
    rw (entry-month rows cap (months_before now i), ordinal-months_before now i)
      (
        omega arith,
        subst (λ k. Descends k (entries rows cap (keys_from now (i + 1) n))) (omega arith) rest,
      )

entries-Told :
    (rows : List UsageRow) (plan : String) (keys : List Month)
    → All (Told rows plan) (entries rows (plan_cap plan) keys)
entries-Told rows plan [] = tt
entries-Told rows plan (key ∷ keys) = (entry-Told rows plan key, entries-Told rows plan keys)

length-entries :
    (rows : List UsageRow) (cap : ℕ) (now : Month) (i n : ℕ)
    → length (entries rows cap (keys_from now i n)) ≡ n
unfolding keys_from
length-entries rows cap now i zero = refl
length-entries rows cap now i (suc n) = ap suc (length-entries rows cap now (i + 1) n)

-- The month of the clock, and the months before it, one after the other, each as the rows tell it.
pub record IsSummary (rows : List UsageRow) (plan : String) (clock months : ℕ) (s : AiUsageSummary)
    : Type 0 where
  pub of_plan : s.plan ≡ plan
  pub now : s.current.month ≡ month_of clock
  pub many : length s.history ≡ months
  pub descends : Descends (ordinal s.current.month) s.history
  pub told : All (Told rows plan) (s.current ∷ s.history)

previous-Descends :
    (rows : List UsageRow) (cap : ℕ) (now : Month) (n : ℕ)
    → n ≤ ordinal now
    → Descends (ordinal now) (entries rows cap (previous_month_keys now n))
previous-Descends rows cap now n fits =
    subst (λ k. Descends k (entries rows cap (keys_from now 1 n))) (omega arith)
      (entries-Descends rows cap now 1 n (omega arith))

summary-IsSummary :
    (rows : List UsageRow) (plan : String) (clock months : ℕ)
    → months ≤ 24
    → IsSummary rows plan clock months (summary rows plan clock months)
unfolding summary
summary-IsSummary rows plan clock months few =
    let c = plan_cap plan in
    let m = month_of clock in
    record {
      of_plan = refl;
      now = entry-month rows c m;
      many = length-entries rows c m 1 months;
      descends =
          rw (entry-month rows c m)
            (previous-Descends rows c m months (omega (arith, month_of-late clock)));
      told = (entry-Told rows plan m, entries-Told rows plan (keys_from m 1 months));
    }

-- For a context with a tenant and a role, when both queries are answered, the handler returns a
-- summary: its first month is the clock's, the history has as many months as were asked for, 6 if
-- none were asked for and 24 at most, each the one before the last, over the turn of a year too;
-- and each month shows the tokens, the cost and the cap of the tenant's last row for it, with the
-- nearest percentage, 999 at most and 0 without a cap, or, without a row, zeros and the cap with
-- which the classifier and the replies create the row of that plan.
pub get_ai_usage_summary-IsSummary :
    (db : Answers) (ctx : Ctx) (months : Option ℕ) (clock : ℕ) (tenant : String) (role : Role)
    (rows : List UsageRow) (plan : Option String)
    → ctx.tenant_id ≡ some tenant
    → ctx.role ≡ some role
    → db.rows tenant ≡ ok rows
    → db.plan tenant ≡ ok plan
    → (s : AiUsageSummary) × (get_ai_usage_summary db ctx months clock ≡ ok s)
      × IsSummary rows (or_default plan "free") clock (min_of 24 (or_default months 6)) s
unfolding get_ai_usage_summary require_tenant
get_ai_usage_summary-IsSummary db ctx months clock tenant role rows plan own has rs ps =
    let n = min_of 24 (or_default months 6) in
    (
      summary rows (or_default plan "free") clock n,
      rw (own, has, rs, ps) refl,
      summary-IsSummary rows (or_default plan "free") clock n (ground arith),
    )
