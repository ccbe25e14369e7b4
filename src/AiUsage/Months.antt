-- ===== src/AiUsage/Months.antt =====
-- packages/shared/src/handlers/aiUsage/getAiUsageSummary.ts: the entry of one month.
use automatebro.Prelude.{
  ℕ, zero, suc, String, ◌+◌, ◌-◌, ◌*◌, ◌/◌, ◌≤◌, ◌<◌, ◌≡◌, ◌≢◌, ◌∙◌, ◌++◌, ltb, true, false,
  Bool-cases, inl, inr, refl, sym, ap, arith, none, some, List, [], ◌∷◌, All, Option-cases,
}
use native.Mathlib.Nat.{div-mul-le_self, lt-div-mul-add, le-div_iff_mul-le}
use mathlib.Core.Path.{subst}
use automatebro.Action.{Month}
use automatebro.Calendar.{month_of}
use automatebro.Ai.Usage.{default_cap}
use automatebro.AiUsage.{
  UsageRow, MonthlyUsage, plan_cap, months_before, pct_of, row_to_monthly, is_month, by_month,
  entry, synthetic_monthly,
}

-- The number of a month, counted from the year 0.
abbrev pub ordinal : Month → ℕ
ordinal (year, month) = year * 12 + (month - 1)

-- Each month is the one before the last.
unfoldable pub Descends : ℕ → List MonthlyUsage → Type 0
Descends k [] = Unit
Descends k (e ∷ es) = (suc (ordinal e.month) ≡ k) × Descends (ordinal e.month) es

pub plan_cap-default_cap : (plan : String) → plan_cap plan ≡ default_cap plan
unfolding plan_cap default_cap
plan_cap-default_cap plan = ground arith

pub ordinal-months_before : (now : Month) (i : ℕ) → ordinal (months_before now i) ≡ ordinal now - i
unfolding months_before
ordinal-months_before (year, month) i = omega arith

pct_of-le : (used cap : ℕ) → pct_of used cap ≤ 999
unfolding pct_of
pct_of-le used zero = omega arith
pct_of-le used (suc cap) = ground arith

pub month_of-late : (clock : ℕ) → 24 ≤ ordinal (month_of clock)
unfolding month_of
month_of-late clock = ground arith

is_month_sound : (a b : Month) → is_month a b ≡ true → a ≡ b
is_month_sound (y, m) (y', m') same = ground arith

-- No row is of the month.
abbrev pub NoneOf : Month → List UsageRow → Type 0
NoneOf key rows = All (λ r. r.month ≢ key) rows

-- The percentage: nothing of no cap, else the nearest one, a half rounded up, and 999 at most.
pub data IsPercent (used cap pct : ℕ) : Type 0 where
  no_cap : cap ≡ 0 → pct ≡ 0 → IsPercent used cap pct
  over : 999 * (2 * cap) ≤ 200 * used + cap → pct ≡ 999 → IsPercent used cap pct
  nearest :
      pct * (2 * cap) ≤ 200 * used + cap
      → 200 * used + cap < pct * (2 * cap) + 2 * cap
      → pct ≤ 999
      → IsPercent used cap pct

-- The entry says what the last row of its month says, or that there is none, with the cap of the plan.
pub data Told (rows : List UsageRow) (plan : String) (e : MonthlyUsage) : Type 0 where
  of_row :
      (before after : List UsageRow) (row : UsageRow) (pct : ℕ)
      → rows ≡ before ++ row ∷ after
      → row.month ≡ e.month
      → NoneOf e.month after
      → IsPercent row.usage.cost_inr row.usage.cap pct
      → e ≡ record {
        month = row.month;
        input_tokens = row.usage.input_tokens;
        output_tokens = row.usage.output_tokens;
        cost_inr = row.usage.cost_inr;
        cap = row.usage.cap;
        pct_used = pct;
        synthetic = false;
      }
      → Told rows plan e
  of_none :
      NoneOf e.month rows
      → e ≡ record {
        month = e.month;
        input_tokens = 0;
        output_tokens = 0;
        cost_inr = 0;
        cap = default_cap plan;
        pct_used = 0;
        synthetic = true;
      }
      → Told rows plan e

pct_of-IsPercent : (used cap : ℕ) → IsPercent used cap (pct_of used cap)
unfolding pct_of
pct_of-IsPercent used zero = no_cap refl refl
pct_of-IsPercent used (suc cap) =
    elim (Bool-cases (ltb ((200 * used + suc cap) / (2 * suc cap)) 999)) [
      | inl small ↦ rw small (
          nearest (div-mul-le_self (200 * used + suc cap) (2 * suc cap))
            (lt-div-mul-add (omega arith)) (ground arith))
      | inr large ↦ rw large (over ((le-div_iff_mul-le (omega arith)).0 (ground arith)) refl)
    ]

is_month_refl : (a : Month) → is_month a a ≡ true
is_month_refl (y, m) = ground arith

other_month : (key month : Month) → is_month key month ≡ false → month ≢ key
other_month key month apart same = absurd (cc (is_month_refl key, ap (is_month key) same, apart))

by_month-none : (key : Month) (rows : List UsageRow) → by_month key rows ≡ none → NoneOf key rows
unfolding by_month
by_month-none key [] e = tt
by_month-none key (row ∷ rest) e = ground (arith, by_month-none key rest, other_month key row.month)

-- The last row of a month: those after it are of other months.
record Last (key : Month) (rows : List UsageRow) (r : UsageRow) : Type 0 where
  before : List UsageRow
  after : List UsageRow
  split : rows ≡ before ++ r ∷ after
  rest : NoneOf key after

by_month-Last :
    (key : Month) (rows : List UsageRow) (r : UsageRow)
    → by_month key rows ≡ some r
    → Last key rows r
unfolding by_month
by_month-Last key [] r found = absurd cc
by_month-Last key (row ∷ rest) r found = elim (Option-cases (by_month key rest)) [
  | inr (later, q) ↦
      let l = by_month-Last key rest later q in
      subst (Last key (row ∷ rest)) (same_row (sym (of_later later q) ∙ found)) (record {
        before = row ∷ l.before;
        after = l.after;
        split = ap (λ x. row ∷ x) l.split;
        rest = l.rest;
      })
  | inl q ↦
      subst (Last key (row ∷ rest)) (here q)
        (record { before = []; after = rest; split = refl; rest = by_month-none key rest q })
]
  where
    same_row : {a b : UsageRow} → some a ≡ some b → a ≡ b
    same_row e = cc

    of_later :
        (later : UsageRow) → by_month key rest ≡ some later → by_month key (row ∷ rest) ≡ some later
    of_later later q = rw (q, by_month) refl

    here : by_month key rest ≡ none → row ≡ r
    here q = ground (arith, q, found)

by_month-month :
    (key : Month) (rows : List UsageRow) (r : UsageRow) → by_month key rows ≡ some r → r.month ≡ key
unfolding by_month
by_month-month key [] r found = grind arith
by_month-month key (row ∷ rest) r found =
    ground (arith, by_month-month key rest r, is_month_sound key row.month)

entry-none :
    (rows : List UsageRow) (cap : ℕ) (key : Month)
    → by_month key rows ≡ none
    → entry rows cap key ≡ synthetic_monthly key cap
unfolding entry
entry-none rows cap key e = rw (entry, e) refl

entry-some :
    (rows : List UsageRow) (cap : ℕ) (key : Month) (r : UsageRow)
    → by_month key rows ≡ some r
    → entry rows cap key ≡ row_to_monthly r
unfolding entry
entry-some rows cap key r e = rw (entry, e) refl

pub entry-month : (rows : List UsageRow) (cap : ℕ) (key : Month) → (entry rows cap key).month ≡ key
unfolding row_to_monthly synthetic_monthly
entry-month rows cap key = elim (Option-cases (by_month key rows)) [
  | inl e ↦ ap (λ x. x.month) (entry-none rows cap key e)
  | inr (r, e) ↦ ap (λ x. x.month) (entry-some rows cap key r e) ∙ by_month-month key rows r e
]

pub entry-Told :
    (rows : List UsageRow) (plan : String) (key : Month)
    → Told rows plan (entry rows (plan_cap plan) key)
unfolding entry row_to_monthly synthetic_monthly
entry-Told rows plan key = elim (Option-cases (by_month key rows)) [
  | inl e ↦ of_none (rw (entry-month rows (plan_cap plan) key) (by_month-none key rows e)) (
      rw (entry-month rows (plan_cap plan) key, sym (plan_cap-default_cap plan))
        (entry-none rows (plan_cap plan) key e))
  | inr (r, e) ↦
      let l = by_month-Last key rows r e in
      of_row l.before l.after r (pct_of r.usage.cost_inr r.usage.cap) l.split
        (by_month-month key rows r e ∙ sym (entry-month rows (plan_cap plan) key))
        (rw (entry-month rows (plan_cap plan) key) l.rest)
        (pct_of-IsPercent r.usage.cost_inr r.usage.cap) (entry-some rows (plan_cap plan) key r e)
]
