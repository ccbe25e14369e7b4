-- ===== src/Processing/Loop.antt =====
-- `for (const automation of automations) { … }` over the two counters of a handler's result.
use automatebro.Prelude.{ℕ, ◌+◌, ◌*◌, ◌≤◌, ◌≡◌, refl, ap, ◌∙◌, List, [], ◌∷◌, map, length}
use mathlib.Core.Path.{subst}
use automatebro.Records.{Automation}
use automatebro.Action.{
  Action, Trace, Result, ok, err, continue, pure, jobs, inserted, send_id_of, ◌>>=◌,
}

-- `{ matched, enqueued }`
pub record Counts : Type 0 where
  pub matched : ℕ
  pub enqueued : ℕ

abbrev pub zero_counts : Counts
zero_counts = record { matched = 0; enqueued = 0 }

abbrev pub Iteration : Type 0
Iteration = Automation → Counts → Action Counts

unfoldable pub for_each : Iteration → List Automation → Counts → Action Counts
for_each body [] r = pure r
for_each body (a ∷ more) r = do r' ← body a r; for_each body more r'

-- The rows that a history inserts and the jobs that it enqueues name the same sends, in order.
abbrev pub Paired : Trace → Type 0
Paired t = map (λ s. s.id) (inserted t) ≡ map send_id_of (jobs t)

-- What holds of the counters on the way from `t` to `t'`, with at most `sends` rows for a match.
pub record Progress (sends : ℕ) (r : Counts) (t t' : Trace) : Type 0 where
  pub rows : length (inserted t') ≡ length (inserted t) + r.enqueued
  pub bounded : r.enqueued ≤ sends * r.matched
  pub paired : map (λ s. s.id) (inserted t') ≡ map send_id_of (jobs t')

-- A way that starts with writes of no row and no job.
pub Progress-from :
    (n : ℕ) (r : Counts) (t t' t'' : Trace)
    → inserted t' ≡ inserted t
    → Progress n r t' t''
    → Progress n r t t''
Progress-from n r t t' t'' i p = record {
  rows = p.rows ∙ ap (λ x. length x + r.enqueued) i;
  bounded = p.bounded;
  paired = p.paired;
}

-- `P` of the counters and the history is kept by an iteration that returns.
abbrev pub Keeps {ℓ} : (Counts → Trace → Type ℓ) → Iteration → Type ℓ
Keeps P body =
    (a : Automation) (r r' : Counts) (t : Trace)
    → P r t
    → (body a r t).0 ≡ ok r'
    → P r' (body a r t).1

pub ok_injective : {r r' : Counts} → ok r ≡ ok r' → r ≡ r'
ok_injective e = cc

for_each_step {ℓ} :
    (P : Counts → Trace → Type ℓ) (k : Counts → Action Counts) (x : Result Counts) (t : Trace)
    → ((r : Counts) → x ≡ ok r → P r t)
    → ((r r' : Counts) → P r t → (k r t).0 ≡ ok r' → P r' (k r t).1)
    → (r' : Counts) → (continue x k t).0 ≡ ok r'
    → P r' (continue x k t).1
for_each_step P k (ok r) t first rest r' e = rest r r' (first r refl) e
for_each_step P k (err x) t first rest r' e = cc

-- The loop keeps what its body keeps.
pub for_each-Keeps {ℓ} :
    (P : Counts → Trace → Type ℓ) (body : Iteration)
    → Keeps P body
    → (automations : List Automation) (r r' : Counts) (t : Trace) → P r t
    → (for_each body automations r t).0 ≡ ok r'
    → P r' (for_each body automations r t).1
unfolding for_each
for_each-Keeps P body keep [] r r' t p e = subst (λ x. P x t) (ok_injective e) p
for_each-Keeps P body keep (a ∷ more) r r' t p e =
    for_each_step P (for_each body more) (body a r t).0 (body a r t).1 (λ r1 e1. keep a r r1 t p e1)
      (λ r1 r2 p1 e2. for_each-Keeps P body keep more r1 r2 _ p1 e2) r' e
