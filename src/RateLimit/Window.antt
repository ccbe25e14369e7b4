-- ===== src/RateLimit/Window.antt =====
-- Any number of checks on one key, with whatever else is written between them: no window of time
-- holds more grants than the cap.
use automatebro.Prelude.{
  ℕ, ◌-◌, ◌≤◌, String, ◌≡◌, refl, true, List, [], ◌∷◌, arith, ltb, keep, length, length-keep-le,
  if◌then◌else◌,
}
use automatebro.Action.{Env, Effect, Trace, Result, ok, err}
use automatebro.RateLimit.{RateLimitResult, check_and_consume}
use automatebro.RateLimit.SortedSet.{
  Entry, entries, entries_after, newer_than, IsExact, Fresh, newer_than-newer_than,
}
use automatebro.RateLimit.Bound.{check_and_consume-Verdict, entries-check_and_consume}

-- The writes so far, the times of the checks that were granted, and the time of the last check.
pub record History : Type 0 where
  pub trace : Trace
  pub granted : List ℕ
  pub last : ℕ

abbrev pub granted_after : Result RateLimitResult → ℕ → List ℕ → List ℕ
granted_after (ok r) time gs = if r.allowed then time ∷ gs else gs
granted_after (err e) time gs = gs

abbrev pub grants_since : ℕ → List ℕ → ℕ
grants_since limit gs = length (keep (ltb limit) gs)

module _ (env : Env) (key : String) (cap window : ℕ) where
  abbrev pub after_check : History → History
  after_check h = record {
    trace = (check_and_consume env key cap window h.trace).1;
    granted =
        granted_after (check_and_consume env key cap window h.trace).0 (env.clock h.trace)
          h.granted;
    last = env.clock h.trace;
  }

  -- A check under a fresh member by a clock that does not run back, or a write that leaves the key's
  -- set as it is.
  pub data Step : History → History → Type 0 where
    check :
        (h : History)
        → Fresh (env.random h.trace) (entries key h.trace)
        → h.last ≤ env.clock h.trace
        → Step h (after_check h)
    other :
        (h : History) (e : Effect)
        → ((es : List Entry) → entries_after key e es ≡ es)
        → Step h (record h { trace = e ∷ h.trace })

  pub data Reach (h : History) : History → Type 0 where
    here : Reach h h
    next : {i j : History} → Reach h i → Step i j → Reach h j

  -- Every grant inside the window still has its entry.
  abbrev pub Covered : History → Type 0
  Covered h =
      (limit : ℕ)
      → h.last - window ≤ limit
      → grants_since limit h.granted ≤ length (newer_than limit (entries key h.trace))

  module _ (exact : IsExact env) where
    check-Covered :
        (h : History)
        → Fresh (env.random h.trace) (entries key h.trace)
        → h.last ≤ env.clock h.trace
        → Covered h
        → (x : Result RateLimitResult) → (check_and_consume env key cap window h.trace).0 ≡ x
        → (limit : ℕ) → env.clock h.trace - window ≤ limit
        → grants_since limit (granted_after x (env.clock h.trace) h.granted)
          ≤ length (newer_than limit (entries key (after_check h).trace))
    check-Covered h fresh mono cov (err e) eq limit le = ground (
      arith,
      cov limit,
      newer_than-newer_than (env.clock h.trace - window) limit (entries key h.trace) le,
      entries-check_and_consume env key cap window h.trace fresh,
    )
    check-Covered h fresh mono cov (ok r) eq limit le = ground (
      arith,
      cov limit,
      newer_than-newer_than (env.clock h.trace - window) limit (entries key h.trace) le,
      check_and_consume-Verdict env key cap window h.trace exact fresh r eq,
    )

    Step-Covered : {h i : History} → Step h i → Covered h → Covered i
    Step-Covered (check h fresh mono) cov limit le =
        check-Covered h fresh mono cov (check_and_consume env key cap window h.trace).0 refl limit
          le
    Step-Covered (other h e same) cov limit le = rw (same (entries key h.trace)) (cov limit le)

    Reach-Covered : {h i : History} → Covered h → Reach h i → Covered i
    Reach-Covered cov here = cov
    Reach-Covered cov (next r st) = Step-Covered st (Reach-Covered cov r)

    -- If Redis counts exactly, every member is fresh and the clock does not run back, then after
    -- any sequence of checks on a key and of other writes that leave its set alone, from a history
    -- without grants, the grants in the window that ends with a granted check, this one with them,
    -- are at most the cap.
    pub grants-le-cap :
        (start h : History)
        → start.granted ≡ []
        → Reach start h
        → Fresh (env.random h.trace) (entries key h.trace)
        → h.last ≤ env.clock h.trace
        → (r : RateLimitResult) → (check_and_consume env key cap window h.trace).0 ≡ ok r
        → r.allowed ≡ true
        → grants_since (env.clock h.trace - window) (env.clock h.trace ∷ h.granted) ≤ cap
    grants-le-cap start h none_yet reach fresh mono r eq yes_allowed =
        let time = env.clock h.trace in
        let cov : Covered h = Reach-Covered (λ limit le. rw none_yet (omega arith)) reach in
        ground (
          arith,
          check-Covered h fresh mono cov (ok r) eq (time - window) (omega arith),
          check_and_consume-Verdict env key cap window h.trace exact fresh r eq,
          length-keep-le (λ e. ltb (time - window) e.score) (entries key (after_check h).trace),
        )
