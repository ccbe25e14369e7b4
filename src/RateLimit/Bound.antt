-- ===== src/RateLimit/Bound.antt =====
-- What one check does to the sorted set, and the bound on the sends that a limiter lets through.
use automatebro.Prelude.{
  ℕ, suc, ◌+◌, ◌-◌, ◌/◌, ◌≤◌, String, ◌≡◌, refl, ap, ◌⊎◌, inr, true, false, some, none, List, ◌∷◌,
  arith, length,
}
use text.Mathlib.TextPositions.{eq_refl}
use automatebro.Action.{
  Env, Trace, Result, Replies, ok, err, continue, evict, zadd, zrem, expire, third_reply,
}
use automatebro.RateLimit.{RateLimitResult, check_and_consume, settle, after_exec}
use automatebro.RateLimit.SortedSet.{
  Entry, entries, newer_than, without, IsExact, Fresh, without-Fresh, newer_than-Fresh,
}

abbrev pub live : Env → String → ℕ → Trace → List Entry
live env key window t = newer_than (env.clock t - window) (entries key t)

abbrev pub own_entry : Env → Trace → Entry
own_entry env t = record { score = env.clock t; member = env.random t }

module _ (env : Env) (key : String) (cap window : ℕ) (t : Trace) where
  -- The history when the replies come back.
  abbrev pub sent : Trace
  sent =
      expire key ((window + 999) / 1000 + 1)
      ∷ zadd key (env.clock t) (env.random t)
      ∷ evict key (env.clock t - window)
      ∷ t

  live-without :
      Fresh (env.random t) (entries key t)
      → without (env.random t) (live env key window t) ≡ live env key window t
  live-without fresh =
      without-Fresh (env.random t) (live env key window t)
        (newer_than-Fresh (env.random t) (env.clock t - window) (entries key t) fresh)

  entries-sent :
      Fresh (env.random t) (entries key t)
      → entries key sent ≡ own_entry env t ∷ live env key window t
  entries-sent fresh = rw eq_refl (ap (λ es. own_entry env t ∷ es) (live-without fresh))

  entries-rolled_back :
      Fresh (env.random t) (entries key t)
      → entries key (zrem key (env.random t) ∷ sent) ≡ live env key window t
  entries-rolled_back fresh =
      rw (entries-sent fresh) (rw (eq_refl key, eq_refl (env.random t)) (live-without fresh))

  -- What a check that returns has done: let the caller through and kept its entry within the cap, or
  -- turned it away with the set full.
  abbrev pub Verdict : Trace → RateLimitResult → Type 0
  Verdict t' r =
      ((r.allowed ≡ true)
        × (suc (length (live env key window t)) ≤ cap)
        × (entries key t' ≡ own_entry env t ∷ live env key window t))
      ⊎ ((r.allowed ≡ false)
          × (cap ≤ length (live env key window t))
          × ((entries key t' ≡ live env key window t)
              ⊎ (entries key t' ≡ own_entry env t ∷ live env key window t)))

  settle_cases :
      Fresh (env.random t) (entries key t)
      → (n : ℕ) → n ≡ length (entries key sent)
      → (r : RateLimitResult)
      → (settle env key cap window (env.clock t) (env.random t) n sent).0 ≡ ok r
      → Verdict (settle env key cap window (env.clock t) (env.random t) n sent).1 r
  unfolding settle
  settle_cases fresh n e r h = ground (arith, entries-sent fresh, entries-rolled_back fresh)

  exec_cases :
      IsExact env
      → Fresh (env.random t) (entries key t)
      → (x : Result Replies) → env.exec sent key ≡ x
      → (r : RateLimitResult)
      → (continue x (after_exec env key cap window (env.clock t) (env.random t)) sent).0 ≡ ok r
      → Verdict (continue x (after_exec env key cap window (env.clock t) (env.random t)) sent).1 r
  unfolding after_exec
  exec_cases exact fresh (err x) e r h = cc
  exec_cases exact fresh (ok none) e r h = cc
  exec_cases exact fresh (ok (some replies)) e r h =
      settle_cases fresh (third_reply replies) (exact sent key replies e) r h

  -- If Redis counts exactly and the member is fresh, a check that returns has granted the attempt
  -- while the entries in the window are fewer than the cap, and added its own to them, or has
  -- turned it away with at least as many as the cap, and left the others, with its own or without.
  pub check_and_consume-Verdict :
      IsExact env
      → Fresh (env.random t) (entries key t)
      → (r : RateLimitResult) → (check_and_consume env key cap window t).0 ≡ ok r
      → Verdict (check_and_consume env key cap window t).1 r
  unfolding check_and_consume
  check_and_consume-Verdict exact fresh = exec_cases exact fresh (env.exec sent key) refl

  exec_keeps :
      Fresh (env.random t) (entries key t)
      → (x : Result Replies)
      → let t' = (continue x (after_exec env key cap window (env.clock t) (env.random t)) sent).1 in
        (entries key t' ≡ live env key window t)
        ⊎ (entries key t' ≡ own_entry env t ∷ live env key window t)
  unfolding after_exec settle
  exec_keeps fresh (err x) = inr (entries-sent fresh)
  exec_keeps fresh (ok none) = inr (entries-sent fresh)
  exec_keeps fresh (ok (some replies)) =
      ground (arith, entries-sent fresh, entries-rolled_back fresh)

  -- Whatever comes of it, a check drops what has left the window and adds at most its own entry.
  pub entries-check_and_consume :
      Fresh (env.random t) (entries key t)
      → (entries key (check_and_consume env key cap window t).1 ≡ live env key window t)
        ⊎ (entries key (check_and_consume env key cap window t).1
            ≡ own_entry env t ∷ live env key window t)
  unfolding check_and_consume
  entries-check_and_consume fresh = exec_keeps fresh (env.exec sent key)
