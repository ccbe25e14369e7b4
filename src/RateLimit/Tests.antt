-- ===== src/RateLimit/Tests.antt =====
-- The theorems on the limiters at a concrete history: one grant, then another.
use automatebro.Prelude.{◌-◌, ◌≤◌, refl, [], ◌∷◌, arith}
use automatebro.Records.{dm}
use automatebro.Action.{Env}
use automatebro.Fixtures.{env_with, row_of, now_ms, env_with-IsExact}
use automatebro.RateLimit.{check_and_consume, accepted}
use automatebro.RateLimit.Window.{
  History, grants_since, after_check, here, next, check, grants-le-cap,
}

-- Its members are fresh: they tell the length of the history.
abbrev env_counting : Env
env_counting = record (env_with (row_of dm) now_ms) {
  random = λ t. elim t [ [] ↦ "first" | _ ↦ "second" ];
}

abbrev start : History
start = record { trace = []; granted = []; last = 0 }

abbrev once : History
once = after_check env_counting "k" 185 3600000 start

grants-le-cap_example :
    grants_since
      (env_counting.clock once.trace - 3600000)
      (env_counting.clock once.trace ∷ once.granted)
    ≤ 185
unfolding check_and_consume
grants-le-cap_example =
    grants-le-cap env_counting "k" 185 3600000 (env_with-IsExact (row_of dm) now_ms) start once refl
      (next here (check start refl (omega arith))) refl (omega arith) (accepted 2 185) refl refl
