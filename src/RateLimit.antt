-- ===== src/RateLimit.antt =====
-- The two sliding-window limiters, packages/shared/src/meta/rateLimit.ts and whatsapp/rateLimit.ts:
-- one text but for the prefix of the key and the defaults. What Redis answers is the environment's;
-- RateLimit/SortedSet states what Redis documents of it.
pub mod SortedSet
pub mod Bound
pub mod Window
pub mod Tests
use automatebro.Prelude.{
  ℕ, ◌+◌, ◌-◌, ◌*◌, ◌/◌, String, Bool, true, false, Option, none, some, ltb, if◌then◌else◌,
}
use automatebro.Action.{
  Env, Action, Replies, Error, plain, pure, throw, ask, read, ◌>>=◌, ◌>>◌, evict, zadd, expire,
  zrem, send_command, attempt_write, now, third_reply,
}

pub record RateLimitResult : Type 0 where
  pub allowed : Bool
  pub current : ℕ
  pub cap : ℕ
  pub retry_after_ms : ℕ

-- jobTypes.ts, PER_ACCOUNT_RATE_LIMIT and WHATSAPP_TIER1_LIMIT.durationMs.
abbrev pub per_account_max : ℕ
per_account_max = 185

abbrev pub per_account_duration_ms : ℕ
per_account_duration_ms = 60 * 60 * 1000

abbrev pub tier1_duration_ms : ℕ
tier1_duration_ms = 24 * 60 * 60 * 1000

-- `Math.max(0, oldestScore + windowMs - now)`, or the whole window if the set has no first entry.
abbrev pub retry_after : Option ℕ → ℕ → ℕ → ℕ
retry_after none window_ms time = window_ms
retry_after (some oldest) window_ms time = oldest + window_ms - time

abbrev pub rejected : ℕ → ℕ → ℕ → RateLimitResult
rejected count cap wait = record {
  allowed = false;
  current = count - 1;
  cap = cap;
  retry_after_ms = wait;
}

abbrev pub accepted : ℕ → ℕ → RateLimitResult
accepted count cap = record { allowed = true; current = count; cap = cap; retry_after_ms = 0 }

module _ (env : Env) where
  -- `if (count > cap) { … }` and what follows it.
  pub settle : String → ℕ → ℕ → ℕ → String → ℕ → Action RateLimitResult
  settle key cap window_ms time member count =
      if ltb cap count
      then (do
        attempt_write env (zrem key member)
        oldest ← ask (λ t. env.zrange_first t key)
        pure (rejected count cap (retry_after oldest window_ms time)))
      else pure (accepted count cap)

  pub after_exec : String → ℕ → ℕ → ℕ → String → Replies → Action RateLimitResult
  after_exec key cap window_ms time member none =
      throw (plain "rateLimit: pipeline.exec returned null")
  after_exec key cap window_ms time member (some replies) =
      settle key cap window_ms time member (third_reply replies)

  -- `checkAndConsumeRate` and `checkAndConsumeWhatsappRate` behind their keys.
  unfoldable pub check_and_consume : String → ℕ → ℕ → Action RateLimitResult
  unfolding after_exec settle
  check_and_consume key cap window_ms = do
    time ← now env
    member ← read env.random
    send_command env (evict key (time - window_ms))
    send_command env (zadd key time member)
    send_command env (expire key ((window_ms + 999) / 1000 + 1))
    replies ← ask (λ t. env.exec t key)
    after_exec key cap window_ms time member replies
