-- ===== src/SendDm/Tests.antt =====
-- Runs of the direct-message handler on concrete inputs, and the theorems applied at such.
use automatebro.Prelude.{◌+◌, ◌≡◌, refl, ◌⊎◌, true, false, Option, none, some, [], ◌∷◌}
use automatebro.Records.{Send, dm, failed, rate_limited, meta_says}
use automatebro.Action.{
  Env, Trace, ok, err, plain, marked, posts, dm_message, set_send, response, Fetched, Body, Effect,
  Result,
}
use automatebro.Rows.{ReadsUpdates}
use automatebro.Fixtures.{env_with, row_of, now_ms, ig_account, hi, env_with-ReadsUpdates}
use automatebro.RateLimit.{RateLimitResult, check_and_consume}
use automatebro.SendDm.Gates.{Cleared, posts-send_dm}
use automatebro.SendDm.Retry.{rate_limited_dm_never_sent, deliver_retried, deliver_unrecorded}
use automatebro.SendDm.{
  SendDmInput, result_of, failure, delivered, post_message, on_rate, deliver, send_dm, message,
}

abbrev input : SendDmInput
input = record {
  send_id = "s1";
  ig_account_id = "ig1";
  recipient_psid = "psid";
  content = hi;
  automation_id = none;
}

abbrev env_dm : Env
env_dm = env_with (row_of dm) now_ms

-- The same, but Meta answers every request so.
abbrev env_answering : Fetched → Env
env_answering fetched = record env_dm { answer = λ t p. fetched }

abbrev empty_body : Option Body
empty_body = none

dm_is_sent :
    ((send_dm env_dm input []).0 ≡ ok (delivered "wamid"))
    × (posts (send_dm env_dm input []).1 ≡ dm_message "token" "u1" "psid" hi ∷ [])
unfolding send_dm check_and_consume
dm_is_sent = (refl, refl)

posts-send_dm_example :
    (posts (send_dm env_dm input []).1 ≡ []) ⊎ Cleared env_dm input [] (send_dm env_dm input []).1
posts-send_dm_example = posts-send_dm env_dm input []

abbrev turned_away : RateLimitResult
turned_away = record { allowed = false; current = 185; cap = 185; retry_after_ms = 1000 }

rate_limited_dm_never_sent_example :
    ((on_rate env_dm input ig_account turned_away []).0 ≡ err (marked "rate limited" true))
    × (send_dm env_dm input (on_rate env_dm input ig_account turned_away []).1
        ≡ (ok (result_of rate_limited), (on_rate env_dm input ig_account turned_away []).1))
rate_limited_dm_never_sent_example =
    rate_limited_dm_never_sent env_dm input ig_account turned_away [] (row_of dm)
      (env_with-ReadsUpdates (row_of dm) now_ms) refl refl refl

abbrev env_busy : Env
env_busy = env_answering (response 503 empty_body)

env_busy-ReadsUpdates : ReadsUpdates env_busy
env_busy-ReadsUpdates t id u r e = env_with-ReadsUpdates (row_of dm) now_ms t id u r e

deliver_retried_example :
    ((deliver env_busy input ig_account []).0 ≡ err (marked "meta send failed" true))
    × ((row' : Send) × (env_busy.query_send (deliver env_busy input ig_account []).1 "s1"
          ≡ ok (some row'))
        × (row'.status ≡ (row_of dm).status)
        × (row'.attempt ≡ (row_of dm).attempt + 1))
unfolding post_message
deliver_retried_example =
    deliver_retried env_busy input ig_account "token" "meta send failed" [] (row_of dm)
      env_busy-ReadsUpdates refl refl refl refl

-- A database that refuses to say that a message was sent.
abbrev refuses_sent : Effect → Result (Unit {0})
refuses_sent (set_send id u) = elim u.sent_at [ none ↦ ok tt | some at ↦ err (plain "refused") ]
refuses_sent _ = ok tt

abbrev env_refusing : Env
env_refusing = record env_dm { accepts = λ t e. refuses_sent e }

abbrev after_refusal : Trace
after_refusal = (deliver env_refusing input ig_account []).1

env_refusing-ReadsUpdates : ReadsUpdates env_refusing
env_refusing-ReadsUpdates t id u r e = env_with-ReadsUpdates (row_of dm) now_ms t id u r e

deliver_unrecorded_example :
    ((deliver env_refusing input ig_account []).0 ≡ ok (failure (meta_says "refused")))
    × (posts after_refusal ≡ dm_message "token" "u1" "psid" hi ∷ [])
    × ((row' : Send) × (env_refusing.query_send after_refusal "s1" ≡ ok (some row'))
        × (row'.status ≡ failed)
        × (row'.meta_message_id ≡ none))
    × (send_dm env_refusing input after_refusal ≡ (ok (result_of failed), after_refusal))
unfolding post_message message
deliver_unrecorded_example =
    deliver_unrecorded env_refusing input ig_account "token" "wamid" "refused" [] (row_of dm)
      env_refusing-ReadsUpdates refl refl refl refl refl
