-- ===== src/SendWhatsapp/Tests.antt =====
-- Runs of the handler on concrete inputs, and the theorems applied at such.
use automatebro.Prelude.{◌≡◌, ◌+◌, refl, ◌⊎◌, arith, true, false, some, none, [], ◌∷◌}
use automatebro.Records.{
  Category, Conversations, marketing, rate_limited, whatsapp_freeform, whatsapp_template,
}
use automatebro.Action.{
  Env, ok, err, marked, set_send, set_costs, Trace, posts, template_message, freeform_message,
}
use automatebro.Fixtures.{
  env_with, row_of, now_ms, account, lead, template, costs_row, env_with-ReadsUpdates,
}
use automatebro.Whatsapp.ServiceWindow.{can_send_freeform}
use automatebro.RateLimit.{RateLimitResult, check_and_consume}
use automatebro.Adapters.Whatsapp.{send_message}
use automatebro.SendWhatsapp.Outcome.{outcome_of, delivered}
use automatebro.SendWhatsapp.Cost.{
  total_conversations, increment_conversation_cost, count_todays_conversations,
}
use automatebro.SendWhatsapp.Cleared.{Cleared, posts-send_whatsapp}
use automatebro.SendWhatsapp.Retry.{rate_limited_never_sent, deliver_sent, said_sent}
use automatebro.SendWhatsapp.Counting.{begun, count_of, one_if, increment_after_window}
use automatebro.SendWhatsapp.{SendWhatsappInput, Job, on_rate, deliver, send_whatsapp}

abbrev input : SendWhatsappInput
input = record {
  send_id = "s1";
  whatsapp_account_id = "a1";
  recipient_phone = "+91";
  content = 72 ∷ 105 ∷ [];
  automation_id = none;
}

abbrev env_freeform : Env
env_freeform = env_with (row_of whatsapp_freeform) now_ms

abbrev env_template : Env
env_template = env_with (row_of whatsapp_template) now_ms

freeform_is_sent :
    ((send_whatsapp env_freeform input []).0 ≡ ok (delivered "wamid"))
    × (posts (send_whatsapp env_freeform input []).1
        ≡ freeform_message "token" "p1" "+91" (72 ∷ 105 ∷ []) ∷ [])
unfolding send_whatsapp check_and_consume count_todays_conversations can_send_freeform
freeform_is_sent = (refl, refl)

template_is_sent :
    posts (send_whatsapp env_template input []).1
    ≡ template_message "token" "p1" "+91" "sale" "en" [] ∷ []
unfolding send_whatsapp check_and_consume count_todays_conversations increment_conversation_cost
template_is_sent = refl

posts-send_whatsapp_example :
    (posts (send_whatsapp env_template input []).1 ≡ [])
    ⊎ Cleared env_template input [] (send_whatsapp env_template input []).1
posts-send_whatsapp_example = posts-send_whatsapp env_template input []

abbrev job : Job
job = record { send = row_of whatsapp_template; tenant = "t1"; account = account }

abbrev turned_away : RateLimitResult
turned_away = record { allowed = false; current = 100; cap = 100; retry_after_ms = 1000 }

rate_limited_never_sent_example :
    ((on_rate env_template input job (some template) turned_away []).0
      ≡ err (marked "rate limited" true))
    × (send_whatsapp env_template input
          (on_rate env_template input job (some template) turned_away []).1
        ≡ (
          ok (outcome_of rate_limited),
          (on_rate env_template input job (some template) turned_away []).1,
        ))
rate_limited_never_sent_example =
    rate_limited_never_sent env_template input job (some template) turned_away []
      (row_of whatsapp_template) (env_with-ReadsUpdates (row_of whatsapp_template) now_ms) refl refl
      (λ u. refl)

deliver_sent_example :
    ((deliver env_template input job (some template) []).0 ≡ ok (delivered "wamid"))
    × ((t' : Trace) × ((deliver env_template input job (some template) []).1
          ≡ set_send "s1" (said_sent env_template input "wamid" (env_template.clock t')) ∷ t'))
unfolding send_message
deliver_sent_example =
    deliver_sent env_template input job (some template) "token" "wamid" [] refl refl (λ t u. refl)

-- A minute after the last counted template.
abbrev env_soon : Env
env_soon = env_with (row_of whatsapp_template) 1700000060000

increment_after_window_example :
    (next : Conversations) × (increment_conversation_cost env_template "t1" "a1" "+91" marketing []
      ≡ (ok tt, set_costs "c1" next ∷ begun env_template "t1" "a1" "+91" marketing [] lead))
    × ((d : Category)
        → count_of d next ≡ count_of d costs_row.conversations_by_category + one_if marketing d)
    × (total_conversations next ≡ total_conversations costs_row.conversations_by_category + 1)
increment_after_window_example =
    increment_after_window env_template "t1" "a1" "+91" marketing [] lead 1700000000000 costs_row
      refl refl (omega arith) refl refl (λ u. refl)
