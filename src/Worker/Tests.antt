-- ===== src/Worker/Tests.antt =====
-- Runs of the worker's jobs on concrete inputs, and the theorems applied at such.
use automatebro.Prelude.{◌≡◌, refl, sym, ap, true, Option, none, some, [], ◌∷◌, arith, ℕ}
use automatebro.Records.{
  Send, message, dm, EventRecord, EventKind, whatsapp_freeform, whatsapp_status,
}
use automatebro.Action.{Result, Env, Trace, ok, err, plain, posts, jobs, mark_processed}
use automatebro.Fixtures.{env_with, row_of, now_ms, ig_account, hi, event_of, same_case}
use automatebro.Leads.Capture.{Patterns}
use automatebro.Ai.Reply.{GenerateAiReplyInput, hand_over}
use automatebro.Worker.CommentReply.{Job, send_comment_reply}
use automatebro.Worker.CommentReply.Laws.{
  Settled, reply_request, send_comment_reply-Settled, send_comment_reply_twice,
}
use automatebro.Worker.Event.{Payload, process_event}
use automatebro.Worker.Event.Laws.{Marked, ShowsProcessed, process_event_once}
use automatebro.Worker.Event.Stranded.{message_event_stranded}
use automatebro.Worker.Dispatch.{send_job, dispatch_job}
use automatebro.Worker.Dispatch.AiReply.{reply_job, reply_job_thrown_out}

abbrev env : Env
env = env_with (row_of dm) now_ms

abbrev job : Job
job = record { send_id = "s1"; ig_account_id = "ig1"; comment_id = "c1"; message = hi }

send_comment_reply-Settled_example :
    ((send_comment_reply env job []).0 ≡ ok tt)
    × Settled env job [] (send_comment_reply env job []).1
send_comment_reply-Settled_example =
    send_comment_reply-Settled env job (λ t e. refl) (some ig_account) [] refl

send_comment_reply_twice_example :
    posts (send_comment_reply env job (send_comment_reply env job []).1).1
    ≡ reply_request env job "token" ∷ reply_request env job "token" ∷ []
send_comment_reply_twice_example =
    send_comment_reply_twice env job ig_account "token" [] (λ t. refl) refl

-- No address and no number in any text.
abbrev patterns : Patterns
patterns = record { match_email = λ t. none; match_phone = λ t. none; to_lower_case = same_case }

abbrev payload_of : EventRecord → Payload
payload_of event = record {
  comment = record { from_id = none; from_username = none; media_id = none; comment_id = none };
  inbound = record { sender_id = some "psid"; sender_username = some hi };
  whatsapp = record { sender = none; type = none; body = none };
  template_status = record { event = none; message_template_id = none; reason = none };
}

-- The event as the history has marked it.
abbrev event_after : EventKind → Trace → EventRecord
event_after kind [] = event_of kind
event_after kind (mark_processed id time ∷ t) = record (event_after kind t) {
  processed_at = some time;
}
event_after kind (_ ∷ t) = event_after kind t

abbrev env_event : EventKind → Env
env_event kind = record env {
  query_event = λ t id. ok (some (event_after kind t));
  count_sends = λ t id. ok 1;
}

abbrev marked_at : Result (Option EventRecord) → Option ℕ
marked_at (ok (some event)) = event.processed_at
marked_at _ = none

env_event-ShowsProcessed : (kind : EventKind) → ShowsProcessed (env_event kind)
env_event-ShowsProcessed kind t id time event e = (time, ap marked_at (sym e))

process_event_once_example :
    let t' = (process_event (env_event whatsapp_status) patterns payload_of "e1" []).1 in
    Marked "e1" t'
    × ((process_event (env_event whatsapp_status) patterns payload_of "e1" t').1 ≡ t')
unfolding process_event
process_event_once_example =
    process_event_once (env_event whatsapp_status) patterns payload_of "e1"
      (event_of whatsapp_status) [] refl refl (env_event-ShowsProcessed whatsapp_status) refl

message_event_stranded_example :
    let r = process_event (env_event message) patterns payload_of "e1" [] in
    (r.0 ≡ ok tt) × Marked "e1" r.1 × (jobs r.1 ≡ [])
message_event_stranded_example =
    message_event_stranded (env_event message) patterns payload_of "e1" (event_of message) "t1"
      "ig1" 1 [] (λ t e. refl) refl refl refl refl refl (λ t. refl) (omega arith)

abbrev whatsapp_row : Send
whatsapp_row = row_of whatsapp_freeform

abbrev ai_input : GenerateAiReplyInput
ai_input = record { event_id = "e1"; response_id = "r1"; send_id = "s1" }

reply_job_thrown_out_example :
    (jobs (hand_over env ai_input whatsapp_row hi []).1 ≡ reply_job whatsapp_row hi ∷ [])
    × ((t' : Trace)
        → dispatch_job env patterns payload_of
            (λ id. true)
            (send_job (reply_job whatsapp_row hi))
            t'
          ≡ (err (plain "ZodError"), t'))
reply_job_thrown_out_example =
    reply_job_thrown_out env patterns payload_of (λ id. true) ai_input whatsapp_row hi [] refl
      (λ t e. refl)
