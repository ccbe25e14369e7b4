-- ===== src/Worker/Dispatch.antt =====
-- apps/worker/src/index.ts, dispatchJob, and packages/shared/src/queue/jobTypes.ts, the schemas that a
-- job is parsed with. The wrappers in apps/worker/src/jobs pass a job's columns to its handler and log.
pub mod AiReply
use automatebro.Prelude.{
  String, ◌≡◌, refl, Bool, true, false, ◌&&◌, not, Option, none, some, ◌∷◌, arith, length, ◌==◌,
  str_eq, if◌then◌else◌,
}
use automatebro.Records.{Text, EventRecord, Send}
use automatebro.Action.{
  Env, Trace, Effect, Action, Result, ok, err, plain, jobs, JobData, send_dm, generate_ai_reply,
  send_comment_reply, send_whatsapp, set_send, enqueue, throw,
}
use automatebro.Leads.Capture.{Patterns}
use automatebro.SendDm
use automatebro.SendWhatsapp
use automatebro.Ai.Reply
use automatebro.Ai.Reply.{GenerateAiReplyInput, hand_over, content_update}
use automatebro.Worker.Event.{Payload, process_event, done}
use automatebro.Worker.CommentReply

-- A job as it comes from the queue.
pub data QueuedJob : Type 0 where
  process_event_job : String → QueuedJob
  send_job : JobData → QueuedJob

-- `z.string().uuid()` is a parameter, `z.string().min(1)` a test of the length.
module _ (is_uuid : String → Bool) where
  is_uuid_or_null : Option String → Bool
  is_uuid_or_null none = true
  is_uuid_or_null (some id) = is_uuid id

  -- A column that may not be null.
  is_present : (String → Bool) → Option String → Bool
  is_present test none = false
  is_present test (some s) = test s

  is_filled : String → Bool
  is_filled s = not (str_eq s "")

  is_text : Text → Bool
  is_text t = not (length t == 0)

  -- `JobData.parse` takes the job.
  unfoldable pub is_job_data : QueuedJob → Bool
  unfolding is_uuid_or_null is_present is_filled is_text
  is_job_data (process_event_job id) = is_uuid id
  is_job_data (send_job (send_dm id account recipient content automation)) =
      is_uuid id
      && is_present is_uuid account
      && is_present is_filled recipient
      && is_text content
      && is_uuid_or_null automation
  is_job_data (send_job (generate_ai_reply event response id)) =
      is_uuid event && is_uuid response && is_uuid id
  is_job_data (send_job (send_comment_reply id account comment message)) =
      is_uuid id && is_uuid account && is_filled comment && is_text message
  is_job_data (send_job (send_whatsapp id account phone content automation)) =
      is_uuid id && is_uuid account && is_filled phone && is_uuid automation

abbrev pub zod_error : {A : Type 0} → Action A
zod_error = throw (plain "ZodError")

module _ (env : Env) (patterns : Patterns) (payload_of : EventRecord → Payload) where
  -- The switch on a job that parses.
  unfoldable pub run_job : QueuedJob → Action (Unit {0})
  run_job (process_event_job id) = process_event env patterns payload_of id
  run_job (send_job (send_dm id (some account) (some recipient) content automation)) = done (
      SendDm.send_dm env (record {
        send_id = id;
        ig_account_id = account;
        recipient_psid = recipient;
        content = content;
        automation_id = automation;
      }))
  run_job (send_job (send_dm id _ _ content automation)) = zod_error
  run_job (send_job (generate_ai_reply event response id)) = done (
      Reply.generate_ai_reply env
        (record { event_id = event; response_id = response; send_id = id }))
  run_job (send_job (send_comment_reply id account comment message)) =
      CommentReply.send_comment_reply env
        (record { send_id = id; ig_account_id = account; comment_id = comment; message = message })
  run_job (send_job (send_whatsapp id account phone content automation)) = done (
      SendWhatsapp.send_whatsapp env (record {
        send_id = id;
        whatsapp_account_id = account;
        recipient_phone = phone;
        content = content;
        automation_id = some automation;
      }))

  unfoldable pub dispatch_job : (String → Bool) → QueuedJob → Action (Unit {0})
  unfolding run_job
  dispatch_job is_uuid job = if is_job_data is_uuid job then run_job job else zod_error
