-- ===== src/Worker/Dispatch/AiReply.antt =====
-- The way of an AI reply from generateAiReply.ts through the queue to the dispatcher.
use automatebro.Prelude.{String, ◌≡◌, Bool, false, Option, none, ◌∷◌, arith, inl, inr, Bool-cases}
use automatebro.Records.{Text, EventRecord, Send}
use automatebro.Action.{
  Env, Trace, Effect, ok, err, plain, jobs, JobData, send_dm, set_send, enqueue,
}
use automatebro.Leads.Capture.{Patterns}
use automatebro.Ai.Reply.{GenerateAiReplyInput, hand_over, content_update}
use automatebro.Worker.Event.{Payload}
use automatebro.Worker.Dispatch.{send_job, is_job_data, dispatch_job}

-- The job that hands a row's text over.
abbrev pub reply_job : Send → Text → JobData
reply_job send content =
    send_dm send.id send.ig_account_id send.recipient_psid content send.automation_id

no_account :
    (is_uuid : String → Bool) (id : String) (recipient : Option String) (content : Text)
    (automation : Option String)
    → is_job_data is_uuid (send_job (send_dm id none recipient content automation)) ≡ false
unfolding is_job_data
no_account is_uuid id recipient content automation = elim (Bool-cases (is_uuid id)) [
  | inl e ↦ rw e
  | inr e ↦ rw e
]

module _ (env : Env) (patterns : Patterns) (payload_of : EventRecord → Payload)
    (is_uuid : String → Bool) where
  -- An AI reply for a row without an Instagram account, such as a WhatsApp row, in a database and a
  -- queue that take every write, puts a job into the queue that the dispatcher throws out at any
  -- time, without a write or a request.
  pub reply_job_thrown_out :
      (input : GenerateAiReplyInput) (send : Send) (content : Text) (t : Trace)
      → send.ig_account_id ≡ none
      → ((t' : Trace) (e : Effect) → env.accepts t' e ≡ ok tt)
      → (jobs (hand_over env input send content t).1 ≡ reply_job send content ∷ jobs t)
        × ((t' : Trace)
            → dispatch_job env patterns payload_of is_uuid (send_job (reply_job send content)) t'
              ≡ (err (plain "ZodError"), t'))
  reply_job_thrown_out input send content t e takes = (handed, thrown)
    where
      handed : jobs (hand_over env input send content t).1 ≡ reply_job send content ∷ jobs t
      handed =
          unfold hand_over in
          ground (
            arith,
            takes t (set_send input.send_id (content_update content)),
            takes (set_send input.send_id (content_update content) ∷ t)
                (enqueue (reply_job send content)),
          )

      thrown :
          (t' : Trace)
          → dispatch_job env patterns payload_of is_uuid (send_job (reply_job send content)) t'
            ≡ (err (plain "ZodError"), t')
      thrown t' =
          unfold dispatch_job in
          rw e (rw (no_account is_uuid send.id send.recipient_psid content send.automation_id))
