-- ===== src/SendWhatsapp/Retry.antt =====
-- Runs after the first: BullMQ runs a job again when the handler throws.
use automatebro.Prelude.{
  ℕ, ◌+◌, ◌/◌, String, ◌≡◌, ◌≢◌, refl, true, false, Option, none, some, ◌∷◌, arith,
}
use automatebro.Records.{Send, SendStatus, queued, sent, rate_limited, limited_at, WhatsappTemplate}
use automatebro.Action.{Env, Trace, Result, ok, err, marked, set_send, SendUpdate, no_update}
use automatebro.Adapters.Whatsapp.{send_message, returned}
use automatebro.RateLimit.{RateLimitResult}
use automatebro.Rows.{apply_update, ReadsUpdates}
use automatebro.SendWhatsapp.Cost.{increment_conversation_cost}
use automatebro.SendWhatsapp.Outcome.{
  SendWhatsappOutcome, outcome_of, problem, delivered, terminal_update, persist_terminal,
}
use automatebro.SendWhatsapp.{
  SendWhatsappInput, Job, is_queued, message, send_whatsapp, on_rate, deliver, finish,
}

not_queued : (s : SendStatus) → s ≢ queued → is_queued s ≡ false
not_queued queued h = absurd (h refl)
not_queued _ h = refl

module _ (env : Env) (input : SendWhatsappInput) where
  -- A run on a row that is not queued reports the row's status and writes nothing.
  pub send_whatsapp_settled :
      (t : Trace) (row : Send)
      → env.query_send t input.send_id ≡ ok (some row)
      → row.status ≢ queued
      → send_whatsapp env input t ≡ (ok (outcome_of row.status), t)
  unfolding send_whatsapp
  send_whatsapp_settled t row e h = rw (e, send_whatsapp) (rw (not_queued row.status h))

  -- A WhatsApp job whose queued row is there and which the limiter turns away is thrown to be run
  -- again, and, the database taking the update and showing it, the next run returns the status
  -- rateLimited and writes nothing and makes no request.
  pub rate_limited_never_sent :
      (job : Job) (template : Option WhatsappTemplate) (r : RateLimitResult) (t : Trace)
      (row : Send)
      → ReadsUpdates env
      → env.query_send t input.send_id ≡ ok (some row)
      → r.allowed ≡ false
      → ((u : SendUpdate) → env.accepts t (set_send input.send_id u) ≡ ok tt)
      → ((on_rate env input job template r t).0 ≡ err (marked "rate limited" true))
        × (send_whatsapp env input (on_rate env input job template r t).1
            ≡ (ok (outcome_of rate_limited), (on_rate env input job template r t).1))
  unfolding terminal_update
  rate_limited_never_sent job template r t row reads there refused accepts = rw on_rate_refused (
    refl,
    send_whatsapp_settled _ (apply_update limited_update row)
        (reads t input.send_id limited_update row there) (λ e. cc e),
  )
    where
      limited_update : SendUpdate
      limited_update =
          terminal_update
            (problem rate_limited (limited_at r.current r.cap ((r.retry_after_ms + 999) / 1000)))
            (env.clock t)

      on_rate_refused :
          on_rate env input job template r t
          ≡ (err (marked "rate limited" true), set_send input.send_id limited_update ∷ t)
      on_rate_refused =
          unfold on_rate persist_terminal in rw refused (ground (arith, accepts limited_update))

  -- The columns of a row whose message was sent.
  abbrev pub said_sent : String → ℕ → SendUpdate
  said_sent id time = record no_update {
    status = some sent;
    sent_at = some time;
    meta_message_id = some id;
  }

  abbrev EndsSent : String → Result SendWhatsappOutcome → Trace → Type 0
  EndsSent id r t =
      (r ≡ ok (delivered id))
      × ((t' : Trace) × (t ≡ set_send input.send_id (said_sent id (env.clock t')) ∷ t'))

  finish_sent :
      (job : Job) (template : Option WhatsappTemplate) (id : String) (t : Trace)
      → ((t' : Trace) (u : SendUpdate) → env.accepts t' (set_send input.send_id u) ≡ ok tt)
      → EndsSent id (finish env input job template id t).0 (finish env input job template id t).1
  unfolding finish terminal_update
  finish_sent job none id t accepts =
      let here = accepts t (terminal_update (delivered id) (env.clock t)) in
      (ground (arith, here), (t, ground (arith, here)))
  finish_sent job (some tpl) id t accepts =
      let t' =
        (increment_conversation_cost env job.tenant job.account.id input.recipient_phone
          tpl.category t).1 in
      let here = accepts t' (terminal_update (delivered id) (env.clock t')) in
      (ground (arith, here), (t', ground (arith, here)))

  -- With the gates passed, a token that decrypts, and a database that takes every update of the
  -- row, the message that Meta answers with an identifier is reported as sent under it, and the
  -- last write of the run sets the row's status to sent, its time of sending and the identifier,
  -- and no other column, whatever becomes of the count of conversations.
  pub deliver_sent :
      (job : Job) (template : Option WhatsappTemplate) (token id : String) (t : Trace)
      → env.decrypt job.account.token job.account.phone_number_id ≡ ok token
      → send_message (env.answer t (message env input job template token)) ≡ returned id
      → ((t' : Trace) (u : SendUpdate) → env.accepts t' (set_send input.send_id u) ≡ ok tt)
      → ((deliver env input job template t).0 ≡ ok (delivered id))
        × ((t' : Trace) × ((deliver env input job template t).1
              ≡ set_send input.send_id (said_sent id (env.clock t')) ∷ t'))
  unfolding deliver
  deliver_sent job template token id t d a accepts =
      rw (d, deliver) (rw a (finish_sent job template id _ accepts))
