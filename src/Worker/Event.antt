-- ===== src/Worker/Event.antt =====
-- apps/worker/src/jobs/processEvent.ts: an event goes to the handler for its kind.
pub mod Laws
pub mod Stranded
use automatebro.Prelude.{ℕ, String, ◌≡◌, refl, Option, none, some, ◌∷◌}
use automatebro.Records.{
  Text, EventKind, EventRecord, comment, message, story_reply, message_reaction, mention,
  whatsapp_message, whatsapp_status, whatsapp_template_status,
}
use automatebro.Action.{
  Env, Trace, Action, Result, ok, err, mark_processed, ask, now, perform, pure, continue, ◌>>=◌,
  ◌>>◌,
}
use automatebro.Processing.Dm.{InboundMessage, process_dm_event, process_story_reply_event}
use automatebro.Processing.Comment.{CommentPayload, process_comment_event}
use automatebro.Processing.Whatsapp.{WaPayload, process_whatsapp_message_event}
use automatebro.Templates.StatusWebhook.{
  TemplateStatusPayload, handle_whatsapp_template_status_event,
}
use automatebro.Leads.Capture.{Sender, Patterns, capture_lead}

-- The payload of an event, as each handler reads it.
pub record Payload : Type 0 where
  pub comment : CommentPayload
  pub inbound : InboundMessage
  pub whatsapp : WaPayload
  pub template_status : TemplateStatusPayload

abbrev pub done : {A : Type 0} → Action A → Action (Unit {0})
done m = m >>= λ _. pure tt

-- What `Promise.all` makes of the results.
abbrev pub both : Result (Unit {0}) → Result (Unit {0}) → Result (Unit {0})
both (err e) r = err e
both (ok _) r = r

-- `Promise.all([m, n])`, in the order that lets `m` finish first: `n` runs whatever comes of `m`.
abbrev pub all_of : Action (Unit {0}) → Action (Unit {0}) → Action (Unit {0})
all_of m n t = let (r, t') = m t in let (r', t'') = n t' in (both r r', t'')

abbrev pub sender_of : InboundMessage → Sender
sender_of m = record { id = m.sender_id; username = m.sender_username }

module _ (env : Env) where
  -- The update that ends a run.
  unfoldable pub finish : String → Action (Unit {0})
  finish id = do time ← now env; perform env (mark_processed id time)

module _ (env : Env) (patterns : Patterns) (payload_of : EventRecord → Payload) where
  unfoldable pub handle : EventRecord → EventKind → Action (Unit {0})
  handle event comment =
      done (process_comment_event env patterns.to_lower_case event (payload_of event).comment)
  handle event message =
      all_of (done (capture_lead env patterns event (sender_of (payload_of event).inbound)))
        (done (process_dm_event env patterns.to_lower_case event (payload_of event).inbound))
  handle event story_reply =
      done (process_story_reply_event env patterns.to_lower_case event (payload_of event).inbound)
  handle event whatsapp_message =
      done (
        process_whatsapp_message_event env patterns.to_lower_case event (payload_of event).whatsapp)
  handle event whatsapp_template_status =
      done (handle_whatsapp_template_status_event env (payload_of event).template_status)
  handle event whatsapp_status = pure tt
  handle event message_reaction = pure tt
  handle event mention = pure tt

  unfoldable pub unless_processed : String → EventRecord → Option ℕ → Action (Unit {0})
  unfolding handle finish
  unless_processed id event (some at) = pure tt
  unless_processed id event none = handle event event.kind >> finish env id

  unfoldable pub on_event : String → Option EventRecord → Action (Unit {0})
  unfolding unless_processed
  on_event id none = pure tt
  on_event id (some event) = unless_processed id event event.processed_at

  unfoldable pub process_event : String → Action (Unit {0})
  unfolding on_event
  process_event id = do found ← ask (λ t. env.query_event t id); on_event id found
