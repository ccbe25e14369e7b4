-- ===== src/Processing/Dm.antt =====
-- handlers/processDmEvent.ts and processStoryReplyEvent.ts. The two handlers do the same but for the
-- trigger that they look for: `dm`, `storyReply`.
pub mod Kept
pub mod Laws
use automatebro.Prelude.{
  ℕ, ◌+◌, String, Bool, true, false, ◌||◌, ◌&&◌, not, Option, none, some, List, [], ltb, length,
  ◌==◌, or_default, is_some, if◌then◌else◌,
}
use automatebro.Records.{
  Text, EventRecord, Send, SendKind, dm, queued, instagram, Automation, Trigger, Intent,
  ResponseRecord, static, ai,
}
use automatebro.Action.{
  Env, Action, JobData, send_dm, generate_ai_reply, enqueue, insert_send, ask, read, now, pure,
  perform, ◌>>=◌, ◌>>◌,
}
use automatebro.Matching.{keyword_hit, intent_gate_allows, render_template}
use automatebro.Ai.Classify.{classify_event_intent}
use automatebro.Processing.Loop.{Counts, zero_counts, Iteration, for_each}

-- `event.payload.messaging`, what the handlers read of it beside the text.
pub record InboundMessage : Type 0 where
  pub sender_id : Option String
  pub sender_username : Option Text

-- The event's columns and payload that the handler has found to be there.
pub record Inbound : Type 0 where
  pub event_id : String
  pub tenant_id : String
  pub ig_account_id : String
  pub text : Text
  pub recipient_psid : String
  pub username : Text

abbrev pub is_ai : ResponseRecord → Bool
is_ai r = elim r.mode [ static ↦ false | ai ↦ true ]

-- The text of the reply: the inbound text for the AI job to read, or the rendered template.
unfoldable pub content_for : Inbound → ResponseRecord → Text
content_for inbound response =
    if is_ai response
    then inbound.text
    else render_template (or_default response.template []) inbound.username inbound.username

unfoldable pub new_send : Inbound → SendKind → Text → Bool → String → String → ℕ → Send
new_send inbound kind content generated automation_id id time = record {
  id = id;
  tenant_id = some inbound.tenant_id;
  channel = instagram;
  ig_account_id = some inbound.ig_account_id;
  whatsapp_account_id = none;
  automation_id = some automation_id;
  event_id = some inbound.event_id;
  recipient_psid = some inbound.recipient_psid;
  recipient_phone = none;
  kind = kind;
  whatsapp_template_id = none;
  whatsapp_template_params = none;
  content = content;
  ai_generated = generated;
  status = queued;
  meta_message_id = none;
  error_code = none;
  error_message = none;
  attempt = 1;
  queued_at = time;
  sent_at = none;
  failed_at = none;
}

-- The job for a send: `generate-ai-reply` or `send-dm`.
unfoldable pub dm_job : Inbound → ResponseRecord → Text → String → String → JobData
dm_job inbound response content automation_id id =
    if is_ai response
    then generate_ai_reply inbound.event_id response.id id
    else send_dm id (some inbound.ig_account_id) (some inbound.recipient_psid) content
        (some automation_id)

abbrev pub one_enqueued : Counts → Counts
one_enqueued r = record r { enqueued = r.enqueued + 1 }

abbrev pub one_matched : Counts → Counts
one_matched r = record r { matched = r.matched + 1 }

module _ (env : Env) where
  -- Inserts the row and enqueues its job.
  unfoldable pub create_send : Inbound → ResponseRecord → Text → String → Counts → Action Counts
  unfolding new_send dm_job
  create_send inbound response content automation_id r = do
    id ← read env.random
    time ← now env
    perform env (insert_send (new_send inbound dm content (is_ai response) automation_id id time))
    perform env (enqueue (dm_job inbound response content automation_id id))
    pure (one_enqueued r)

  unfoldable pub respond : Inbound → String → Option ResponseRecord → Counts → Action Counts
  unfolding create_send
  respond inbound automation_id none r = pure r
  respond inbound automation_id (some response) r =
      let content = content_for inbound response in
      if length content == 0 && not (is_ai response)
      then pure r
      else create_send inbound response content automation_id r

  -- `lower` is `toLowerCase`.
  unfoldable pub process_automation : (Text → Text) → Inbound → Option Intent → Iteration
  unfolding respond
  process_automation lower inbound intent automation r = do
    trigger ← ask (λ t. env.query_trigger t automation.id)
    elim trigger [
      | none ↦ pure r
      | some tr ↦
          if keyword_hit lower tr inbound.text && intent_gate_allows tr.intents intent
          then (do
            response ← ask (λ t. env.query_response t automation.id)
            respond inbound automation.id response (one_matched r))
          else pure r
    ]

  match_automations : (Text → Text) → String → EventRecord → Inbound → Action Counts
  unfolding process_automation for_each
  match_automations lower trigger event inbound = do
    existing ← ask (λ t. env.count_sends t inbound.event_id)
    if ltb 0 existing then pure zero_counts else (do
      classification ← classify_event_intent env lower event
      automations ←
          ask (λ t. env.query_automations t inbound.tenant_id inbound.ig_account_id trigger)
      for_each (process_automation lower inbound classification.intent) automations zero_counts)

  with_sender :
      (Text → Text)
      → String
      → EventRecord
      → String
      → String
      → Text
      → Text
      → Option String
      → Action Counts
  unfolding match_automations
  with_sender lower trigger event tenant account text username none = pure zero_counts
  with_sender lower trigger event tenant account text username (some psid) =
      if length text == 0
      then pure zero_counts
      else match_automations lower trigger event (record {
        event_id = event.id;
        tenant_id = tenant;
        ig_account_id = account;
        text = text;
        recipient_psid = psid;
        username = username;
      })

  with_account :
      (Text → Text)
      → String
      → EventRecord
      → InboundMessage
      → Option String
      → Option String
      → Action Counts
  unfolding with_sender
  with_account lower trigger event m (some tenant) (some account) =
      with_sender lower trigger event tenant account (or_default event.message_text [])
        (or_default m.sender_username []) m.sender_id
  with_account lower trigger event m _ _ = pure zero_counts

  unfoldable pub process_dm_event : (Text → Text) → EventRecord → InboundMessage → Action Counts
  unfolding with_account
  process_dm_event lower event m =
      with_account lower "dm" event m event.tenant_id event.ig_account_id

  unfoldable pub process_story_reply_event :
      (Text → Text) → EventRecord → InboundMessage → Action Counts
  unfolding with_account
  process_story_reply_event lower event m =
      with_account lower "storyReply" event m event.tenant_id event.ig_account_id
