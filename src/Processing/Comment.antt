-- ===== src/Processing/Comment.antt =====
-- handlers/processCommentEvent.ts. A match sends a direct message and, if the response has one, a
-- public reply. Unlike its siblings the handler does not ask whether the event has rows already.
pub mod Kept
pub mod Laws
use automatebro.Prelude.{
  ℕ, ◌+◌, String, Bool, true, false, ◌||◌, ◌&&◌, not, Option, none, some, List, [], length, ◌==◌,
  or_default, if◌then◌else◌,
}
use automatebro.Records.{Text, EventRecord, Send, comment_reply, Trigger, Intent, ResponseRecord}
use automatebro.Action.{
  Env, Action, send_comment_reply, enqueue, insert_send, ask, read, now, pure, perform, ◌>>=◌, ◌>>◌,
}
use automatebro.Matching.{keyword_hit, intent_gate_allows, in_post_scope, render_template}
use automatebro.Ai.Classify.{classify_event_intent}
use automatebro.Processing.Loop.{Counts, zero_counts, Iteration, for_each}
use automatebro.Processing.Dm.{
  Inbound, is_ai, content_for, new_send, create_send, one_matched, one_enqueued,
}

-- `event.payload.change.value`, what the handler reads of it beside the text.
pub record CommentPayload : Type 0 where
  pub from_id : Option String
  pub from_username : Option Text
  pub media_id : Option String
  pub comment_id : Option String

module _ (env : Env) where
  create_reply : Inbound → String → Text → String → Counts → Action Counts
  unfolding new_send
  create_reply inbound comment_id rendered automation_id r = do
    id ← read env.random
    time ← now env
    perform env (insert_send (new_send inbound comment_reply rendered false automation_id id time))
    perform env (enqueue (send_comment_reply id inbound.ig_account_id comment_id rendered))
    pure (one_enqueued r)

  reply_with : Inbound → Option Text → Option String → String → Counts → Action Counts
  unfolding create_reply
  reply_with inbound (some text) (some comment_id) automation_id r =
      if length text == 0
      then pure r
      else create_reply inbound comment_id (render_template text inbound.username inbound.username)
          automation_id r
  reply_with inbound _ _ automation_id r = pure r

  send_content : Inbound → ResponseRecord → String → Counts → Action Counts
  unfolding create_send
  send_content inbound response automation_id r =
      let content = content_for inbound response in
      if not (length content == 0) || is_ai response
      then create_send env inbound response content automation_id r
      else pure r

  unfoldable pub respond :
      Inbound → Option String → String → Option ResponseRecord → Counts → Action Counts
  unfolding send_content reply_with
  respond inbound comment_id automation_id none r = pure r
  respond inbound comment_id automation_id (some response) r = do
    r' ← send_content inbound response automation_id r
    reply_with inbound response.comment_reply comment_id automation_id r'

  unfoldable pub process_automation :
      (Text → Text) → Inbound → Option String → Option String → Option Intent → Iteration
  unfolding respond
  process_automation lower inbound post_id comment_id intent automation r = do
    trigger ← ask (λ t. env.query_trigger t automation.id)
    elim trigger [
      | none ↦ pure r
      | some tr ↦
          if in_post_scope tr.post_ids post_id
            && (keyword_hit lower tr inbound.text && intent_gate_allows tr.intents intent)
          then (do
            response ← ask (λ t. env.query_response t automation.id)
            respond inbound comment_id automation.id response (one_matched r))
          else pure r
    ]

  match_automations :
      (Text → Text) → EventRecord → Inbound → Option String → Option String → Action Counts
  unfolding process_automation for_each
  match_automations lower event inbound post_id comment_id = do
    classification ← classify_event_intent env lower event
    automations ←
        ask (λ t. env.query_automations t inbound.tenant_id inbound.ig_account_id "comment")
    for_each (process_automation lower inbound post_id comment_id classification.intent) automations
        zero_counts

  with_sender :
      (Text → Text)
      → EventRecord
      → String
      → String
      → CommentPayload
      → Text
      → Option String
      → Action Counts
  unfolding match_automations
  with_sender lower event tenant account m text none = pure zero_counts
  with_sender lower event tenant account m text (some psid) =
      if length text == 0
      then pure zero_counts
      else match_automations lower event
          (record {
            event_id = event.id;
            tenant_id = tenant;
            ig_account_id = account;
            text = text;
            recipient_psid = psid;
            username = or_default m.from_username [];
          })
          m.media_id m.comment_id

  with_account :
      (Text → Text) → EventRecord → CommentPayload → Option String → Option String → Action Counts
  unfolding with_sender
  with_account lower event m (some tenant) (some account) =
      with_sender lower event tenant account m (or_default event.comment_text []) m.from_id
  with_account lower event m _ _ = pure zero_counts

  unfoldable pub process_comment_event :
      (Text → Text) → EventRecord → CommentPayload → Action Counts
  unfolding with_account
  process_comment_event lower event m =
      with_account lower event m event.tenant_id event.ig_account_id
