-- ===== src/Ai/Reply.antt =====
-- handlers/generateAiReply.ts: the text of an AI reply, and the job that sends it.
pub mod Prompts
pub mod Handed
pub mod Laws
pub mod Flagged
use automatebro.Prelude.{
  ℕ, String, Bool, true, false, Option, none, some, [], length, ◌==◌, or_default, if◌then◌else◌,
}
use automatebro.Records.{
  Text, Send, SendStatus, failed as row_failed, ResponseRecord, ErrorMessage, response_not_found,
  no_tenant_id, no_key_no_fallback, ai_failed_no_fallback, output_flagged, ai_cap_reached, AiUsage,
}
use automatebro.Action.{
  Env, Action, Result, ok, err, SendUpdate, no_update, set_send, enqueue, send_dm, complete,
  moderation, ask, lift, now, pure, perform, request_ai, catching, ◌>>=◌, ◌>>◌,
}
use automatebro.Text.{trim}
use automatebro.Ai.Openai.{Completion, chat_completion, moderate, compute_cost_paise}
use automatebro.Ai.Usage.{usage_of, increment_ai_usage, is_exceeded}
use automatebro.SendWhatsapp.{is_queued}
use Prompts.{system_prompt, user_prompt}

pub record GenerateAiReplyInput : Type 0 where
  pub event_id : String
  pub response_id : String
  pub send_id : String

pub data AiReplyStatus : Type 0 where
  sent_to_send_dm cap_exceeded no_key_fallback moderation_fallback ai_failed_fallback :
      AiReplyStatus
  failed : AiReplyStatus

pub record GenerateAiReplyResult : Type 0 where
  pub status : AiReplyStatus
  pub cost_inr_added : Option ℕ

abbrev pub result_of : AiReplyStatus → GenerateAiReplyResult
result_of s = record { status = s; cost_inr_added = none }

-- `responseRow.fallbackTemplate ?? responseRow.template ?? ''`
abbrev pub fallback_of : ResponseRecord → Text
fallback_of r = or_default r.fallback_template (or_default r.template [])

unfoldable pub content_update : Text → SendUpdate
content_update content = record no_update { content = some content }

unfoldable pub ai_failed_update : String → ErrorMessage → ℕ → SendUpdate
ai_failed_update code m time = record no_update {
  status = some row_failed;
  error_code = some code;
  error_message = some m;
  failed_at = some time;
}

module _ (env : Env) (input : GenerateAiReplyInput) where
  unfoldable pub mark_send_failed : String → ErrorMessage → Action (Unit {0})
  mark_send_failed code m = do
    time ← now env
    perform env (set_send input.send_id (ai_failed_update code m time))

  -- `updateSendContent` and `enqueueSendDm`, with the row's own columns and the new text.
  unfoldable pub hand_over : Send → Text → Action (Unit {0})
  hand_over send content = do
    perform env (set_send input.send_id (content_update content))
    perform env (
        enqueue (send_dm send.id send.ig_account_id send.recipient_psid content send.automation_id))

  -- The fallback template in the place of the AI's text, or the failure for want of one.
  unfoldable pub fall_back :
      Send → ResponseRecord → String → ErrorMessage → AiReplyStatus → Action GenerateAiReplyResult
  unfolding mark_send_failed hand_over
  fall_back send response code m status =
      if length (fallback_of response) == 0
      then (do mark_send_failed code m; pure (result_of failed))
      else (do hand_over send (fallback_of response); pure (result_of status))

  -- The body of the moderation's `try`: `some` for a result that it returns.
  moderation_gate : Send → ResponseRecord → Text → Action (Option GenerateAiReplyResult)
  unfolding fall_back moderate
  moderation_gate send response content = do
    fetched ← request_ai env (moderation content)
    flagged ← lift (moderate fetched)
    if flagged
        then (do
          r ← fall_back send response "moderationFlagged" output_flagged moderation_fallback
          pure (some r))
        else pure none

  -- The cost, the text and the job.
  unfoldable pub complete_reply : Send → String → Completion → Action GenerateAiReplyResult
  unfolding increment_ai_usage hand_over
  complete_reply send tenant c = do
    increment_ai_usage env tenant c.input_tokens c.output_tokens
        (compute_cost_paise c.input_tokens c.output_tokens)
    hand_over send (trim c.content)
    pure (record {
      status = sent_to_send_dm;
      cost_inr_added = some (compute_cost_paise c.input_tokens c.output_tokens);
    })

  after_gate :
      Send → String → Completion → Option GenerateAiReplyResult → Action GenerateAiReplyResult
  unfolding complete_reply
  after_gate send tenant c (some r) = pure r
  after_gate send tenant c none = complete_reply send tenant c

  -- What an error in the gate leads to: the AI's text goes on, whatever threw.
  unfoldable pub check_output :
      Send → ResponseRecord → String → Completion → Action GenerateAiReplyResult
  unfolding moderation_gate after_gate
  check_output send response tenant c = do
    gate ← catching (moderation_gate send response (trim c.content)) (λ _. pure none)
    after_gate send tenant c gate

  on_completion : Send → ResponseRecord → String → Result Completion → Action GenerateAiReplyResult
  unfolding check_output fall_back
  on_completion send response tenant (err e) =
      fall_back send response "ai_failed" ai_failed_no_fallback ai_failed_fallback
  on_completion send response tenant (ok c) = check_output send response tenant c

  within_budget : Send → ResponseRecord → String → AiUsage → Action GenerateAiReplyResult
  unfolding on_completion mark_send_failed chat_completion
  within_budget send response tenant usage =
      if is_exceeded usage
      then (do
        mark_send_failed "aiCapExceeded" (ai_cap_reached usage.cost_inr usage.cap)
        pure (result_of cap_exceeded))
      else (do
        fetched ← request_ai env (
            complete (system_prompt response.ai_tone response.ai_prompt) (user_prompt send.content))
        on_completion send response tenant (chat_completion fetched))

  -- `apiKey` is there and not empty, or not.
  with_key : Send → ResponseRecord → String → Bool → Action GenerateAiReplyResult
  unfolding within_budget fall_back usage_of
  with_key send response tenant true = do
    usage ← usage_of env tenant
    within_budget send response tenant usage
  with_key send response tenant false =
      fall_back send response "no_fallback" no_key_no_fallback no_key_fallback

  for_tenant : Send → ResponseRecord → Option String → Action GenerateAiReplyResult
  unfolding with_key mark_send_failed
  for_tenant send response none = do
    mark_send_failed "no_tenant" no_tenant_id
    pure (result_of failed)
  for_tenant send response (some tenant) = with_key send response tenant env.has_openai_key

  on_response : Send → Option ResponseRecord → Action GenerateAiReplyResult
  unfolding for_tenant mark_send_failed
  on_response send none = do
    mark_send_failed "response_missing" response_not_found
    pure (result_of failed)
  on_response send (some response) = for_tenant send response send.tenant_id

  on_row : Option Send → Action GenerateAiReplyResult
  unfolding on_response
  on_row none = pure (result_of failed)
  on_row (some send) =
      if is_queued send.status
      then (do
        response ← ask (λ t. env.find_response t input.response_id)
        on_response send response)
      else pure (result_of sent_to_send_dm)

  unfoldable pub generate_ai_reply : Action GenerateAiReplyResult
  unfolding on_row
  generate_ai_reply = do found ← ask (λ t. env.query_send t input.send_id); on_row found
