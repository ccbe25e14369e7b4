-- ===== src/Ai/Tests.antt =====
-- Runs of the classifier and of the reply handler on concrete inputs, and the theorems applied at such.
use automatebro.Prelude.{◌≡◌, refl, ◌⊎◌, true, some, [], ◌∷◌}
use automatebro.Records.{dm, message}
use automatebro.Action.{
  Env, ok, err, plain, ai_asked, ask_ai, moderation, ai_response, set_send, Effect, Result,
}
use automatebro.Fixtures.{env_with, row_of, now_ms, ai_body, dm_response, hi, event_of, same_case}
use automatebro.Text.{trim}
use automatebro.Ai.Openai.{Completion, moderate, compute_cost_paise}
use automatebro.Ai.Usage.{default_cap}
use automatebro.Ai.Classify.{classify_event_intent}
use automatebro.Ai.Classify.Budget.{Spent, ai_asked-classify_event_intent}
use automatebro.Ai.Reply.{
  GenerateAiReplyInput, GenerateAiReplyResult, sent_to_send_dm, check_output, complete_reply,
  generate_ai_reply,
}
use automatebro.Ai.Reply.Handed.{Settled}
use automatebro.Ai.Reply.Laws.{generate_ai_reply-Settled}
use automatebro.Ai.Reply.Flagged.{check_output_flagged}

abbrev env : Env
env = env_with (row_of dm) now_ms

abbrev input : GenerateAiReplyInput
input = record { event_id = "e1"; response_id = "r1"; send_id = "s1" }

ai_asked-classify_event_intent_example :
    (ai_asked (classify_event_intent env same_case (event_of message) []).1 ≡ [])
    ⊎ Spent env same_case
        (event_of message)
        []
        (classify_event_intent env same_case (event_of message) []).1
ai_asked-classify_event_intent_example =
    ai_asked-classify_event_intent env same_case (event_of message) []

abbrev replied : GenerateAiReplyResult
replied = record { status = sent_to_send_dm; cost_inr_added = some 1 }

generate_ai_reply-Settled_example :
    Settled env input (row_of dm) replied [] (generate_ai_reply env input []).1
unfolding generate_ai_reply default_cap compute_cost_paise
generate_ai_reply-Settled_example =
    generate_ai_reply-Settled env input (row_of dm) [] replied refl refl refl

abbrev completion : Completion
completion = record { content = hi; input_tokens = 10; output_tokens = 20 }

-- A moderation that flags everything, and a database that refuses to change a row.
abbrev refuses_rows : Effect → Result (Unit {0})
refuses_rows (set_send id u) = err (plain "refused")
refuses_rows _ = ok tt

abbrev env_flagging : Env
env_flagging = record env {
  ai_answer = λ t p. ai_response 200 (record ai_body { flagged = some true });
  accepts = λ t e. refuses_rows e;
}

check_output_flagged_example :
    check_output env_flagging input (row_of dm) dm_response "t1" completion []
    ≡ complete_reply env_flagging input (row_of dm) "t1" completion (ask_ai (moderation hi) ∷ [])
unfolding moderate trim
check_output_flagged_example =
    check_output_flagged env_flagging input (row_of dm) dm_response "t1" completion []
      (plain "refused") refl refl refl
