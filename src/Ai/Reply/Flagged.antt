-- ===== src/Ai/Reply/Flagged.antt =====
-- What a moderation that flags the AI's text comes to when the fallback cannot be stored.
use automatebro.Prelude.{String, ◌≡◌, true, false, ◌∷◌, arith, length, ◌==◌}
use automatebro.Records.{Send, ResponseRecord}
use automatebro.Action.{Env, Trace, Error, ok, err, moderation, ask_ai, set_send}
use automatebro.Text.{trim}
use automatebro.Ai.Openai.{Completion, moderate}
use automatebro.Ai.Reply.{
  GenerateAiReplyInput, fallback_of, content_update, fall_back, hand_over, check_output,
  complete_reply,
}

module _ (env : Env) (input : GenerateAiReplyInput) (send : Send) (response : ResponseRecord) where
  -- When the moderation flags the AI's text, there is a fallback text, and the database refuses to
  -- put it into the row, the run goes on with the flagged text just as with one that is not
  -- flagged.
  pub check_output_flagged :
      (tenant : String) (c : Completion) (t : Trace) (x : Error)
      → moderate (env.ai_answer t (moderation (trim c.content))) ≡ ok true
      → (length (fallback_of response) == 0) ≡ false
      → env.accepts
          (ask_ai (moderation (trim c.content)) ∷ t)
          (set_send input.send_id (content_update (fallback_of response)))
        ≡ err x
      → check_output env input send response tenant c t
        ≡ complete_reply env input send tenant c (ask_ai (moderation (trim c.content)) ∷ t)
  unfolding check_output fall_back hand_over
  check_output_flagged tenant c t x flagged there refused =
      rw (flagged, check_output) (rw there (ground (arith, refused)))
