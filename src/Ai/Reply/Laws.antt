-- ===== src/Ai/Reply/Laws.antt =====
-- What a run of the AI reply handler hands over to sending.
use automatebro.Prelude.{
  String, ◌≡◌, refl, ap, Bool, true, false, inl, inr, Option, none, some, ◌∷◌, Bool-cases,
}
use automatebro.Records.{
  Send, queued, ResponseRecord, AiUsage, output_flagged, ai_failed_no_fallback, ai_cap_reached,
  no_tenant_id, no_key_no_fallback, response_not_found,
}
use automatebro.Action.{
  Env, Trace, Result, Result-cases, ok, err, jobs, continue, moderation, ask_ai, catching, Action,
  pure, ◌>>=◌,
}
use automatebro.Text.{trim}
use automatebro.Ai.Openai.{Completion, moderate}
use automatebro.Ai.Usage.{usage_of, jobs-usage_of, is_exceeded}
use automatebro.SendWhatsapp.{is_queued}
use automatebro.Ai.Reply.{
  GenerateAiReplyInput, cap_exceeded, no_key_fallback, moderation_fallback, ai_failed_fallback,
  failed, GenerateAiReplyResult, result_of, fall_back, after_gate, check_output, on_completion,
  within_budget, with_key, for_tenant, on_response, generate_ai_reply,
}
use automatebro.Ai.Reply.Handed.{Settled, Fine, marked, fall_back-Fine, complete_reply-Fine}

module _ (env : Env) (input : GenerateAiReplyInput) (send : Send) where
  -- What comes of the gate, whatever the fallback in it came to.
  gated : String → Completion → Result (Option GenerateAiReplyResult) → Action GenerateAiReplyResult
  gated tenant c x t =
      (catching (λ t'. (x, t')) (λ _. pure none) >>= after_gate env input send tenant c) t

  gated-Fine :
      (tenant : String) (c : Completion) (x : Result GenerateAiReplyResult) (t0 t : Trace)
      → Fine env input send x t0 t
      → let gate = continue x (λ r. pure (some r)) t in
        let k = gated tenant c gate.0 gate.1 in Fine env input send k.0 t0 k.1
  unfolding Fine gated after_gate
  gated-Fine tenant c (ok r) t0 t f = f
  gated-Fine tenant c (err e) t0 t f = complete_reply-Fine env input send tenant c t0 t f

  check_output-Fine :
      (response : ResponseRecord) (tenant : String) (c : Completion) (t0 t : Trace)
      → jobs t ≡ jobs t0
      → Fine env input send
          (check_output env input send response tenant c t).0
          t0
          (check_output env input send response tenant c t).1
  unfolding check_output gated
  check_output-Fine response tenant c t0 t j =
      let asked = ask_ai (moderation (trim c.content)) ∷ t in
      elim (Result-cases (moderate (env.ai_answer t (moderation (trim c.content))))) [
        | inr (x, m) ↦ rw (m, check_output) (complete_reply-Fine env input send tenant c t0 asked j)
        | inl (false, m) ↦
            rw (m, check_output) (complete_reply-Fine env input send tenant c t0 asked j)
        | inl (true, m) ↦
            rw (m, check_output)
              (gated-Fine tenant c
                (fall_back env input send response "moderationFlagged" output_flagged
                  moderation_fallback asked).0
                t0
                (fall_back env input send response "moderationFlagged" output_flagged
                  moderation_fallback asked).1
                (fall_back-Fine env input send response "moderationFlagged" output_flagged
                  moderation_fallback t0 asked j refl))
      ]

  on_completion-Fine :
      (response : ResponseRecord) (tenant : String) (x : Result Completion) (t0 t : Trace)
      → jobs t ≡ jobs t0
      → Fine env input send
          (on_completion env input send response tenant x t).0
          t0
          (on_completion env input send response tenant x t).1
  unfolding on_completion
  on_completion-Fine response tenant (err e) t0 t j =
      fall_back-Fine env input send response "ai_failed" ai_failed_no_fallback ai_failed_fallback t0
        t j refl
  on_completion-Fine response tenant (ok c) t0 t j = check_output-Fine response tenant c t0 t j

  within_budget-Fine :
      (response : ResponseRecord) (tenant : String) (usage : AiUsage) (t0 t : Trace)
      → jobs t ≡ jobs t0
      → Fine env input send
          (within_budget env input send response tenant usage t).0
          t0
          (within_budget env input send response tenant usage t).1
  unfolding within_budget
  within_budget-Fine response tenant usage t0 t j = elim (Bool-cases (is_exceeded usage)) [
    | inl over ↦ rw over (
        marked env input send "aiCapExceeded" (ai_cap_reached usage.cost_inr usage.cap)
          (result_of cap_exceeded) t0 t j refl)
    | inr under ↦ rw under (on_completion-Fine response tenant _ t0 _ j)
  ]

  -- `t` is the history after the usage has been looked up.
  looked_up-Fine :
      (response : ResponseRecord) (tenant : String) (x : Result AiUsage) (t0 t : Trace)
      → jobs t ≡ jobs t0
      → let k = continue x (within_budget env input send response tenant) t in
        Fine env input send k.0 t0 k.1
  unfolding Fine
  looked_up-Fine response tenant (err e) t0 t j = j
  looked_up-Fine response tenant (ok usage) t0 t j = within_budget-Fine response tenant usage t0 t j

  with_key-Fine :
      (response : ResponseRecord) (tenant : String) (key : Bool) (t : Trace)
      → Fine env input send
          (with_key env input send response tenant key t).0
          t
          (with_key env input send response tenant key t).1
  unfolding with_key
  with_key-Fine response tenant true t =
      looked_up-Fine response tenant (usage_of env tenant t).0 t (usage_of env tenant t).1
        (jobs-usage_of env tenant t)
  with_key-Fine response tenant false t =
      fall_back-Fine env input send response "no_fallback" no_key_no_fallback no_key_fallback t t
        refl refl

  for_tenant-Fine :
      (response : ResponseRecord) (tenant : Option String) (t : Trace)
      → Fine env input send
          (for_tenant env input send response tenant t).0
          t
          (for_tenant env input send response tenant t).1
  unfolding for_tenant
  for_tenant-Fine response none t =
      marked env input send "no_tenant" no_tenant_id (result_of failed) t t refl refl
  for_tenant-Fine response (some tenant) t = with_key-Fine response tenant env.has_openai_key t

  on_response-Fine :
      (x : Result (Option ResponseRecord)) (t : Trace)
      → let k = continue x (on_response env input send) t in Fine env input send k.0 t k.1
  unfolding on_response Fine
  on_response-Fine (err e) t = refl
  on_response-Fine (ok none) t =
      marked env input send "response_missing" response_not_found (result_of failed) t t refl refl
  on_response-Fine (ok (some response)) t = for_tenant-Fine response send.tenant_id t

  -- A run of generateAiReply for a row that is queued ends in one of two ways, if it returns: it
  -- reports that a reply is on its way, and its last two writes are the row's new text and one job
  -- that sends just this text to the row's account and recipient as a direct message, the only job
  -- that it enqueues; or it reports a failure or the cap, and has enqueued nothing.
  pub generate_ai_reply-Settled :
      (t : Trace) (r : GenerateAiReplyResult)
      → env.query_send t input.send_id ≡ ok (some send)
      → send.status ≡ queued
      → (generate_ai_reply env input t).0 ≡ ok r
      → Settled env input send r t (generate_ai_reply env input t).1
  unfolding generate_ai_reply Fine
  generate_ai_reply-Settled t r l w e =
      returned (generate_ai_reply env input t).0 (generate_ai_reply env input t).1 e (
        rw (l, waits, generate_ai_reply)
          (on_response-Fine (env.find_response t input.response_id) t))
    where
      waits : is_queued send.status ≡ true
      waits = ap is_queued w

      returned :
          (x : Result GenerateAiReplyResult) (t' : Trace)
          → x ≡ ok r
          → Fine env input send x t t'
          → Settled env input send r t t'
      returned x t' e f = (rw e at f)
