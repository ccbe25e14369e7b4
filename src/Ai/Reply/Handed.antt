-- ===== src/Ai/Reply/Handed.antt =====
-- What the two ways to end a run come to: a hand-over, or a failure.
use automatebro.Prelude.{
  String, ◌≡◌, refl, ◌∙◌, Bool, true, false, ◌⊎◌, inl, inr, some, ◌∷◌, arith, length, ◌==◌,
  Bool-cases,
}
use automatebro.Records.{Text, Send, ResponseRecord, ErrorMessage}
use automatebro.Action.{
  Env, Trace, Result, Result-cases, ok, err, jobs, enqueue, send_dm, set_send, Action, Effect,
  Error, pure, ◌>>◌, inc_ai_usage,
}
use automatebro.Calendar.{month_of}
use automatebro.Text.{trim}
use automatebro.Ai.Openai.{Completion, compute_cost_paise}
use automatebro.Ai.Usage.{increment_ai_usage}
use automatebro.Ai.Reply.{
  GenerateAiReplyInput, AiReplyStatus, sent_to_send_dm, cap_exceeded, failed, GenerateAiReplyResult,
  content_update, ai_failed_update, fallback_of, result_of, hand_over, fall_back, complete_reply,
  mark_send_failed,
}

-- The statuses that say that a reply is on its way.
abbrev pub is_handed : AiReplyStatus → Bool
is_handed failed = false
is_handed cap_exceeded = false
is_handed _ = true

-- An action that makes one write, or throws and has made none.
abbrev pub WritesOne : Action (Unit {0}) → Effect → Trace → Type 0
WritesOne m w t = (m t ≡ (ok tt, w ∷ t)) ⊎ ((x : Error) × (m t ≡ (err x, t)))

module _ (env : Env) (input : GenerateAiReplyInput) (send : Send) where
  -- The run ends with a new text in the row and one job, to send the same text as a direct message.
  pub record Handed (t t' : Trace) : Type 0 where
    pub content : Text
    pub before : Trace
    pub last_writes :
        t'
        ≡ enqueue
            (send_dm send.id send.ig_account_id send.recipient_psid content send.automation_id)
          ∷ set_send input.send_id (content_update content)
          ∷ before
    pub no_job_yet : jobs before ≡ jobs t

  -- A result that agrees with what the run has enqueued.
  abbrev pub Settled : GenerateAiReplyResult → Trace → Trace → Type 0
  Settled r t t' =
      ((is_handed r.status ≡ true) × Handed t t')
      ⊎ ((is_handed r.status ≡ false) × (jobs t' ≡ jobs t))

  abbrev pub dm_of : Text → Effect
  dm_of content =
      enqueue (send_dm send.id send.ig_account_id send.recipient_psid content send.automation_id)

  abbrev pub kept_as : Text → Effect
  kept_as content = set_send input.send_id (content_update content)

  -- The two writes of a hand-over are both taken, or no job is enqueued and an error is thrown.
  abbrev pub OverOrNot : Text → Trace → Type 0
  OverOrNot content t =
      (hand_over env input send content t ≡ (ok tt, dm_of content ∷ kept_as content ∷ t))
      ⊎ ((x : Error) × (t' : Trace) × (hand_over env input send content t ≡ (err x, t'))
          × (jobs t' ≡ jobs t))

  hand_over_cases : (content : Text) (t : Trace) → OverOrNot content t
  unfolding hand_over
  hand_over_cases content t = elim (Result-cases (env.accepts t (kept_as content))) [
    | inr (x, a) ↦ inr (x, t, ground (arith, a), refl)
    | inl (u, a) ↦ elim (Result-cases (env.accepts (kept_as content ∷ t) (dm_of content))) [
      | inr (x, b) ↦ inr (x, kept_as content ∷ t, ground (arith, a, b), refl)
      | inl (v, b) ↦ inl (ground (arith, a, b))
    ]
  ]

  -- A result that agrees with the jobs, or an error with none enqueued.
  unfoldable pub Fine : Result GenerateAiReplyResult → Trace → Trace → Type 0
  Fine (ok r) t0 t = Settled r t0 t
  Fine (err x) t0 t = jobs t ≡ jobs t0

  handed_over :
      (content : Text) (x : GenerateAiReplyResult) (t0 t : Trace)
      → jobs t ≡ jobs t0
      → is_handed x.status ≡ true
      → Fine
          ((hand_over env input send content >> pure x) t).0
          t0
          ((hand_over env input send content >> pure x) t).1
  unfolding Fine
  handed_over content x t0 t j h = elim (hand_over_cases content t) [
    | inr (y, t', o, same) ↦ rw o (same ∙ j)
    | inl o ↦
        rw o (inl (h, record { content = content; before = t; last_writes = refl; no_job_yet = j }))
  ]

  mark_cases :
      (code : String) (m : ErrorMessage) (t : Trace)
      → WritesOne
          (mark_send_failed env input code m)
          (set_send input.send_id (ai_failed_update code m (env.clock t)))
          t
  unfolding mark_send_failed
  mark_cases code m t =
      elim (Result-cases
        (env.accepts t (set_send input.send_id (ai_failed_update code m (env.clock t))))) [
          | inr (y, a) ↦ inr (y, ground (arith, a))
          | inl (u, a) ↦ inl (ground (arith, a))
        ]

  pub marked :
      (code : String) (m : ErrorMessage) (x : GenerateAiReplyResult) (t0 t : Trace)
      → jobs t ≡ jobs t0
      → is_handed x.status ≡ false
      → Fine
          ((mark_send_failed env input code m >> pure x) t).0
          t0
          ((mark_send_failed env input code m >> pure x) t).1
  unfolding Fine
  marked code m x t0 t j h = elim (mark_cases code m t) [
    | inr (y, a) ↦ rw a j
    | inl a ↦ rw a (inr (h, j))
  ]

  pub fall_back-Fine :
      (response : ResponseRecord) (code : String) (m : ErrorMessage) (s : AiReplyStatus)
      (t0 t : Trace)
      → jobs t ≡ jobs t0
      → is_handed s ≡ true
      → Fine
          (fall_back env input send response code m s t).0
          t0
          (fall_back env input send response code m s t).1
  unfolding fall_back
  fall_back-Fine response code m s t0 t j h =
      elim (Bool-cases (length (fallback_of response) == 0)) [
        | inr there ↦ rw there (handed_over (fallback_of response) (result_of s) t0 t j h)
        | inl nothing ↦ rw nothing (marked code m (result_of failed) t0 t j refl)
      ]

  counted : String → Completion → Trace → Effect
  counted tenant c t =
      inc_ai_usage tenant (month_of (env.clock t)) c.input_tokens c.output_tokens
        (compute_cost_paise c.input_tokens c.output_tokens)

  count_cases :
      (tenant : String) (c : Completion) (t : Trace)
      → WritesOne
          (increment_ai_usage env tenant c.input_tokens c.output_tokens
            (compute_cost_paise c.input_tokens c.output_tokens))
          (counted tenant c t)
          t
  unfolding counted increment_ai_usage
  count_cases tenant c t = elim (Result-cases (env.accepts t (counted tenant c t))) [
    | inr (y, a) ↦ inr (y, ground (arith, a))
    | inl (u, a) ↦ inl (ground (arith, a))
  ]

  pub complete_reply-Fine :
      (tenant : String) (c : Completion) (t0 t : Trace)
      → jobs t ≡ jobs t0
      → Fine
          (complete_reply env input send tenant c t).0
          t0
          (complete_reply env input send tenant c t).1
  unfolding complete_reply counted Fine
  complete_reply-Fine tenant c t0 t j = elim (count_cases tenant c t) [
    | inr (x, a) ↦ rw (a, complete_reply) j
    | inl a ↦
        rw (a, complete_reply)
          (handed_over (trim c.content)
            (record {
              status = sent_to_send_dm;
              cost_inr_added = some (compute_cost_paise c.input_tokens c.output_tokens);
            })
            t0 (counted tenant c t ∷ t) j refl)
  ]
