-- ===== src/Ai/Classify.antt =====
-- handlers/classifyIntent.ts, `classifyEventIntent`: the label of an event, kept in its row, within
-- the tenant's budget.
pub mod Budget
use automatebro.Prelude.{
  ℕ, ◌*◌, String, ◌≡◌, refl, Bool, true, false, ◌&&◌, not, Option, none, some, [], ltb, length,
  ◌==◌, or_default, arith, if◌then◌else◌, ◌≤◌, ◌<◌, inl, inr, ◌⊎◌,
}
use automatebro.Records.{
  Text, EventRecord, EventKind, comment, message, Intent, buying, support, spam, other,
}
use automatebro.Action.{
  Env, Action, Trace, Result, ok, err, continue, set_intent, intent_of, perform, request_ai, pure,
  jobs, inserted, ◌>>=◌, ◌>>◌,
}
use automatebro.Ai.Openai.{Classified, classify_intent, compute_cost_paise, confidence_one}
use automatebro.Ai.Usage.{
  usage_of, increment_ai_usage, is_exceeded, jobs-usage_of, inserted-usage_of,
}
use automatebro.Matching.{intent_eq}

pub data ClassifyStatus : Type 0 where
  classified already_classified cap_exceeded no_key no_text classifier_failed : ClassifyStatus

pub record ClassifyIntentResult : Type 0 where
  pub intent : Option Intent
  pub confidence : Option ℕ
  pub status : ClassifyStatus

abbrev pub unclassified : ClassifyStatus → ClassifyIntentResult
unclassified status = record { intent = none; confidence = none; status = status }

-- The text of a comment or of a direct message, nothing for any other kind of event.
unfoldable pub extract_text : EventRecord → Text
extract_text event = elim event.kind [
  | comment ↦ or_default event.comment_text []
  | message ↦ or_default event.message_text []
  | _ ↦ []
]

-- A label with a confidence below a half counts as `other`.
unfoldable pub floored : Classified → Intent
floored c =
    if ltb (2 * c.confidence) confidence_one && not (intent_eq c.intent other)
    then other
    else c.intent

module _ (env : Env) (lower : Text → Text) (event : EventRecord) where
  -- What follows the call of the classifier.
  unfoldable pub record_label : String → Result Classified → Action ClassifyIntentResult
  unfolding increment_ai_usage floored
  record_label tenant (err e) = pure (unclassified classifier_failed)
  record_label tenant (ok c) = do
    perform env (set_intent event.id (floored c) c.confidence)
    increment_ai_usage env tenant c.input_tokens c.output_tokens
        (compute_cost_paise c.input_tokens c.output_tokens)
    pure (record { intent = some (floored c); confidence = some c.confidence; status = classified })

  within_budget : String → Action ClassifyIntentResult
  unfolding usage_of record_label classify_intent extract_text
  within_budget tenant = do
    usage ← usage_of env tenant
    if is_exceeded usage then pure (unclassified cap_exceeded) else (do
      fetched ← request_ai env (intent_of (extract_text event))
      record_label tenant (classify_intent lower env.parse_json fetched))

  with_key : String → Bool → Action ClassifyIntentResult
  unfolding within_budget
  with_key tenant true = within_budget tenant
  with_key tenant false = pure (unclassified no_key)

  for_tenant : Option String → Action ClassifyIntentResult
  unfolding with_key
  for_tenant none = pure (unclassified no_text)
  for_tenant (some tenant) =
      if length (extract_text event) == 0
      then pure (unclassified no_text)
      else with_key tenant env.has_openai_key

  unless_labelled : Option Intent → Action ClassifyIntentResult
  unfolding for_tenant
  unless_labelled (some intent) = pure (record {
    intent = some intent;
    confidence = event.intent_confidence;
    status = already_classified;
  })
  unless_labelled none = for_tenant event.tenant_id

  unfoldable pub classify_event_intent : Action ClassifyIntentResult
  unfolding unless_labelled
  classify_event_intent = unless_labelled event.intent

  jobs-within_budget : (tenant : String) (t : Trace) → jobs (within_budget tenant t).1 ≡ jobs t
  unfolding within_budget
  jobs-within_budget tenant t = ground arith

  inserted-within_budget :
      (tenant : String) (t : Trace) → inserted (within_budget tenant t).1 ≡ inserted t
  unfolding within_budget
  inserted-within_budget tenant t = ground arith

  jobs-with_key :
      (tenant : String) (key : Bool) (t : Trace) → jobs (with_key tenant key t).1 ≡ jobs t
  unfolding with_key
  jobs-with_key tenant true t = jobs-within_budget tenant t
  jobs-with_key tenant false t = refl

  jobs-for_tenant : (tenant : Option String) (t : Trace) → jobs (for_tenant tenant t).1 ≡ jobs t
  unfolding for_tenant
  jobs-for_tenant none t = refl
  jobs-for_tenant (some tenant) t = ground (arith, jobs-with_key tenant env.has_openai_key t)

  inserted-with_key :
      (tenant : String) (key : Bool) (t : Trace) → inserted (with_key tenant key t).1 ≡ inserted t
  unfolding with_key
  inserted-with_key tenant true t = inserted-within_budget tenant t
  inserted-with_key tenant false t = refl

  inserted-for_tenant :
      (tenant : Option String) (t : Trace) → inserted (for_tenant tenant t).1 ≡ inserted t
  unfolding for_tenant
  inserted-for_tenant none t = refl
  inserted-for_tenant (some tenant) t =
      ground (arith, inserted-with_key tenant env.has_openai_key t)

  jobs-unless_labelled : (i : Option Intent) (t : Trace) → jobs (unless_labelled i t).1 ≡ jobs t
  unfolding unless_labelled
  jobs-unless_labelled none t = jobs-for_tenant event.tenant_id t
  jobs-unless_labelled (some i) t = refl

  inserted-unless_labelled :
      (i : Option Intent) (t : Trace) → inserted (unless_labelled i t).1 ≡ inserted t
  unfolding unless_labelled
  inserted-unless_labelled none t = inserted-for_tenant event.tenant_id t
  inserted-unless_labelled (some i) t = refl

  -- Classifying an event enqueues no job and inserts no row to send.
  pub jobs-classify_event_intent : (t : Trace) → jobs (classify_event_intent t).1 ≡ jobs t
  unfolding classify_event_intent
  jobs-classify_event_intent = jobs-unless_labelled event.intent

  pub inserted-classify_event_intent :
      (t : Trace) → inserted (classify_event_intent t).1 ≡ inserted t
  unfolding classify_event_intent
  inserted-classify_event_intent = inserted-unless_labelled event.intent
