-- ===== src/Ai/Classify/Budget.antt =====
-- When the classifier of events spends a request to OpenAI.
use automatebro.Prelude.{
  ◌<◌, String, ◌≡◌, refl, sym, ap, ◌∙◌, or_default, Bool, true, false, ◌⊎◌, inl, inr, Option, none,
  some, ◌∷◌, arith, length, ◌==◌, Bool-cases,
}
use automatebro.Records.{Text, EventRecord, Intent, AiUsage}
use automatebro.Action.{
  Env, Trace, Result, Result-cases, Error, Effect, Month, refused, insert_ai_usage, ok, err,
  ai_asked, intent_of,
}
use automatebro.Calendar.{month_of}
use automatebro.Ai.Openai.{Classified}
use automatebro.Ai.Usage.{
  usage_of, load_or_create_ai_usage, load_tenant_plan, fresh_usage, default_cap, is_exceeded,
}
use automatebro.Ai.Classify.{
  extract_text, record_label, within_budget, with_key, for_tenant, unless_labelled,
  classify_event_intent,
}

module _ (env : Env) (lower : Text → Text) (event : EventRecord) where
  ai_asked-usage_of :
      (tenant : String) (t : Trace) → ai_asked (usage_of env tenant t).1 ≡ ai_asked t
  unfolding usage_of
  ai_asked-usage_of tenant t = ground arith

  ai_asked-record_label :
      (tenant : String) (x : Result Classified) (t : Trace)
      → ai_asked (record_label env lower event tenant x t).1 ≡ ai_asked t
  unfolding record_label
  ai_asked-record_label tenant (err e) t = refl
  ai_asked-record_label tenant (ok c) t = ground arith

  -- The usage that the budget is held against: the row of the month; or a new one, where there is no
  -- row; or the row of another job that has come first.
  pub data Looked (tenant : String) (t : Trace) (usage : AiUsage) : Type 0 where
    there :
        env.query_ai_usage t tenant (month_of (env.clock t)) ≡ ok (some usage)
        → Looked tenant t usage
    fresh :
        env.query_ai_usage t tenant (month_of (env.clock t)) ≡ ok none
        → usage.cost_inr ≡ 0
        → Looked tenant t usage
    other :
        (lost : Effect)
        → env.query_ai_usage t tenant (month_of (env.clock t)) ≡ ok none
        → env.query_ai_usage (refused lost ∷ t) tenant (month_of (env.clock t)) ≡ ok (some usage)
        → Looked tenant t usage

  same_usage : {a b : AiUsage} → ok a ≡ ok b → a ≡ b
  same_usage q = cc

  no_usage : {e : Error} {b : AiUsage} → err e ≡ ok b → ⊥
  no_usage q = cc

  abbrev month_at : Trace → Month
  month_at t = month_of (env.clock t)

  abbrev fresh_row : String → String → Trace → Effect
  fresh_row tenant plan t = insert_ai_usage (env.random t) tenant (month_at t) (default_cap plan)

  reread-Looked :
      (tenant plan : String) (t : Trace) (usage : AiUsage) (reread : Option AiUsage)
      → env.query_ai_usage t tenant (month_at t) ≡ ok none
      → env.query_ai_usage (refused (fresh_row tenant plan t) ∷ t) tenant (month_at t) ≡ ok reread
      → ok (or_default reread (fresh_usage plan)) ≡ ok usage
      → Looked tenant t usage
  reread-Looked tenant plan t usage none q r e = fresh q (ap (λ u. u.cost_inr) (sym (same_usage e)))
  reread-Looked tenant plan t usage (some row) q r e =
      other (fresh_row tenant plan t) q (r ∙ ap (λ u. ok (some u)) (same_usage e))

  load-Looked :
      (tenant plan : String) (t : Trace) (usage : AiUsage) (found : Option AiUsage)
      → env.query_ai_usage t tenant (month_at t) ≡ ok found
      → (load_or_create_ai_usage env tenant plan t).0 ≡ ok usage
      → Looked tenant t usage
  unfolding load_or_create_ai_usage
  load-Looked tenant plan t usage (some row) q u =
      there (q ∙ ap (λ v. ok (some v)) (same_usage (rw q at u)))
  load-Looked tenant plan t usage none q u =
      elim (Result-cases (env.accepts t (fresh_row tenant plan t))) [
        | inl (done, a) ↦ fresh q (ap (λ u. u.cost_inr) (sym (same_usage (sym (created a) ∙ u))))
        | inr (x, a) ↦
            elim (Result-cases
              (env.query_ai_usage (refused (fresh_row tenant plan t) ∷ t) tenant (month_at t))) [
                | inl (reread, r) ↦
                    reread-Looked tenant plan t usage reread q r (sym (raced x reread a r) ∙ u)
                | inr (e, r) ↦ absurd (no_usage (sym (failed x e a r) ∙ u))
              ]
      ]
    where
      created :
          env.accepts t (fresh_row tenant plan t) ≡ ok tt
          → (load_or_create_ai_usage env tenant plan t).0 ≡ ok (fresh_usage plan)
      created a = ground (arith, q, a)

      raced :
          (x : Error) (reread : Option AiUsage)
          → env.accepts t (fresh_row tenant plan t) ≡ err x
          → env.query_ai_usage (refused (fresh_row tenant plan t) ∷ t) tenant (month_at t)
            ≡ ok reread
          → (load_or_create_ai_usage env tenant plan t).0
            ≡ ok (or_default reread (fresh_usage plan))
      raced x reread a r = ground (arith, q, a, r)

      failed :
          (x e : Error)
          → env.accepts t (fresh_row tenant plan t) ≡ err x
          → env.query_ai_usage (refused (fresh_row tenant plan t) ∷ t) tenant (month_at t) ≡ err e
          → (load_or_create_ai_usage env tenant plan t).0 ≡ err e
      failed x e a r = ground (arith, q, a, r)

  usage-Looked :
      (tenant : String) (t : Trace) (usage : AiUsage)
      → (usage_of env tenant t).0 ≡ ok usage
      → Looked tenant t usage
  unfolding usage_of load_tenant_plan
  usage-Looked tenant t usage u = elim (Result-cases (env.query_plan t tenant)) [
    | inr (x, p) ↦ absurd (no_usage (rw p at u))
    | inl (plan, p) ↦ with_plan (or_default plan "free") (rw p at u)
  ]
    where
      with_plan :
          (plan : String)
          → (load_or_create_ai_usage env tenant plan t).0 ≡ ok usage
          → Looked tenant t usage
      with_plan plan v = elim (Result-cases (env.query_ai_usage t tenant (month_at t))) [
        | inl (found, q) ↦ load-Looked tenant plan t usage found q v
        | inr (x, q) ↦ absurd (no_usage (unfold load_or_create_ai_usage in rw q at v))
      ]

  -- Why a request was made.
  pub record Spent (t t' : Trace) : Type 0 where
    pub tenant : String
    pub usage : AiUsage
    pub of_tenant : event.tenant_id ≡ some tenant
    pub looked_up : Looked tenant t usage
    pub under_cap : usage.cost_inr < usage.cap
    pub one_request : ai_asked t' ≡ intent_of (extract_text event) ∷ ai_asked t

  looked_up_cases :
      (tenant : String) (x : Result AiUsage) (t : Trace)
      → event.tenant_id ≡ some tenant
      → (usage_of env tenant t).0 ≡ x
      → (ai_asked (within_budget env lower event tenant t).1 ≡ ai_asked t)
        ⊎ Spent t (within_budget env lower event tenant t).1
  unfolding within_budget
  looked_up_cases tenant (err e) t of u = inl (rw (u, within_budget) (ai_asked-usage_of tenant t))
  looked_up_cases tenant (ok usage) t of u = elim (Bool-cases (is_exceeded usage)) [
    | inl over ↦ inl (rw (u, over, within_budget) (ai_asked-usage_of tenant t))
    | inr under ↦ inr (record {
      tenant = tenant;
      usage = usage;
      of_tenant = of;
      looked_up = usage-Looked tenant t usage u;
      under_cap = ground arith;
      one_request =
          rw (u, under, within_budget) (rw ai_asked-record_label (rw (ai_asked-usage_of tenant t)));
    })
  ]

  key_cases :
      (tenant : String) (key : Bool) (t : Trace)
      → event.tenant_id ≡ some tenant
      → (ai_asked (with_key env lower event tenant key t).1 ≡ ai_asked t)
        ⊎ Spent t (with_key env lower event tenant key t).1
  unfolding with_key
  key_cases tenant true t of = looked_up_cases tenant (usage_of env tenant t).0 t of refl
  key_cases tenant false t of = inl refl

  tenant_cases :
      (tenant : Option String) (t : Trace)
      → event.tenant_id ≡ tenant
      → (ai_asked (for_tenant env lower event tenant t).1 ≡ ai_asked t)
        ⊎ Spent t (for_tenant env lower event tenant t).1
  unfolding for_tenant
  tenant_cases none t of = inl refl
  tenant_cases (some tenant) t of = elim (Bool-cases (length (extract_text event) == 0)) [
    | inl empty ↦ inl (rw empty refl)
    | inr words ↦ rw words (key_cases tenant env.has_openai_key t of)
  ]

  label_cases :
      (i : Option Intent) (t : Trace)
      → (ai_asked (unless_labelled env lower event i t).1 ≡ ai_asked t)
        ⊎ Spent t (unless_labelled env lower event i t).1
  unfolding unless_labelled
  label_cases (some i) t = inl refl
  label_cases none t = tenant_cases event.tenant_id t refl

  -- Classifying an event makes no request to OpenAI, or just one, for the event's text, and then
  -- only for a tenant whose cost of the month is below its cap: by the tenant's row for the month,
  -- by the row that another job has inserted first, or, where there is no row, by a new one without
  -- cost.
  pub ai_asked-classify_event_intent :
      (t : Trace)
      → (ai_asked (classify_event_intent env lower event t).1 ≡ ai_asked t)
        ⊎ Spent t (classify_event_intent env lower event t).1
  unfolding classify_event_intent
  ai_asked-classify_event_intent = label_cases event.intent
