-- ===== src/Automations/Duplicate/Laws.antt =====
-- What a copy of an automation keeps, and what it does not.
use automatebro.Prelude.{
  ℕ, String, ◌≡◌, refl, ap, ◌∙◌, sym, Option, none, some, List, ◌∷◌, ◌++◌, arith, or_default, inl,
  inr, Bool-cases,
}
use mathlib.Core.Path.{subst}
use automatebro.Records.{Text, Trigger, ResponseRecord, undefined, Intent}
use automatebro.Action.{Handler, Result, Result-cases, ok, err, plain, Error}
use automatebro.Matching.{keyword_hit, intent_gate_allows, in_post_scope}
use automatebro.Whatsapp.StopKeywords.{codes}
use automatebro.Automations.Duplicate.{
  AutomationRow, paused, copy_of, DuplicateAutomationInput, DuplicateAutomationResult, Source,
  History, target_of, new_automation, new_trigger, new_response, clone_of, transact, insert_all,
  same_account, check_target, on_target, on_parts, on_source, duplicate_automation,
}

module _ (db : Source) (tenant : String) (input : DuplicateAutomationInput) where
  -- `r` is a copy of the source, its trigger and its response, does not run yet, and is on no
  -- WhatsApp account and names no WhatsApp template.
  pub record IsCopy (source : AutomationRow) (trigger : Trigger) (response : ResponseRecord)
      (r : DuplicateAutomationResult) : Type 0 where
    pub hits :
        (lower : Text → Text) (text : Text)
        → keyword_hit lower r.trigger text ≡ keyword_hit lower trigger text
    pub gates :
        (i : Option Intent)
        → intent_gate_allows r.trigger.intents i ≡ intent_gate_allows trigger.intents i
    pub posts :
        (p : Option String) → in_post_scope r.trigger.post_ids p ≡ in_post_scope trigger.post_ids p
    pub mode : r.response.mode ≡ response.mode
    pub template : r.response.template ≡ response.template
    pub fallback_template : r.response.fallback_template ≡ response.fallback_template
    pub comment_reply : r.response.comment_reply ≡ response.comment_reply
    pub ai_tone : r.response.ai_tone ≡ response.ai_tone
    pub ai_prompt : r.response.ai_prompt ≡ response.ai_prompt
    pub name : r.automation.name ≡ or_default input.name (source.name ++ codes " (copy)")
    pub kind : r.automation.trigger ≡ source.trigger
    pub of_tenant : r.automation.tenant_id ≡ tenant
    pub account :
        r.automation.ig_account_id
        ≡ (elim input.ig_account_id [ none ↦ source.ig_account_id | some id ↦ some id ])
    pub linked_trigger : r.trigger.automation_id ≡ r.automation.id
    pub linked_response : r.response.automation_id ≡ r.automation.id
    pub stopped : r.automation.status ≡ paused
    pub no_whatsapp_account : r.automation.whatsapp_account_id ≡ none
    pub no_whatsapp_template : r.response.whatsapp_template_id ≡ undefined

  -- What the rows of the source are known to satisfy.
  abbrev Rows : Type 1
  Rows = Trigger → ResponseRecord → Type 0

  -- A run that returns has inserted just a copy of such rows.
  abbrev Copied :
      AutomationRow → Rows → Result DuplicateAutomationResult × History → History → Type 0
  Copied source F x t =
      (r : DuplicateAutomationResult)
      → x.0 ≡ ok r
      → (trigger : Trigger) × (response : ResponseRecord) × F trigger response
        × IsCopy source trigger response r
        × (x.1 ≡ r ∷ t)

  thrown :
      (source : AutomationRow) (F : Rows) (e : Error) (t : History) → Copied source F (err e, t) t
  thrown source F e t r q = absurd cc

  copy_of_same {ℓ} : {A : Type ℓ} (o : Option (List A)) → copy_of o ≡ o
  copy_of_same none = refl
  copy_of_same (some xs) = refl

  clone_of-IsCopy :
      (source : AutomationRow) (trigger : Trigger) (response : ResponseRecord) (a b c : String)
      (time : ℕ)
      → IsCopy source trigger response (clone_of db tenant input source trigger response a b c time)
  unfolding clone_of new_automation new_trigger new_response target_of
  clone_of-IsCopy source trigger response a b c time = record {
    hits = λ lower text. unfold keyword_hit in refl;
    gates = λ i. ap (λ o. intent_gate_allows o i) (copy_of_same trigger.intents);
    posts = λ p. ap (λ o. in_post_scope o p) (copy_of_same trigger.post_ids);
    mode = refl;
    template = refl;
    fallback_template = refl;
    comment_reply = refl;
    ai_tone = refl;
    ai_prompt = refl;
    name = refl;
    kind = refl;
    of_tenant = refl;
    account = refl;
    linked_trigger = refl;
    linked_response = refl;
    stopped = refl;
    no_whatsapp_account = refl;
    no_whatsapp_template = refl;
  }

  insert_all_copies :
      (F : Rows) (source : AutomationRow) (trigger : Trigger) (response : ResponseRecord)
      (t : History)
      → F trigger response
      → Copied source F (insert_all db tenant input source trigger response t) t
  insert_all_copies F source trigger response t f = elim (Result-cases (db.accepts t clone)) [
    | inl (u, q) ↦ λ r e.
        let (c, i) = made r (ap (λ x. x.0) (sym (ran q)) ∙ e) q in (trigger, response, f, c, i)
    | inr (x, q) ↦ λ r e. absurd (stopped x q r e)
  ]
    where
      clone : DuplicateAutomationResult
      clone =
          clone_of db tenant input source trigger response (db.random t 0) (db.random t 1)
            (db.random t 2) (db.clock t)

      ran :
          db.accepts t clone ≡ ok tt
          → insert_all db tenant input source trigger response t ≡ (ok clone, clone ∷ t)
      ran q = unfold insert_all in unfold transact in ground (arith, q)

      refused :
          (x : Error)
          → db.accepts t clone ≡ err x
          → insert_all db tenant input source trigger response t ≡ (err x, t)
      refused x q = unfold insert_all in unfold transact in ground (arith, q)

      stopped :
          (x : Error)
          → db.accepts t clone ≡ err x
          → (r : DuplicateAutomationResult)
          → (insert_all db tenant input source trigger response t).0 ≡ ok r
          → ⊥
      stopped x q r e = cc (ap (λ x. x.0) (refused x q), e)

      made :
          (r : DuplicateAutomationResult)
          → ok clone ≡ ok r
          → db.accepts t clone ≡ ok tt
          → IsCopy source trigger response r
            × ((insert_all db tenant input source trigger response t).1 ≡ r ∷ t)
      made r e q = rw (ran q) (
          subst (λ c. IsCopy source trigger response c × (clone ∷ t ≡ c ∷ t)) (same e)
            (clone_of-IsCopy source trigger response _ _ _ _, refl))
        where
          same : ok clone ≡ ok r → clone ≡ r
          same e = cc

  check_target_copies :
      (F : Rows) (source : AutomationRow) (o : Option String) (t : History)
      (next : Handler DuplicateAutomationResult DuplicateAutomationResult)
      → Copied source F (next t) t
      → Copied source F (check_target db tenant input source o next t) t
  unfolding check_target on_target
  check_target_copies F source none t next c = c
  check_target_copies F source (some id) t next c =
      elim (Bool-cases (same_account (some id) source.ig_account_id)) [
        | inl e ↦ rw e c
        | inr e ↦ rw e (elim (Result-cases (db.find_ig_account t id)) [
          | inr (x, q) ↦ rw q (thrown source F x t)
          | inl (found, q) ↦ rw q (on found)
        ])
      ]
    where
      on : (found : Option String) → Copied source F (on_target db tenant input next found t) t
      on none = thrown source F _ t
      on (some account) = c

  on_parts_copies :
      (F : Rows) (source : AutomationRow) (trigger : Option Trigger)
      (response : Option ResponseRecord) (t : History)
      → ((tr : Trigger) (re : ResponseRecord) → trigger ≡ some tr → response ≡ some re → F tr re)
      → Copied source F (on_parts db tenant input source trigger response t) t
  unfolding on_parts
  on_parts_copies F source none response t f = thrown source F _ t
  on_parts_copies F source (some trigger) none t f = thrown source F _ t
  on_parts_copies F source (some trigger) (some response) t f =
      check_target_copies F source input.ig_account_id t _
        (insert_all_copies F source trigger response t (f trigger response refl refl))

  -- The rows of the source, as the database has them.
  abbrev pub RowsOf : AutomationRow → History → Trigger → ResponseRecord → Type 0
  RowsOf source t trigger response =
      (db.find_trigger t source.id ≡ ok (some trigger))
      × (db.find_response t source.id ≡ ok (some response))

  on_source_copies :
      (source : AutomationRow) (t : History)
      → Copied source (RowsOf source t) (on_source db tenant input (some source) t) t
  unfolding on_source
  on_source_copies source t = elim (Result-cases (db.find_trigger t source.id)) [
    | inr (x, q) ↦ rw (q, on_source) (thrown source _ x t)
    | inl (trigger, q) ↦ elim (Result-cases (db.find_response t source.id)) [
      | inr (x, q') ↦ rw (q, q', on_source) (thrown source _ x t)
      | inl (response, q') ↦
          subst (λ x. Copied source (RowsOf source t) x t) (sym (read trigger response q q'))
            (on_parts_copies (RowsOf source t) source trigger response t
              (λ tr re e e'. (q ∙ ap (λ o. ok o) e, q' ∙ ap (λ o. ok o) e')))
    ]
  ]
    where
      read :
          (trigger : Option Trigger) (response : Option ResponseRecord)
          → db.find_trigger t source.id ≡ ok trigger
          → db.find_response t source.id ≡ ok response
          → on_source db tenant input (some source) t
            ≡ on_parts db tenant input source trigger response t
      read trigger response q q' = rw (q, q', on_source)

  -- A run of duplicateAutomation that returns has inserted just the rows that it returns. The
  -- automation is the tenant's, of the source's kind, on the account that is asked for or the
  -- source's, and paused; its trigger and its response are linked to it, the trigger answers the
  -- same texts, intents and posts as the source's, and the response has the source's mode, texts
  -- and settings; but it is on no WhatsApp account and names no WhatsApp template, whatever the
  -- source does.
  pub duplicate_automation-IsCopy :
      (r : DuplicateAutomationResult) (t : History)
      → (duplicate_automation db tenant input t).0 ≡ ok r
      → (source : AutomationRow) × (trigger : Trigger) × (response : ResponseRecord)
        × (db.find_automation t input.source_automation_id ≡ ok (some source))
        × RowsOf source t trigger response
        × IsCopy source trigger response r
        × ((duplicate_automation db tenant input t).1 ≡ r ∷ t)
  duplicate_automation-IsCopy r t e =
      elim (Result-cases (db.find_automation t input.source_automation_id)) [
        | inr (x, q) ↦ absurd (no_result x (ap (λ y. y.0) (sym (failed x q)) ∙ e))
        | inl (source, q) ↦ of_source source q
      ]
    where
      failed :
          (x : Error)
          → db.find_automation t input.source_automation_id ≡ err x
          → duplicate_automation db tenant input t ≡ (err x, t)
      failed x q = unfold duplicate_automation in rw (q, duplicate_automation)

      ran_on :
          (source : Option AutomationRow)
          → db.find_automation t input.source_automation_id ≡ ok source
          → duplicate_automation db tenant input t ≡ on_source db tenant input source t
      ran_on source q = unfold duplicate_automation in rw (q, duplicate_automation)

      no_result : (x : Error) → err x ≡ ok r → ⊥
      no_result x q = cc

      of_source :
          (source : Option AutomationRow)
          → db.find_automation t input.source_automation_id ≡ ok source
          → (source : AutomationRow) × (trigger : Trigger) × (response : ResponseRecord)
            × (db.find_automation t input.source_automation_id ≡ ok (some source))
            × RowsOf source t trigger response
            × IsCopy source trigger response r
            × ((duplicate_automation db tenant input t).1 ≡ r ∷ t)
      of_source none q = absurd (
          no_result (plain "source automation not found or not owned by this tenant")
            (unfold on_source in ap (λ y. y.0) (sym (ran_on none q)) ∙ e))
      of_source (some source) q =
          let (trigger, response, f, c, i) =
            on_source_copies source t r (ap (λ y. y.0) (sym (ran_on (some source) q)) ∙ e) in
          (source, trigger, response, q, f, c, ap (λ y. y.1) (ran_on (some source) q) ∙ i)
