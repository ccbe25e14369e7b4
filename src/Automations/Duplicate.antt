-- ===== src/Automations/Duplicate.antt =====
-- packages/shared/src/handlers/automations/duplicateAutomation.ts: a copy of an automation, its trigger
-- and its response. What `repo` finds for the tenant is the parameter `Source`.
pub mod Laws
use automatebro.Prelude.{
  ℕ, String, ◌≡◌, refl, ap, ◌∙◌, Bool, true, false, Option, none, some, List, [], ◌∷◌, ◌++◌, arith,
  or_default, str_eq, not, ◌&&◌, if◌then◌else◌, inl, inr, ◌⊎◌,
}
use automatebro.Records.{Text, Trigger, ResponseRecord, Nullable, undefined, Intent}
use automatebro.Action.{
  Handler, Result, Result-cases, ok, err, plain, ask, read, pure, throw, ◌>>=◌, ◌>>◌,
}
use automatebro.Matching.{keyword_hit, intent_gate_allows, in_post_scope}
use automatebro.Whatsapp.StopKeywords.{codes}

pub data AutomationStatus : Type 0 where
  active paused archived : AutomationStatus

-- schema.ts, AutomationSchema.
pub record AutomationRow : Type 0 where
  pub id : String
  pub tenant_id : String
  pub ig_account_id : Option String
  pub whatsapp_account_id : Option String
  pub name : Text
  pub trigger : String
  pub status : AutomationStatus
  pub created_at : ℕ
  pub updated_at : ℕ

pub record DuplicateAutomationInput : Type 0 where
  pub source_automation_id : String
  pub ig_account_id : Option String
  pub name : Option Text

pub record DuplicateAutomationResult : Type 0 where
  pub automation : AutomationRow
  pub trigger : Trigger
  pub response : ResponseRecord

-- The transaction: the three rows, or none of them.
abbrev pub Inserted : Type 0
Inserted = DuplicateAutomationResult

abbrev pub History : Type 0
History = List Inserted

pub record Source : Type 0 where
  pub clock : History → ℕ
  pub random : History → ℕ → String
  pub accepts : History → Inserted → Result (Unit {0})
  pub find_automation : History → String → Result (Option AutomationRow)
  pub find_trigger : History → String → Result (Option Trigger)
  pub find_response : History → String → Result (Option ResponseRecord)
  pub find_ig_account : History → String → Result (Option String)

-- `[...xs]` of a list, null of none.
abbrev copy_of {ℓ} : {A : Type ℓ} → Option (List A) → Option (List A)
copy_of none = none
copy_of (some xs) = some xs

abbrev same_account : Option String → Option String → Bool
same_account (some a) (some b) = str_eq a b
same_account none none = true
same_account _ _ = false

module _ (db : Source) (tenant : String) (input : DuplicateAutomationInput) where
  unfoldable pub target_of : AutomationRow → Option String
  target_of source = elim input.ig_account_id [ none ↦ source.ig_account_id | some id ↦ some id ]

  unfoldable pub new_automation : AutomationRow → String → ℕ → AutomationRow
  unfolding target_of
  new_automation source id time = record {
    id = id;
    tenant_id = tenant;
    ig_account_id = target_of source;
    whatsapp_account_id = none;
    name = or_default input.name (source.name ++ codes " (copy)");
    trigger = source.trigger;
    status = paused;
    created_at = time;
    updated_at = time;
  }

  unfoldable pub new_trigger : Trigger → String → String → Trigger
  new_trigger source automation_id id = record {
    id = id;
    automation_id = automation_id;
    keywords = source.keywords;
    match_mode = source.match_mode;
    post_ids = copy_of source.post_ids;
    intents = copy_of source.intents;
  }

  unfoldable pub new_response : ResponseRecord → String → String → ResponseRecord
  new_response source automation_id id = record {
    id = id;
    automation_id = automation_id;
    mode = source.mode;
    template = source.template;
    comment_reply = source.comment_reply;
    ai_tone = source.ai_tone;
    ai_prompt = source.ai_prompt;
    fallback_template = source.fallback_template;
    whatsapp_template_id = undefined;
  }

  unfoldable pub clone_of :
      AutomationRow
      → Trigger
      → ResponseRecord
      → String
      → String
      → String
      → ℕ
      → DuplicateAutomationResult
  unfolding new_automation new_trigger new_response
  clone_of source trigger response automation_id trigger_id response_id time = record {
    automation = new_automation source automation_id time;
    trigger = new_trigger trigger automation_id trigger_id;
    response = new_response response automation_id response_id;
  }

  transact : Inserted → Handler Inserted (Unit {0})
  transact rows t = elim (db.accepts t rows) [ ok _ ↦ (ok tt, rows ∷ t) | err e ↦ (err e, t) ]

  -- The identifiers are drawn one after the other.
  insert_all : AutomationRow → Trigger → ResponseRecord → Handler Inserted DuplicateAutomationResult
  unfolding clone_of transact
  insert_all source trigger response = do
    automation_id ← read (λ t. db.random t 0)
    trigger_id ← read (λ t. db.random t 1)
    response_id ← read (λ t. db.random t 2)
    time ← read db.clock
    transact (clone_of source trigger response automation_id trigger_id response_id time)
    pure (clone_of source trigger response automation_id trigger_id response_id time)

  on_target :
      Handler Inserted DuplicateAutomationResult
      → Option String
      → Handler Inserted DuplicateAutomationResult
  on_target next none = throw (plain "target igAccountId does not belong to this tenant")
  on_target next (some account) = next

  -- Another account must be the tenant's.
  check_target :
      AutomationRow
      → Option String
      → Handler Inserted DuplicateAutomationResult
      → Handler Inserted DuplicateAutomationResult
  unfolding on_target
  check_target source none next = next
  check_target source (some id) next =
      if same_account (some id) source.ig_account_id
      then next
      else (do found ← ask (λ t. db.find_ig_account t id); on_target next found)

  on_parts :
      AutomationRow
      → Option Trigger
      → Option ResponseRecord
      → Handler Inserted DuplicateAutomationResult
  unfolding check_target insert_all
  on_parts source (some trigger) (some response) =
      check_target source input.ig_account_id (insert_all source trigger response)
  on_parts source _ _ = throw (plain "source automation is missing its trigger or response row")

  on_source : Option AutomationRow → Handler Inserted DuplicateAutomationResult
  unfolding on_parts
  on_source none = throw (plain "source automation not found or not owned by this tenant")
  on_source (some source) = do
    trigger ← ask (λ t. db.find_trigger t source.id)
    response ← ask (λ t. db.find_response t source.id)
    on_parts source trigger response

  unfoldable pub duplicate_automation : Handler Inserted DuplicateAutomationResult
  unfolding on_source
  duplicate_automation = do
    source ← ask (λ t. db.find_automation t input.source_automation_id)
    on_source source
