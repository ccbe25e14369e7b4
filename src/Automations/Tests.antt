-- ===== src/Automations/Tests.antt =====
-- Previews and copies of automations on concrete inputs.
use automatebro.Prelude.{◌≡◌, refl, not, ◌&&◌, none, some, [], ◌∷◌, length, ◌==◌}
use automatebro.Records.{Trigger, value}
use automatebro.Action.{ok}
use automatebro.Fixtures.{dm_trigger, dm_response, hi, same_case, now_ms}
use automatebro.Matching.{keyword_hit}
use automatebro.Automations.Preview.{preview_automation, preview_automation-keyword_hit}
use automatebro.Automations.Duplicate.{
  AutomationRow, active, DuplicateAutomationInput, DuplicateAutomationResult, Source, clone_of,
  duplicate_automation,
}
use automatebro.Automations.Duplicate.Laws.{IsCopy, RowsOf, duplicate_automation-IsCopy}

-- A trigger that has no keyword.
abbrev any_text : Trigger
any_text = record dm_trigger { keywords = [] }

preview_automation-keyword_hit_example :
    (preview_automation same_case hi none (some any_text) (some dm_response)).matched
    ≡ (not (length any_text.keywords == 0) && keyword_hit same_case any_text hi)
preview_automation-keyword_hit_example =
    preview_automation-keyword_hit same_case hi any_text dm_response none

-- An automation on WhatsApp.
abbrev source_row : AutomationRow
source_row = record {
  id = "au1";
  tenant_id = "t1";
  ig_account_id = none;
  whatsapp_account_id = some "a1";
  name = hi;
  trigger = "whatsappMessage";
  status = active;
  created_at = 1;
  updated_at = 1;
}

abbrev source : Source
source = record {
  clock = λ t. now_ms;
  random = λ t k. "fresh";
  accepts = λ t rows. ok tt;
  find_automation = λ t id. ok (some source_row);
  find_trigger = λ t id. ok (some dm_trigger);
  find_response = λ t id. ok (some (record dm_response { whatsapp_template_id = value "tpl1" }));
  find_ig_account = λ t id. ok none;
}

abbrev input : DuplicateAutomationInput
input = record { source_automation_id = "au1"; ig_account_id = none; name = none }

abbrev copy : DuplicateAutomationResult
copy = clone_of source "t1" input source_row dm_trigger dm_response "fresh" "fresh" "fresh" now_ms

duplicate_automation-IsCopy_example :
    (row : AutomationRow) × (trigger : Trigger) × (response : _) × (source.find_automation [] "au1"
      ≡ ok (some row))
    × RowsOf source "t1" input row [] trigger response
    × IsCopy source "t1" input row trigger response copy
    × ((duplicate_automation source "t1" input []).1 ≡ copy ∷ [])
unfolding duplicate_automation
duplicate_automation-IsCopy_example = duplicate_automation-IsCopy source "t1" input copy [] refl
