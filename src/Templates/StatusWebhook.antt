-- ===== src/Templates/StatusWebhook.antt =====
-- packages/shared/src/handlers/whatsappTemplates/handleTemplateStatusWebhook.ts: what Meta's review
-- does to the row of a template.
use automatebro.Prelude.{
  ℕ, String, Bool, true, false, ◌||◌, Option, none, some, or_default, str_eq, if◌then◌else◌,
}
use automatebro.Records.{TemplateStatus, approved, rejected, paused, disabled, WhatsappTemplate}
use automatebro.Action.{
  Env, Action, TemplateUpdate, set_template, read, or_null, now, perform, pure, ◌>>=◌, ◌>>◌,
}

-- The payload that the parser has stored.
pub record TemplateStatusPayload : Type 0 where
  pub event : Option String
  pub message_template_id : Option String
  pub reason : Option String

pub record HandleTemplateStatusResult : Type 0 where
  pub matched : Bool
  pub new_status : Option TemplateStatus

abbrev pub unmatched : Option TemplateStatus → HandleTemplateStatusResult
unmatched status = record { matched = false; new_status = status }

unfoldable pub map_status : String → Option TemplateStatus
map_status e =
    if str_eq e "APPROVED" || str_eq e "REINSTATED"
    then some approved
    else if str_eq e "REJECTED"
    then some rejected
    else if str_eq e "PAUSED" || str_eq e "FLAGGED"
    then some paused
    else if str_eq e "DISABLED"
    then some disabled
    else none

-- `if (payload.reason !== undefined) update.rejectionReason = payload.reason`
abbrev pub reason_set : Option String → Option (Option String)
reason_set none = none
reason_set (some r) = some (some r)

abbrev base_update : TemplateStatus → ℕ → TemplateUpdate
base_update status time = record {
  status = status;
  updated_at = time;
  approved_at = none;
  rejected_at = none;
  paused_at = none;
  rejection_reason = none;
}

unfoldable pub update_for : TemplateStatus → Option String → ℕ → TemplateUpdate
update_for approved reason time = record (base_update approved time) {
  approved_at = some time;
  rejection_reason = some none;
}
update_for rejected reason time = record (base_update rejected time) {
  rejected_at = some time;
  rejection_reason = reason_set reason;
}
update_for paused reason time = record (base_update paused time) {
  paused_at = some time;
  rejection_reason = reason_set reason;
}
update_for disabled reason time = record (base_update disabled time) {
  rejection_reason = reason_set reason;
}
update_for status reason time = base_update status time

module _ (env : Env) where
  apply :
      TemplateStatus → Option String → Option WhatsappTemplate → Action HandleTemplateStatusResult
  unfolding update_for
  apply status reason none = pure (unmatched (some status))
  apply status reason (some row) = do
    time ← now env
    perform env (set_template row.id (update_for status reason time))
    pure (record { matched = true; new_status = some status })

  with_status : String → Option String → Option TemplateStatus → Action HandleTemplateStatusResult
  unfolding apply
  with_status id reason none = pure (unmatched none)
  with_status id reason (some status) = do
    row ← read (λ t. or_null (env.find_meta_template t id))
    apply status reason row

  with_id : TemplateStatusPayload → String → Action HandleTemplateStatusResult
  unfolding with_status map_status
  with_id payload id =
      if str_eq id ""
      then pure (unmatched none)
      else with_status id payload.reason (map_status (or_default payload.event ""))

  unfoldable pub handle_whatsapp_template_status_event :
      TemplateStatusPayload → Action HandleTemplateStatusResult
  unfolding with_id
  handle_whatsapp_template_status_event payload =
      with_id payload (or_default payload.message_template_id "")
