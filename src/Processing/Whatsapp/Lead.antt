-- ===== src/Processing/Whatsapp/Lead.antt =====
-- handlers/processWhatsappMessageEvent.ts: `upsertLeadOnInbound` and `recordOptOut`, for an event that
-- has a tenant and an account (the handler has returned before it for any other).
use automatebro.Prelude.{ℕ, String, Option, none, some, [], length, ◌==◌, or_default, if◌then◌else◌}
use automatebro.Records.{
  Text, Lead, OptInLog, OptAction, opt_in, opt_out, OptSource, whatsapp_inbound, stop_keyword,
}
use automatebro.Action.{
  Env, Action, insert_lead, lead_seen, lead_opted_out, insert_opt_log, read, now, pure, perform,
  perform_or_lose, catching, or_null, ◌>>=◌, ◌>>◌,
}

pub record Message : Type 0 where
  pub event_id : String
  pub meta_event_id : String
  pub tenant_id : String
  pub whatsapp_account_id : String
  pub phone : String
  pub text : Text

unfoldable pub log_entry : Message → OptAction → OptSource → String → ℕ → OptInLog
log_entry m action source id time = record {
  id = id;
  tenant_id = m.tenant_id;
  whatsapp_account_id = m.whatsapp_account_id;
  phone = m.phone;
  action = action;
  source = source;
  evidence = m.meta_event_id;
  recorded_at = time;
}

-- A lead that is known by its WhatsApp number alone.
unfoldable pub new_lead : Message → Option Text → String → ℕ → Lead
new_lead m contact id time = record {
  id = id;
  tenant_id = m.tenant_id;
  ig_account_id = none;
  ig_user_id = none;
  ig_username = contact;
  email = none;
  phone = some m.phone;
  whatsapp_phone = some m.phone;
  whatsapp_account_id = some m.whatsapp_account_id;
  whatsapp_opt_in_at = some time;
  whatsapp_opt_out_at = none;
  last_whatsapp_inbound_at = some time;
  last_template_conversation_at = none;
  first_seen_at = time;
  last_seen_at = time;
  tags = [];
  attributed_automation_id = none;
}

-- `igUsername` of the `$set`: absent, or what the row has, or the contact's name.
abbrev pub username_update : Lead → Option Text → Option Text
username_update l none = none
username_update l (some contact) =
    if length contact == 0 then none else some (or_default l.ig_username contact)

module _ (env : Env) where
  insert_new : Message → Option Text → ℕ → Action (Option Lead)
  unfolding new_lead log_entry
  insert_new m contact time = do
    id ← read env.random
    perform_or_lose env (insert_lead (new_lead m contact id time))
    log_id ← read env.random
    perform env (insert_opt_log (log_entry m opt_in whatsapp_inbound log_id time))
    pure (some (new_lead m contact id time))

  unfoldable pub upsert_lead_on_inbound : Message → Option Text → Action (Option Lead)
  unfolding insert_new
  upsert_lead_on_inbound m contact = do
    time ← now env
    existing ← read (λ t. or_null (env.query_lead t m.tenant_id m.phone))
    elim existing [
      | some l ↦ (do
        perform env (lead_seen l.id time (username_update l contact))
        pure (some (record l { last_whatsapp_inbound_at = some time; last_seen_at = time })))
      | none ↦
          catching (insert_new m contact time)
            (λ _. read (λ t. or_null (env.query_lead t m.tenant_id m.phone)))
    ]

  unfoldable pub record_opt_out : Message → Lead → Action (Unit {0})
  unfolding log_entry
  record_opt_out m l = do
    time ← now env
    perform env (lead_opted_out l.id time)
    log_id ← read env.random
    perform env (insert_opt_log (log_entry m opt_out stop_keyword log_id time))
