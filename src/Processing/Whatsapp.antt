-- ===== src/Processing/Whatsapp.antt =====
-- handlers/processWhatsappMessageEvent.ts: the lead of an inbound WhatsApp message, the opt-out, and
-- the automations. The handler's `contactName` is `null` always.
pub mod Lead
pub mod Kept
pub mod Laws
pub mod OptOut
use automatebro.Prelude.{
  ℕ, ◌+◌, String, Bool, true, false, ◌||◌, ◌&&◌, not, Option, none, some, List, [], ltb, length,
  ◌==◌, or_default, str_eq, if◌then◌else◌,
}
use automatebro.Records.{
  Text, Nullable, undefined, null, value, EventRecord, Send, SendKind, whatsapp_freeform,
  whatsapp_template, whatsapp, queued, Trigger, ResponseRecord,
}
use automatebro.Records
use automatebro.Action.{
  Env, Action, JobData, send_whatsapp, generate_ai_reply, enqueue, insert_send, ask, read, now,
  pure, perform, ◌>>=◌, ◌>>◌,
}
use automatebro.Matching.{keyword_hit, render_template}
use automatebro.Whatsapp.StopKeywords.{is_stop_keyword}
use automatebro.Processing.Loop.{Counts, zero_counts, Iteration, for_each}
use automatebro.Processing.Dm.{is_ai, one_matched, one_enqueued}
use Lead.{Message, upsert_lead_on_inbound, record_opt_out}

-- `event.payload`, what the handler reads of it.
pub record WaPayload : Type 0 where
  pub sender : Option String
  pub type : Option String
  pub body : Option Text

pub record WhatsappResult : Type 0 where
  pub counts : Counts
  pub opted_out : Bool

abbrev pub nothing_done : WhatsappResult
nothing_done = record { counts = zero_counts; opted_out = false }

-- `=== null`
abbrev pub is_null {ℓ} : {A : Type ℓ} → Nullable A → Bool
is_null null = true
is_null _ = false

-- `?? null`
abbrev pub to_option {ℓ} : {A : Type ℓ} → Nullable A → Option A
to_option undefined = none
to_option null = none
to_option (value a) = some a

abbrev pub kind_for : Option String → SendKind
kind_for none = whatsapp_freeform
kind_for (some id) = whatsapp_template

unfoldable pub content_for : Message → Text → ResponseRecord → Text
content_for m username response =
    if is_ai response
    then m.text
    else render_template (or_default response.template []) username username

unfoldable pub new_send : Message → ResponseRecord → Text → String → String → ℕ → Send
new_send m response content automation_id id time = record {
  id = id;
  tenant_id = some m.tenant_id;
  channel = whatsapp;
  ig_account_id = none;
  whatsapp_account_id = some m.whatsapp_account_id;
  automation_id = some automation_id;
  event_id = some m.event_id;
  recipient_psid = none;
  recipient_phone = some m.phone;
  kind = kind_for (to_option response.whatsapp_template_id);
  whatsapp_template_id = to_option response.whatsapp_template_id;
  whatsapp_template_params = none;
  content = content;
  ai_generated = is_ai response;
  status = queued;
  meta_message_id = none;
  error_code = none;
  error_message = none;
  attempt = 1;
  queued_at = time;
  sent_at = none;
  failed_at = none;
}

unfoldable pub whatsapp_job : Message → ResponseRecord → Text → String → String → JobData
whatsapp_job m response content automation_id id =
    if is_ai response
    then generate_ai_reply m.event_id response.id id
    else send_whatsapp id m.whatsapp_account_id m.phone content automation_id

module _ (env : Env) where
  unfoldable pub create_send : Message → ResponseRecord → Text → String → Counts → Action Counts
  unfolding new_send whatsapp_job
  create_send m response content automation_id r = do
    id ← read env.random
    time ← now env
    perform env (insert_send (new_send m response content automation_id id time))
    perform env (enqueue (whatsapp_job m response content automation_id id))
    pure (one_enqueued r)

  unfoldable pub respond : Message → Text → String → Option ResponseRecord → Counts → Action Counts
  unfolding create_send
  respond m username automation_id none r = pure r
  respond m username automation_id (some response) r =
      let content = content_for m username response in
      if length content == 0 && (not (is_ai response) && is_null response.whatsapp_template_id)
      then pure r
      else create_send m response content automation_id r

  unfoldable pub process_automation : (Text → Text) → Message → Text → Iteration
  unfolding respond
  process_automation lower m username automation r = do
    trigger ← ask (λ t. env.query_trigger t automation.id)
    elim trigger [
      | none ↦ pure r
      | some tr ↦
          if keyword_hit lower tr m.text
          then (do
            response ← ask (λ t. env.query_response t automation.id)
            respond m username automation.id response (one_matched r))
          else pure r
    ]

  -- From the fourth step on: the retry check and the automations.
  unfoldable pub match_automations : (Text → Text) → Message → Text → Action WhatsappResult
  unfolding process_automation for_each
  match_automations lower m username = do
    existing ← ask (λ t. env.count_sends t m.event_id)
    if ltb 0 existing then pure nothing_done else (do
      automations ←
          ask (λ t. env.query_automations t m.tenant_id m.whatsapp_account_id "whatsappMessage")
      r ← for_each (process_automation lower m username) automations zero_counts
      pure (record { counts = r; opted_out = false }))

  -- From the second step on.
  unfoldable pub on_lead :
      (Text → Text) → Message → String → Option Records.Lead → Action WhatsappResult
  unfolding match_automations record_opt_out
  on_lead lower m type none = pure nothing_done
  on_lead lower m type (some lead) =
      if str_eq type "text" && is_stop_keyword lower (some m.text)
      then (do record_opt_out env m lead; pure (record { counts = zero_counts; opted_out = true }))
      else if not (str_eq type "text") || length m.text == 0
      then pure nothing_done
      else match_automations lower m (or_default lead.ig_username [])

  with_message : (Text → Text) → Message → String → Action WhatsappResult
  unfolding on_lead
  with_message lower m type =
      if str_eq m.phone ""
      then pure nothing_done
      else (do lead ← upsert_lead_on_inbound env m none; on_lead lower m type lead)

  with_account :
      (Text → Text)
      → EventRecord
      → WaPayload
      → Option String
      → Option String
      → Action WhatsappResult
  unfolding with_message
  with_account lower event p (some tenant) (some account) =
      with_message lower
        (record {
          event_id = event.id;
          meta_event_id = event.meta_event_id;
          tenant_id = tenant;
          whatsapp_account_id = account;
          phone = or_default p.sender "";
          text = or_default p.body [];
        })
        (or_default p.type "")
  with_account lower event p _ _ = pure nothing_done

  unfoldable pub process_whatsapp_message_event :
      (Text → Text) → EventRecord → WaPayload → Action WhatsappResult
  unfolding with_account
  process_whatsapp_message_event lower event p =
      with_account lower event p event.tenant_id event.whatsapp_account_id
