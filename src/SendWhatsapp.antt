-- ===== src/SendWhatsapp.antt =====
-- packages/shared/src/handlers/sendWhatsapp.ts, the gates in the order of the source, each a
-- definition that ends in a refusal or in the next one.
pub mod Outcome
pub mod Cost
pub mod Quiet
pub mod Gates
pub mod Cleared
pub mod Counting
pub mod Retry
pub mod Tests
use Prim.Native.String.{◌++◌ as concat}
use automatebro.Prelude.{
  ℕ, ◌+◌, ◌/◌, String, Bool, true, false, not, Option, none, some, [], ltb, leb, length, ◌==◌,
  or_default, if◌then◌else◌,
}
use automatebro.Records.{
  Text, Send, SendStatus, SendKind, queued, sent, failed, rate_limited, outside_window, opted_out,
  daily_cap_exceeded, whatsapp_template, WhatsappAccount, WhatsappTemplate, TemplateStatus,
  approved, Lead, send_row_not_found, missing_tenant, wa_account_not_found, wa_account_disconnected,
  recipient_opted_out, window_expired, empty_content, no_template_id, daily_cap_reached,
  template_not_approved, limited_at, meta_says, send_threw, decrypt_failed,
}
use automatebro.Action.{
  Env, Action, Error, marked, api, Post, template_message, freeform_message, ok, err, Fetched, ask,
  read, now, pure, throw, request, catching, or_null, ◌>>=◌, ◌>>◌,
}
use automatebro.RateLimit.{RateLimitResult, check_and_consume, tier1_duration_ms}
use automatebro.Adapters.Whatsapp.{ApiResult, returned, threw, crashed, is_retryable, send_message}
use automatebro.Whatsapp.ServiceWindow.{can_send_freeform}
use Outcome.{SendWhatsappOutcome, outcome_of, problem, delivered, persist_terminal, refuse}
use Cost.{increment_conversation_cost, count_todays_conversations}

pub record SendWhatsappInput : Type 0 where
  pub send_id : String
  pub whatsapp_account_id : String
  pub recipient_phone : String
  pub content : Text
  pub automation_id : Option String

abbrev pub is_queued : SendStatus → Bool
is_queued queued = true
is_queued _ = false

-- `send.kind === 'whatsappTemplate'`
abbrev pub wants_template : SendKind → Bool
wants_template whatsapp_template = true
wants_template _ = false

abbrev pub is_approved : TemplateStatus → Bool
is_approved approved = true
is_approved _ = false

-- `lead?.whatsappOptOutAt` is set.
abbrev pub has_opted_out : Option Lead → Bool
has_opted_out none = false
has_opted_out (some l) = elim l.whatsapp_opt_out_at [ none ↦ false | some _ ↦ true ]

abbrev pub last_inbound : Option Lead → Option ℕ
last_inbound none = none
last_inbound (some l) = l.last_whatsapp_inbound_at

abbrev pub rate_key : String → String
rate_key phone_number_id = concat "rate:wa:" phone_number_id

-- The row, its tenant and the account that the gates have let through.
pub record Job : Type 0 where
  pub send : Send
  pub tenant : String
  pub account : WhatsappAccount

module _ (env : Env) (input : SendWhatsappInput) where
  -- Gates 5 and 6: `template` is there for a template send alone.
  finish : Job → Option WhatsappTemplate → String → Action SendWhatsappOutcome
  unfolding persist_terminal
  finish job template message_id = do
    elim template [
      | none ↦ pure tt
      | some tpl ↦
          catching
            (increment_conversation_cost env job.tenant job.account.id input.recipient_phone
              tpl.category)
            (λ _. pure tt)
    ]
    persist_terminal env input.send_id (delivered message_id)
    pure (delivered message_id)

  -- The `catch` round the request.
  unfoldable pub respond :
      Job → Option WhatsappTemplate → ApiResult String → Action SendWhatsappOutcome
  unfolding finish is_retryable refuse persist_terminal
  respond job template (returned id) = finish job template id
  respond job template (threw e) =
      if is_retryable e
      then throw (api e)
      else refuse env input.send_id (problem failed (meta_says e.message))
  respond job template (crashed m) = do
    persist_terminal env input.send_id (problem failed (send_threw m))
    pure (problem failed (meta_says m))

  pub message : Job → Option WhatsappTemplate → String → Post
  message job none token =
      freeform_message token job.account.phone_number_id input.recipient_phone input.content
  message job (some tpl) token =
      template_message token job.account.phone_number_id input.recipient_phone tpl.name tpl.language
        (or_default job.send.whatsapp_template_params [])

  -- Gate 8 and the request.
  unfoldable pub deliver : Job → Option WhatsappTemplate → Action SendWhatsappOutcome
  unfolding respond message persist_terminal send_message
  deliver job template = elim (env.decrypt job.account.token job.account.phone_number_id) [
    | err e ↦ (do
      persist_terminal env input.send_id (problem failed decrypt_failed)
      pure (outcome_of failed))
    | ok token ↦ (do
      fetched ← request env (message job template token)
      respond job template (send_message fetched))
  ]

  -- What follows the limiter's verdict.
  unfoldable pub on_rate :
      Job → Option WhatsappTemplate → RateLimitResult → Action SendWhatsappOutcome
  unfolding deliver
  on_rate job template rate = if rate.allowed then deliver job template else (do
    persist_terminal env input.send_id (
        problem rate_limited
          (limited_at rate.current rate.cap ((rate.retry_after_ms + 999) / 1000)))
    throw (marked "rate limited" true))

  -- Gate 7.
  unfoldable pub consume_rate : Job → Option WhatsappTemplate → Action SendWhatsappOutcome
  unfolding on_rate
  consume_rate job template = do
    rate ←
        check_and_consume env (rate_key job.account.phone_number_id)
          job.account.daily_conversation_cap tier1_duration_ms
    on_rate job template rate

  -- Gate 4.
  check_template : Job → Option String → Action SendWhatsappOutcome
  unfolding consume_rate refuse
  check_template job none = refuse env input.send_id (problem failed no_template_id)
  check_template job (some id) = do
    template ← read (λ t. or_null (env.query_template t id))
    elim template [
      | none ↦ refuse env input.send_id (problem failed template_not_approved)
      | some tpl ↦
          if is_approved tpl.status
          then consume_rate job (some tpl)
          else refuse env input.send_id (problem failed template_not_approved)
    ]

  -- Gate 1, for a freeform send.
  check_window : Job → Option Lead → ℕ → Action SendWhatsappOutcome
  unfolding consume_rate refuse
  check_window job lead time =
      if can_send_freeform (last_inbound lead) time
      then if length input.content == 0
        then refuse env input.send_id (problem failed empty_content)
        else consume_rate job none
      else refuse env input.send_id (problem outside_window window_expired)

  unfoldable pub choose_mode : Job → Option Lead → Action SendWhatsappOutcome
  unfolding check_template check_window
  choose_mode job lead = do
    time ← now env
    if wants_template job.send.kind
        then check_template job job.send.whatsapp_template_id
        else check_window job lead time

  -- Gate 3.
  check_cap : Job → Option Lead → Action SendWhatsappOutcome
  unfolding choose_mode refuse
  check_cap job lead = do
    count ← count_todays_conversations env job.tenant job.account.id
    if leb job.account.daily_conversation_cap count
        then refuse env input.send_id (
            problem daily_cap_exceeded (daily_cap_reached job.account.daily_conversation_cap count))
        else choose_mode job lead

  -- Gate 2.
  check_opt_out : Job → Action SendWhatsappOutcome
  unfolding check_cap refuse
  check_opt_out job = do
    lead ← read (λ t. or_null (env.query_lead t job.tenant input.recipient_phone))
    if has_opted_out lead
        then refuse env input.send_id (problem opted_out recipient_opted_out)
        else check_cap job lead

  check_account : Send → String → Option WhatsappAccount → Action SendWhatsappOutcome
  unfolding check_opt_out refuse
  check_account send tenant none = refuse env input.send_id (problem failed wa_account_not_found)
  check_account send tenant (some account) = elim account.disconnected_at [
    | some _ ↦ refuse env input.send_id (problem failed wa_account_disconnected)
    | none ↦ check_opt_out (record { send = send; tenant = tenant; account = account })
  ]

  load_account : Send → Option String → Option String → Action SendWhatsappOutcome
  unfolding check_account
  load_account send (some tenant) (some _) = do
    account ← ask (λ t. env.query_whatsapp_account t input.whatsapp_account_id)
    check_account send tenant account
  load_account send _ _ = pure (problem failed missing_tenant)

  on_row : Option Send → Action SendWhatsappOutcome
  unfolding load_account
  on_row none = pure (problem failed send_row_not_found)
  on_row (some send) =
      if is_queued send.status
      then load_account send send.tenant_id send.whatsapp_account_id
      else pure (outcome_of send.status)

  unfoldable pub send_whatsapp : Action SendWhatsappOutcome
  unfolding on_row
  send_whatsapp = do found ← ask (λ t. env.query_send t input.send_id); on_row found
