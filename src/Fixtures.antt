-- ===== src/Fixtures.antt =====
-- A concrete environment for the examples: one queued row, one account, one lead, a database whose
-- row follows its updates, a Redis that counts exactly, and a Meta that accepts every message.
use automatebro.Prelude.{
  ℕ, ◌*◌, String, true, false, none, some, [], ◌∷◌, length, str_eq, arith, if◌then◌else◌,
}
use text.Mathlib.TextPositions.{eq_refl}
use automatebro.Records.{
  Text, EventKind, EventRecord, Send, SendKind, queued, whatsapp, WhatsappAccount, WhatsappTemplate,
  approved, marketing, WhatsappCosts, Lead, IgAccount, contains, static, Trigger, ResponseRecord,
  null,
}
use automatebro.Action.{Env, Trace, Owner, ok, set_send, response, Body, AiBody, ai_response}
use automatebro.Rows.{apply_update, ReadsUpdates}
use automatebro.RateLimit.SortedSet.{entries, IsExact}

abbrev pub one_day : ℕ
one_day = 86400000

abbrev pub noon : ℕ
noon = 20000 * one_day

abbrev pub row_of : SendKind → Send
row_of kind = record {
  id = "s1";
  tenant_id = some "t1";
  channel = whatsapp;
  ig_account_id = none;
  whatsapp_account_id = some "a1";
  automation_id = some "au1";
  event_id = some "e1";
  recipient_psid = none;
  recipient_phone = some "+91";
  kind = kind;
  whatsapp_template_id = some "tpl1";
  whatsapp_template_params = none;
  content = 72 ∷ 105 ∷ [];
  ai_generated = false;
  status = queued;
  meta_message_id = none;
  error_code = none;
  error_message = none;
  attempt = 1;
  queued_at = noon;
  sent_at = none;
  failed_at = none;
}

abbrev pub account : WhatsappAccount
account = record {
  id = "a1";
  phone_number_id = "p1";
  token = "secret";
  daily_conversation_cap = 100;
  disconnected_at = none;
}

abbrev pub lead : Lead
lead = record {
  id = "l1";
  tenant_id = "t1";
  ig_account_id = none;
  ig_user_id = none;
  ig_username = none;
  email = none;
  phone = some "+91";
  whatsapp_phone = some "+91";
  whatsapp_account_id = some "a1";
  whatsapp_opt_in_at = some 5;
  whatsapp_opt_out_at = none;
  last_whatsapp_inbound_at = some 1727999000000;
  last_template_conversation_at = some 1700000000000;
  first_seen_at = 5;
  last_seen_at = 5;
  tags = [];
  attributed_automation_id = none;
}

abbrev pub template : WhatsappTemplate
template = record {
  id = "tpl1";
  name = "sale";
  category = marketing;
  language = "en";
  status = approved;
}

abbrev pub costs_row : WhatsappCosts
costs_row = record {
  id = "c1";
  conversations_by_category = record {
    service = some 2;
    utility = none;
    marketing = some 7;
    authentication = some 0;
  };
}

abbrev pub dm_trigger : Trigger
dm_trigger = record {
  id = "tr1";
  automation_id = "au1";
  keywords = (72 ∷ []) ∷ [];
  match_mode = contains;
  post_ids = none;
  intents = none;
}

abbrev pub dm_response : ResponseRecord
dm_response = record {
  id = "r1";
  automation_id = "au1";
  mode = static;
  template = some (79 ∷ 75 ∷ []);
  comment_reply = none;
  ai_tone = none;
  ai_prompt = none;
  fallback_template = none;
  whatsapp_template_id = null;
}

abbrev pub ai_body : AiBody
ai_body = record {
  text = some (79 ∷ 75 ∷ []);
  prompt_tokens = some 10;
  completion_tokens = some 20;
  flagged = some false;
  ai_error = none;
}

abbrev pub ig_account : IgAccount
ig_account = record { id = "ig1"; ig_user_id = "u1"; token = "secret" }

abbrev pub meta_body : Body
meta_body = record {
  message_id = some "wamid";
  object_id = some "c2";
  error_text = none;
  error_code = none;
  error_subcode = none;
}

abbrev pub owner : Owner
owner = record { account_id = "a1"; tenant_id = "t1" }

-- The row after the updates in a history.
abbrev pub replay : Send → String → Trace → Send
replay row id [] = row
replay row id (set_send j u ∷ t) =
    let before = replay row id t in if str_eq j id then apply_update u before else before
replay row id (_ ∷ t) = replay row id t

-- The environment for a row and a clock.
abbrev pub env_with : Send → ℕ → Env
env_with row time = record {
  clock = λ t. time;
  random = λ t. "fresh";
  accepts = λ t e. ok tt;
  connect = λ t. ok tt;
  query_send = λ t id. if str_eq id "s1" then ok (some (replay row id t)) else ok none;
  count_sends = λ t id. ok 0;
  query_whatsapp_account = λ t id. ok (some account);
  query_ig_account = λ t id. ok (some ig_account);
  query_lead = λ t tenant phone. ok (some lead);
  query_costs = λ t tenant acct month. ok (some costs_row);
  query_template = λ t id. ok (some template);
  events_since = λ t id cutoff. ok 1;
  query_automations = λ t tenant id trigger. ok (record { id = "au1" } ∷ []);
  query_trigger = λ t id. ok (some dm_trigger);
  query_response = λ t id. ok (some dm_response);
  find_response = λ t id. ok (some dm_response);
  query_plan = λ t id. ok (some "free");
  query_ai_usage = λ t tenant month. ok none;
  has_openai_key = true;
  ai_answer = λ t p. ai_response 200 ai_body;
  parse_json = λ text. some (record { intent_text = none; score = none });
  exec = λ t key. ok (some (none ∷ none ∷ some (length (entries key t)) ∷ []));
  zrange_first = λ t key. ok none;
  decrypt = λ token aad. ok "token";
  answer = λ t p. response 200 (some meta_body);
  query_event = λ t id. ok none;
  owner_of_ig_user = λ t id. ok (some owner);
  owner_of_phone_number = λ t id. ok (some owner);
  owner_of_waba = λ t id. ok (some owner);
  find_meta_template = λ t id. ok (some template);
}

abbrev pub now_ms : ℕ
now_ms = 1728000000000

pub env_with-ReadsUpdates : (row : Send) (time : ℕ) → ReadsUpdates (env_with row time)
env_with-ReadsUpdates row time t id u r e = ground (arith, eq_refl id)

pub env_with-IsExact : (row : Send) (time : ℕ) → IsExact (env_with row time)
env_with-IsExact row time t key replies e = ground arith

-- "Hi"
abbrev pub hi : Text
hi = 72 ∷ 105 ∷ []

-- An event for each kind of handler, not classified yet.
abbrev pub event_of : EventKind → EventRecord
event_of kind = record {
  id = "e1";
  kind = kind;
  comment_text = some hi;
  message_text = some hi;
  intent = none;
  intent_confidence = none;
  tenant_id = some "t1";
  meta_event_id = "m1";
  ig_account_id = some "ig1";
  whatsapp_account_id = some "a1";
  processed_at = none;
}

-- In the place of `toLowerCase` where the texts are in lower case, or the case is kept.
abbrev pub same_case : Text → Text
same_case text = text
