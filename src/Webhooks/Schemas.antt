-- ===== src/Webhooks/Schemas.antt =====
-- packages/shared/src/meta/whatsappWebhookParser.ts, the zod schemas of a delivery. Of what they check
-- and nothing reads, the check alone is kept.
pub mod RoundTrip
use automatebro.Prelude.{
  String, Bool, Option, none, some, List, [], ◌∷◌, ◌++◌, map, or_default, str_eq, if◌then◌else◌,
}
use automatebro.Webhooks.Json.{
  Json, object, string, Fields, Schema, ◌>>=◌, get, as_object, as_string, as_boolean, as_filled,
  as_literal, required, optional, as_array,
}

pub record Metadata : Type 0 where
  pub phone_number_id : String
  pub display_phone_number : String

pub record Contact : Type 0 where
  pub wa_id : String
  pub name : Option String

pub record InboundMessage : Type 0 where
  pub id : String
  pub from : String
  pub timestamp : String
  pub type : String
  pub text : Option String

-- `category` is `pricing.category`.
pub record Status : Type 0 where
  pub id : String
  pub recipient_id : String
  pub status : String
  pub timestamp : String
  pub category : Option String

pub record MessagesValue : Type 0 where
  pub metadata : Metadata
  pub contacts : List Contact
  pub messages : List InboundMessage
  pub statuses : List Status

pub record TemplateStatusValue : Type 0 where
  pub event : String
  pub message_template_id : String
  pub message_template_name : String
  pub message_template_language : String
  pub reason : Option String

pub record Change : Type 0 where
  pub field : String
  pub value : Option Json

pub record Entry : Type 0 where
  pub id : String
  pub changes : List Change

unfoldable pub metadata_schema : Schema Metadata
metadata_schema v = do
  o ← as_object v
  id ← required as_filled (get "phone_number_id" o)
  phone ← required as_filled (get "display_phone_number" o)
  some (record { phone_number_id = id; display_phone_number = phone })

profile_schema : Schema (Option String)
profile_schema v = do o ← as_object v; optional as_string (get "name" o)

-- A value that is there under a key of an object that may be missing.
abbrev flatten : Option (Option String) → Option String
flatten none = none
flatten (some o) = o

unfoldable pub contact_schema : Schema Contact
unfolding profile_schema
contact_schema v = do
  o ← as_object v
  id ← required as_filled (get "wa_id" o)
  profile ← optional profile_schema (get "profile" o)
  some (record { wa_id = id; name = flatten profile })

text_schema : Schema String
text_schema v = do o ← as_object v; required as_string (get "body" o)

unfoldable pub inbound_message_schema : Schema InboundMessage
unfolding text_schema
inbound_message_schema v = do
  o ← as_object v
  id ← required as_filled (get "id" o)
  from ← required as_filled (get "from" o)
  timestamp ← required as_filled (get "timestamp" o)
  type ← required as_filled (get "type" o)
  text ← optional text_schema (get "text" o)
  some (record { id = id; from = from; timestamp = timestamp; type = type; text = text })

origin_schema : Schema (Option String)
origin_schema v = do o ← as_object v; optional as_string (get "type" o)

conversation_schema : Schema (Option (Option String))
unfolding origin_schema
conversation_schema v = do
  o ← as_object v
  id ← optional as_string (get "id" o)
  optional origin_schema (get "origin" o)

-- Of a status's `pricing`, the category.
pricing_schema : Schema (Option String)
pricing_schema v = do
  o ← as_object v
  billable ← optional as_boolean (get "billable" o)
  model ← optional as_string (get "pricing_model" o)
  optional as_string (get "category" o)

unfoldable pub status_schema : Schema Status
unfolding pricing_schema conversation_schema
status_schema v = do
  o ← as_object v
  id ← required as_filled (get "id" o)
  recipient ← required as_filled (get "recipient_id" o)
  status ← required as_filled (get "status" o)
  timestamp ← required as_filled (get "timestamp" o)
  conversation ← optional conversation_schema (get "conversation" o)
  pricing ← optional pricing_schema (get "pricing" o)
  some (record {
    id = id;
    recipient_id = recipient;
    status = status;
    timestamp = timestamp;
    category = flatten pricing;
  })

unfoldable pub messages_value_schema : Schema MessagesValue
unfolding metadata_schema contact_schema inbound_message_schema status_schema
messages_value_schema v = do
  o ← as_object v
  product ← required (as_literal "whatsapp") (get "messaging_product" o)
  metadata ← required metadata_schema (get "metadata" o)
  contacts ← optional (as_array contact_schema) (get "contacts" o)
  messages ← optional (as_array inbound_message_schema) (get "messages" o)
  statuses ← optional (as_array status_schema) (get "statuses" o)
  some (record {
    metadata = metadata;
    contacts = or_default contacts [];
    messages = or_default messages [];
    statuses = or_default statuses [];
  })

unfoldable pub template_status_value_schema : Schema TemplateStatusValue
template_status_value_schema v = do
  o ← as_object v
  event ← required as_filled (get "event" o)
  id ← required as_filled (get "message_template_id" o)
  name ← required as_filled (get "message_template_name" o)
  language ← required as_filled (get "message_template_language" o)
  reason ← optional as_string (get "reason" o)
  some (record {
    event = event;
    message_template_id = id;
    message_template_name = name;
    message_template_language = language;
    reason = reason;
  })

unfoldable pub change_schema : Schema Change
change_schema v = do
  o ← as_object v
  name ← required as_filled (get "field" o)
  some (record { field = name; value = get "value" o })

unfoldable pub entry_schema : Schema Entry
unfolding change_schema
entry_schema v = do
  o ← as_object v
  id ← required as_filled (get "id" o)
  changes ← required (as_array change_schema) (get "changes" o)
  some (record { id = id; changes = changes })

unfoldable pub webhook_payload_schema : Schema (List Entry)
unfolding entry_schema
webhook_payload_schema v = do
  o ← as_object v
  root ← required (as_literal "whatsapp_business_account") (get "object" o)
  required (as_array entry_schema) (get "entry" o)
