-- ===== src/Webhooks/Schemas/RoundTrip.antt =====
-- A delivery written as JSON, and what the schemas make of it.
use automatebro.Prelude.{String, ◌≡◌, refl, false, Option, none, some, List, [], ◌∷◌, All, str_eq}
use automatebro.Webhooks.Json.{
  Json, string, object, array, Items, nil, cons, Fields, field, end, Schema, all_items,
}
use automatebro.Webhooks.Schemas.{
  Metadata, Contact, InboundMessage, Status, MessagesValue, TemplateStatusValue, metadata_schema,
  contact_schema, inbound_message_schema, status_schema, messages_value_schema,
  template_status_value_schema,
}

abbrev pub Filled : String → Type 0
Filled s = str_eq s "" ≡ false

-- A key that is left out for no value.
abbrev pub optional_field : String → Option Json → Fields → Fields
optional_field k none rest = rest
optional_field k (some v) rest = field k v rest

abbrev pub items_of : {A : Type 0} → (A → Json) → List A → Items
items_of f [] = nil
items_of f (x ∷ xs) = cons (f x) (items_of f xs)

-- An array of values that a schema takes.
all_items-items_of :
    {A : Type 0} (s : Schema A) (f : A → Json) (P : A → Type 0)
    → ((a : A) → P a → s (f a) ≡ some a)
    → (xs : List A) → All P xs
    → all_items s (items_of f xs) ≡ some xs
all_items-items_of s f P each [] p = refl
all_items-items_of s f P each (x ∷ xs) (p, ps) =
    rw (each x p) (rw (all_items-items_of s f P each xs ps))

abbrev pub text_json : String → Json
text_json body = object (field "body" (string body) end)

abbrev pub map_option {ℓ} : {A B : Type ℓ} → (A → B) → Option A → Option B
map_option f none = none
map_option f (some a) = some (f a)

abbrev pub message_json : InboundMessage → Json
message_json m = object (
    optional_field "text" (map_option text_json m.text) (
      field "from" (string m.from) (
        field "id" (string m.id)
          (field "timestamp" (string m.timestamp) (field "type" (string m.type) end)))))

abbrev pub FilledMessage : InboundMessage → Type 0
FilledMessage m = Filled m.id × Filled m.from × Filled m.timestamp × Filled m.type

message_parses :
    (m : InboundMessage) → FilledMessage m → inbound_message_schema (message_json m) ≡ some m
unfolding inbound_message_schema
message_parses m (i, f, s, y) = go m.text
  where
    go :
        (o : Option String)
        → inbound_message_schema (message_json (record m { text = o }))
          ≡ some (record m { text = o })
    go none = rw (i, f, s, y)
    go (some body) = rw (i, f, s, y)

abbrev pub name_json : String → Json
name_json name = object (field "name" (string name) end)

abbrev pub contact_json : Contact → Json
contact_json c =
    object
      (field "wa_id" (string c.wa_id) (optional_field "profile" (map_option name_json c.name) end))

contact_parses : (c : Contact) → Filled c.wa_id → contact_schema (contact_json c) ≡ some c
unfolding contact_schema
contact_parses c i = go c.name
  where
    go :
        (o : Option String)
        → contact_schema (contact_json (record c { name = o })) ≡ some (record c { name = o })
    go none = rw i
    go (some name) = rw i

abbrev pub category_json : String → Json
category_json category = object (field "category" (string category) end)

abbrev pub status_json : Status → Json
status_json st = object (
    field "id" (string st.id) (
      field "status" (string st.status) (
        field "timestamp" (string st.timestamp) (
          field "recipient_id" (string st.recipient_id)
            (optional_field "pricing" (map_option category_json st.category) end)))))

abbrev pub FilledStatus : Status → Type 0
FilledStatus st = Filled st.id × Filled st.recipient_id × Filled st.status × Filled st.timestamp

status_parses : (st : Status) → FilledStatus st → status_schema (status_json st) ≡ some st
unfolding status_schema
status_parses st (i, r, s, t) = go st.category
  where
    go :
        (o : Option String)
        → status_schema (status_json (record st { category = o }))
          ≡ some (record st { category = o })
    go none = rw (i, r, s, t)
    go (some category) = rw (i, r, s, t)

abbrev pub metadata_json : Metadata → Json
metadata_json m = object (
    field "display_phone_number" (string m.display_phone_number)
      (field "phone_number_id" (string m.phone_number_id) end))

abbrev pub value_json : MessagesValue → Json
value_json v = object (
    field "messaging_product" (string "whatsapp") (
      field "metadata" (metadata_json v.metadata) (
        field "contacts" (array (items_of contact_json v.contacts)) (
          field "messages" (array (items_of message_json v.messages))
            (field "statuses" (array (items_of status_json v.statuses)) end)))))

-- Every identifier of a value is there.
pub record FilledValue (v : MessagesValue) : Type 0 where
  pub phone_number_id : Filled v.metadata.phone_number_id
  pub display_phone_number : Filled v.metadata.display_phone_number
  pub contacts : All (λ c. Filled c.wa_id) v.contacts
  pub messages : All FilledMessage v.messages
  pub statuses : All FilledStatus v.statuses

metadata_parses :
    (m : Metadata)
    → Filled m.phone_number_id
    → Filled m.display_phone_number
    → metadata_schema (metadata_json m) ≡ some m
unfolding metadata_schema
metadata_parses m p d = rw (p, d)

pub value_parses :
    (v : MessagesValue) → FilledValue v → messages_value_schema (value_json v) ≡ some v
value_parses v p =
    unfold messages_value_schema in
    rw (
      metadata_parses v.metadata p.phone_number_id p.display_phone_number,
      all_items-items_of contact_schema contact_json (λ c. Filled c.wa_id) contact_parses v.contacts
          p.contacts,
      all_items-items_of inbound_message_schema message_json FilledMessage message_parses v.messages
          p.messages,
      all_items-items_of status_schema status_json FilledStatus status_parses v.statuses p.statuses,
    )

abbrev pub template_json : TemplateStatusValue → Json
template_json v = object (
    field "event" (string v.event) (
      field "message_template_id" (string v.message_template_id) (
        field "message_template_name" (string v.message_template_name) (
          field "message_template_language" (string v.message_template_language)
            (optional_field "reason" (map_option string v.reason) end)))))

abbrev pub FilledTemplate : TemplateStatusValue → Type 0
FilledTemplate v =
    Filled v.event
    × Filled v.message_template_id
    × Filled v.message_template_name
    × Filled v.message_template_language

pub template_parses :
    (v : TemplateStatusValue)
    → FilledTemplate v
    → template_status_value_schema (template_json v) ≡ some v
unfolding template_status_value_schema
template_parses v (e, i, n, l) = go v.reason
  where
    go :
        (o : Option String)
        → template_status_value_schema (template_json (record v { reason = o }))
          ≡ some (record v { reason = o })
    go none = rw (e, i, n, l)
    go (some reason) = rw (e, i, n, l)
