-- ===== src/Webhooks/Parser/RoundTrip.antt =====
-- The events of a delivery that is written as JSON.
use Prim.Native.String.{◌++◌ as concat}
use automatebro.Prelude.{
  String, ◌≡◌, refl, sym, ◌∙◌, inl, inr, false, Option, none, some, List, [], ◌∷◌, ◌++◌, map, All,
  any, str_eq, arith, Bool-cases, if◌then◌else◌,
}
use automatebro.Webhooks.Json.{Json, string, object, array, field, end, all_items}
use automatebro.Webhooks.Schemas.{
  MessagesValue, Contact, InboundMessage, Status, TemplateStatusValue, Change, Entry, change_schema,
  entry_schema, webhook_payload_schema,
}
use automatebro.Webhooks.Schemas.RoundTrip.{
  Filled, FilledValue, FilledTemplate, items_of, value_json, value_parses, template_json,
  template_parses,
}
use automatebro.Webhooks.Parser.{
  ParsedWhatsappEvent, message_event, status_event, template_status_event, contact_name,
  event_of_message, event_of_status, event_of_template_status, events_of_value, events_of_change,
  events_of_changes, events_of_entries, parse_whatsapp_webhook_events,
}

-- A change: messages and their statuses, or a template's review.
pub data Delivered : Type 0 where
  messages : MessagesValue → Delivered
  template_status : TemplateStatusValue → Delivered

abbrev pub IsFilled : Delivered → Type 0
IsFilled (messages v) = FilledValue v
IsFilled (template_status v) = FilledTemplate v

abbrev pub change_of : Delivered → Change
change_of (messages v) = record { field = "messages"; value = some (value_json v) }
change_of (template_status v) = record {
  field = "message_template_status_update";
  value = some (template_json v);
}

abbrev pub change_json : Delivered → Json
change_json (messages v) =
    object (field "value" (value_json v) (field "field" (string "messages") end))
change_json (template_status v) =
    object (
      field "value" (template_json v) (field "field" (string "message_template_status_update") end))

-- An entry: the business account and its changes.
abbrev pub DeliveredEntry : Type 0
DeliveredEntry = String × List Delivered

abbrev pub entry_of : DeliveredEntry → Entry
entry_of (waba_id, changes) = record { id = waba_id; changes = map change_of changes }

abbrev pub entry_json : DeliveredEntry → Json
entry_json (waba_id, changes) =
    object
      (field "id" (string waba_id) (field "changes" (array (items_of change_json changes)) end))

abbrev pub delivery_json : List DeliveredEntry → Json
delivery_json entries = object (
    field "object" (string "whatsapp_business_account")
      (field "entry" (array (items_of entry_json entries)) end))

changes_parse :
    (ds : List Delivered)
    → all_items change_schema (items_of change_json ds) ≡ some (map change_of ds)
unfolding change_schema
changes_parse [] = refl
changes_parse (messages v ∷ more) = rw (changes_parse more)
changes_parse (template_status v ∷ more) = rw (changes_parse more)

entry_parses :
    (waba_id : String) (ds : List Delivered)
    → Filled waba_id
    → entry_schema (entry_json (waba_id, ds)) ≡ some (entry_of (waba_id, ds))
entry_parses waba_id ds f = unfold entry_schema in rw (f, changes_parse ds)

entries_parse :
    (es : List DeliveredEntry)
    → All (λ e. Filled e.0) es
    → all_items entry_schema (items_of entry_json es) ≡ some (map entry_of es)
entries_parse [] f = refl
entries_parse ((waba_id, ds) ∷ more) (f, fs) =
    rw (entry_parses waba_id ds f) (rw (entries_parse more fs))

-- The name of the last contact with a number, if it has one.
abbrev pub name_of : List Contact → String → Option String
name_of [] from = none
name_of (c ∷ more) from =
    let later = name_of more from in
    if any (λ c'. str_eq c'.wa_id from) more
    then later
    else if str_eq c.wa_id from
    then c.name
    else none

contact_name-found :
    (cs : List Contact) (from : String) (found : Option String)
    → contact_name cs from found
      ≡ (if any (λ c. str_eq c.wa_id from) cs then name_of cs from else found)
unfolding contact_name
contact_name-found [] from found = refl
contact_name-found (c ∷ more) from found =
    contact_name-found more from (if str_eq c.wa_id from then c.name else found) ∙ ground arith

name_of-none :
    (cs : List Contact) (from : String)
    → any (λ c. str_eq c.wa_id from) cs ≡ false
    → name_of cs from ≡ none
name_of-none [] from e = refl
name_of-none (c ∷ more) from e = ground (arith, e)

contact_name-name_of :
    (cs : List Contact) (from : String) → contact_name cs from none ≡ name_of cs from
contact_name-name_of cs from = elim (Bool-cases (any (λ c. str_eq c.wa_id from) cs)) [
  | inl e ↦ contact_name-found cs from none ∙ rw e refl
  | inr e ↦ contact_name-found cs from none ∙ rw e (sym (name_of-none cs from e))
]

module _ (sha256_hex : String → String) where
  -- What a message stands for, field by field; the name is that of the last contact with its number.
  abbrev pub expected_message : String → MessagesValue → InboundMessage → ParsedWhatsappEvent
  expected_message waba_id v m = record {
    meta_event_id = m.id;
    waba_id = waba_id;
    detail =
        message_event v.metadata.phone_number_id v.metadata.display_phone_number m.id m.from
          (name_of v.contacts m.from) m.type m.text m;
  }

  -- A status, under the digest of its identifier, its word and its time.
  abbrev pub expected_status : String → MessagesValue → Status → ParsedWhatsappEvent
  expected_status waba_id v st = record {
    meta_event_id =
        sha256_hex (concat st.id (concat "|" (concat st.status (concat "|" st.timestamp))));
    waba_id = waba_id;
    detail = status_event v.metadata.phone_number_id st.id st.recipient_id st.status st.category st;
  }

  -- A review, under the digest of its template and its outcome.
  abbrev pub expected_review : String → TemplateStatusValue → ParsedWhatsappEvent
  expected_review waba_id v = record {
    meta_event_id =
        sha256_hex (concat "tplstatus|" (concat v.message_template_id (concat "|" v.event)));
    waba_id = waba_id;
    detail = template_status_event v;
  }

  -- What a change stands for: its messages, then its statuses, or the one review.
  abbrev pub expected : String → Delivered → List ParsedWhatsappEvent
  expected waba_id (messages v) =
      map (expected_message waba_id v) v.messages ++ map (expected_status waba_id v) v.statuses
  expected waba_id (template_status v) = expected_review waba_id v ∷ []

  message_expected :
      (waba_id : String) (v : MessagesValue) (ms : List InboundMessage)
      → map (event_of_message sha256_hex waba_id v) ms ≡ map (expected_message waba_id v) ms
  message_expected waba_id v [] = refl
  message_expected waba_id v (m ∷ more) =
      rw (message_expected waba_id v more)
        (unfold event_of_message in rw (contact_name-name_of v.contacts m.from) refl)

  statuses_expected :
      (waba_id : String) (v : MessagesValue) (sts : List Status)
      → map (event_of_status sha256_hex waba_id v) sts ≡ map (expected_status waba_id v) sts
  unfolding event_of_status
  statuses_expected waba_id v [] = refl
  statuses_expected waba_id v (st ∷ more) = rw (statuses_expected waba_id v more) refl

  abbrev pub expected_all : String → List Delivered → List ParsedWhatsappEvent
  expected_all waba_id [] = []
  expected_all waba_id (d ∷ more) = expected waba_id d ++ expected_all waba_id more

  abbrev pub expected_events : List DeliveredEntry → List ParsedWhatsappEvent
  expected_events [] = []
  expected_events ((waba_id, ds) ∷ more) = expected_all waba_id ds ++ expected_events more

  change_events :
      (waba_id : String) (d : Delivered)
      → IsFilled d
      → events_of_change sha256_hex waba_id (change_of d) ≡ expected waba_id d
  change_events waba_id (messages v) f =
      unfold events_of_change in
      unfold events_of_value in
      rw (value_parses v f)
        (rw (message_expected waba_id v v.messages, statuses_expected waba_id v v.statuses) refl)
  change_events waba_id (template_status v) f =
      unfold events_of_change in unfold event_of_template_status in rw (template_parses v f)

  changes_events :
      (waba_id : String) (ds : List Delivered)
      → All IsFilled ds
      → events_of_changes sha256_hex waba_id (map change_of ds) ≡ expected_all waba_id ds
  unfolding events_of_changes
  changes_events waba_id [] f = refl
  changes_events waba_id (d ∷ more) (f, fs) =
      rw (change_events waba_id d f) (rw (changes_events waba_id more fs))

  entries_events :
      (es : List DeliveredEntry)
      → All (λ e. Filled e.0 × All IsFilled e.1) es
      → events_of_entries sha256_hex (map entry_of es) ≡ expected_events es
  unfolding events_of_entries
  entries_events [] f = refl
  entries_events ((waba_id, ds) ∷ more) ((_, f), fs) =
      rw (changes_events waba_id ds f) (rw (entries_events more fs))

  named :
      (es : List DeliveredEntry)
      → All (λ e. Filled e.0 × All IsFilled e.1) es
      → All (λ e. Filled e.0) es
  named [] f = tt
  named (e ∷ more) ((n, _), fs) = (n, named more fs)

  -- Any delivery of messages, statuses and template reviews, its identifiers not empty, written as
  -- JSON with the fields that the schemas name and no other, a template's identifier as a text, is
  -- parsed to just its events, for each entry and each change in order: for each message, the
  -- identifiers, the number, the text and the name of the last contact of that number; then for
  -- each status, its identifiers, word and category; or for a review, what it says; statuses and
  -- reviews under a digest of what names them.
  pub parse_whatsapp_webhook_events-delivery_json :
      (es : List DeliveredEntry)
      → All (λ e. Filled e.0 × All IsFilled e.1) es
      → parse_whatsapp_webhook_events sha256_hex (delivery_json es) ≡ expected_events es
  parse_whatsapp_webhook_events-delivery_json es f =
      unfold parse_whatsapp_webhook_events in
      unfold webhook_payload_schema in rw (entries_parse es (named es f)) (entries_events es f)
