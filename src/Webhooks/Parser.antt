-- ===== src/Webhooks/Parser.antt =====
-- packages/shared/src/meta/whatsappWebhookParser.ts, the events of a delivery. The timestamps of the
-- parsed events, which nothing reads, are left out; `sha256_hex` is node:crypto's.
pub mod RoundTrip
use Prim.Native.String.{◌++◌ as concat}
use automatebro.Prelude.{
  String, Bool, true, false, Option, none, some, List, [], ◌∷◌, ◌++◌, map, or_default, str_eq,
  if◌then◌else◌,
}
use automatebro.Records.{EventKind, whatsapp_message, whatsapp_status, whatsapp_template_status}
use automatebro.Webhooks.Json.{Json, string, object, get, required, Schema, as_object}
use automatebro.Webhooks.Schemas.{
  Contact, InboundMessage, Status, MessagesValue, TemplateStatusValue, Change, Entry,
  messages_value_schema, template_status_value_schema, webhook_payload_schema,
}

-- `ParsedWhatsappEvent`, with what the parser has put into `payload`.
pub data Detail : Type 0 where
  message_event :
      String
      → String
      → String
      → String
      → Option String
      → String
      → Option String
      → InboundMessage
      → Detail
  status_event : String → String → String → String → Option String → Status → Detail
  template_status_event : TemplateStatusValue → Detail

pub record ParsedWhatsappEvent : Type 0 where
  pub meta_event_id : String
  pub waba_id : String
  pub detail : Detail

abbrev pub kind_of : Detail → EventKind
kind_of (message_event _ _ _ _ _ _ _ _) = whatsapp_message
kind_of (status_event _ _ _ _ _ _) = whatsapp_status
kind_of (template_status_event _) = whatsapp_template_status

-- `contactsByPhone[from] ?? null`: the last contact of the number.
unfoldable pub contact_name : List Contact → String → Option String → Option String
contact_name [] from found = found
contact_name (c ∷ more) from found =
    contact_name more from (if str_eq c.wa_id from then c.name else found)

-- `isWhatsappPayload`
unfoldable pub is_whatsapp_payload : Json → Bool
is_whatsapp_payload (object fs) = elim (get "object" fs) [
  | some (string s) ↦ str_eq s "whatsapp_business_account"
  | _ ↦ false
]
is_whatsapp_payload _ = false

module _ (sha256_hex : String → String) where
  unfoldable pub event_of_message : String → MessagesValue → InboundMessage → ParsedWhatsappEvent
  unfolding contact_name
  event_of_message waba_id value m = record {
    meta_event_id = m.id;
    waba_id = waba_id;
    detail =
        message_event value.metadata.phone_number_id value.metadata.display_phone_number m.id m.from
          (contact_name value.contacts m.from none) m.type m.text m;
  }

  unfoldable pub event_of_status : String → MessagesValue → Status → ParsedWhatsappEvent
  event_of_status waba_id value st = record {
    meta_event_id =
        sha256_hex (concat st.id (concat "|" (concat st.status (concat "|" st.timestamp))));
    waba_id = waba_id;
    detail =
        status_event value.metadata.phone_number_id st.id st.recipient_id st.status st.category st;
  }

  unfoldable pub event_of_template_status : String → TemplateStatusValue → ParsedWhatsappEvent
  event_of_template_status waba_id v = record {
    meta_event_id =
        sha256_hex (concat "tplstatus|" (concat v.message_template_id (concat "|" v.event)));
    waba_id = waba_id;
    detail = template_status_event v;
  }

  unfoldable pub events_of_value : String → MessagesValue → List ParsedWhatsappEvent
  events_of_value waba_id value =
      map (event_of_message waba_id value) value.messages
      ++ map (event_of_status waba_id value) value.statuses

  -- What a value makes that its schema refuses is nothing: the loop goes on.
  abbrev pub for_parsed :
      {A : Type 0} → Option A → (A → List ParsedWhatsappEvent) → List ParsedWhatsappEvent
  for_parsed none f = []
  for_parsed (some a) f = f a

  unfoldable pub events_of_change : String → Change → List ParsedWhatsappEvent
  unfolding events_of_value event_of_template_status
  events_of_change waba_id change =
      if str_eq change.field "messages"
      then for_parsed (required messages_value_schema change.value) (events_of_value waba_id)
      else if str_eq change.field "message_template_status_update"
      then for_parsed (required template_status_value_schema change.value)
          (λ v. event_of_template_status waba_id v ∷ [])
      else []

  unfoldable pub events_of_changes : String → List Change → List ParsedWhatsappEvent
  unfolding events_of_change
  events_of_changes waba_id [] = []
  events_of_changes waba_id (c ∷ more) =
      events_of_change waba_id c ++ events_of_changes waba_id more

  unfoldable pub events_of_entries : List Entry → List ParsedWhatsappEvent
  unfolding events_of_changes
  events_of_entries [] = []
  events_of_entries (e ∷ more) = events_of_changes e.id e.changes ++ events_of_entries more

  unfoldable pub parse_whatsapp_webhook_events : Json → List ParsedWhatsappEvent
  unfolding events_of_entries
  parse_whatsapp_webhook_events payload =
      for_parsed (webhook_payload_schema payload) events_of_entries
