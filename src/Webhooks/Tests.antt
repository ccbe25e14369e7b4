-- ===== src/Webhooks/Tests.antt =====
-- Deliveries on concrete inputs, and the theorems applied at such.
use automatebro.Prelude.{
  ◌+◌, String, ◌≡◌, refl, Bool, true, false, ◌||◌, Option, none, some, List, [], ◌∷◌, arith, str_eq,
  length, if◌then◌else◌,
}
use text.Mathlib.TextPositions.{eq_refl}
use automatebro.Records.{dm}
use automatebro.Action.{Env, Trace, Effect, Result, ok, err, plain, insert_event, enqueue_event}
use automatebro.Fixtures.{env_with, row_of, now_ms, same_case, owner}
use automatebro.Text.{includes, starts_with}
use automatebro.Whatsapp.StopKeywords.{codes}
use automatebro.Webhooks.Json.{null}
use automatebro.Webhooks.Schemas.{MessagesValue, TemplateStatusValue}
use automatebro.Webhooks.Schemas.RoundTrip.{FilledValue}
use automatebro.Webhooks.Parser.{
  ParsedWhatsappEvent, kind_of, parse_whatsapp_webhook_events, event_of_template_status,
}
use automatebro.Webhooks.Parser.RoundTrip.{
  DeliveredEntry, messages, template_status, delivery_json, expected_events,
  parse_whatsapp_webhook_events-delivery_json,
}
use automatebro.Webhooks.Ingest.{
  Messages, IngestResult, is_unique_violation, ingest_parsed, owner_of, new_whatsapp_event,
}
use automatebro.Webhooks.Ingest.Again.{UniqueEvents, ingest_parsed_again}
use automatebro.Webhooks.Ingest.Lost.{second_review_dropped}
use automatebro.Webhooks.Meta.{MetaEntry, ParsedEvent, parse_webhook_events, ingest_meta_webhook}
use automatebro.Webhooks.Meta.Laws.{ingest_meta_webhook_total}

abbrev value : MessagesValue
value = record {
  metadata = record { phone_number_id = "p1"; display_phone_number = "+91" };
  contacts = record { wa_id = "91"; name = some "Asha" } ∷ [];
  messages =
      record { id = "wamid"; from = "91"; timestamp = "17"; type = "text"; text = some "hi" } ∷ [];
  statuses =
      record { id = "w0"; recipient_id = "91"; status = "read"; timestamp = "18"; category = none }
      ∷ [];
}

abbrev review_of : Option String → TemplateStatusValue
review_of reason = record {
  event = "PAUSED";
  message_template_id = "mt1";
  message_template_name = "sale";
  message_template_language = "en";
  reason = reason;
}

-- In the place of SHA-256, where any function does.
abbrev digest : String → String
digest s = s

abbrev delivery : List DeliveredEntry
delivery = ("waba", messages value ∷ template_status (review_of none) ∷ []) ∷ []

parse_whatsapp_webhook_events-delivery_json_example :
    parse_whatsapp_webhook_events digest (delivery_json delivery) ≡ expected_events digest delivery
parse_whatsapp_webhook_events-delivery_json_example =
    parse_whatsapp_webhook_events-delivery_json digest delivery
      ((refl, (filled, ((refl, refl, refl, refl), tt))), tt)
  where
    filled : FilledValue value
    filled = record {
      phone_number_id = refl;
      display_phone_number = refl;
      contacts = (refl, tt);
      messages = ((refl, refl, refl, refl), tt);
      statuses = ((refl, refl, refl, refl), tt);
    }

-- A database that refuses an identifier that its history has.
abbrev known : Trace → String → Bool
known [] id = false
known (insert_event e ∷ t) id = str_eq e.meta_event_id id || known t id
known (_ ∷ t) id = known t id

-- With a queue that takes jobs, or refuses them.
abbrev accepts_new : Bool → Trace → Effect → Result (Unit {0})
accepts_new queue t (insert_event e) =
    if known t e.meta_event_id then err (plain "23505") else ok tt
accepts_new queue t (enqueue_event id) = if queue then ok tt else err (plain "refused")
accepts_new queue t _ = ok tt

abbrev env_queue : Bool → Env
env_queue queue = record (env_with (row_of dm) now_ms) { accepts = accepts_new queue }

abbrev units : Messages
units = record {
  units = λ s. if str_eq s "23505" then codes "23505" else [];
  to_lower_case = same_case;
}

known_stays : (t : Trace) (f : Effect) (id : String) → known t id ≡ true → known (f ∷ t) id ≡ true
known_stays t (insert_event e) id k = ground (arith, k)
known_stays t _ id k = k

env-UniqueEvents : (queue : Bool) → UniqueEvents (env_queue queue) units
unfolding is_unique_violation includes starts_with
env-UniqueEvents queue = record {
  known = known;
  refuses = λ t e k. (plain "23505", rw k, refl);
  inserted_known = λ t e. rw (eq_refl e.meta_event_id);
  stays = known_stays;
}

abbrev review : ParsedWhatsappEvent
review = event_of_template_status digest "waba" (review_of none)

abbrev delivered : List ParsedWhatsappEvent
delivered = review ∷ []

abbrev first_run : Trace
first_run = (ingest_parsed (env_queue true) units delivered []).1

abbrev inserted_one : IngestResult
inserted_one = record {
  parsed = 1;
  inserted = 1;
  duplicates = 0;
  errors = 0;
  events =
      record { id = "fresh"; kind = kind_of review.detail; meta_event_id = review.meta_event_id }
      ∷ [];
}

ingest_parsed_again_example :
    (r' : IngestResult) × (ingest_parsed (env_queue true) units delivered first_run
      ≡ (ok r', first_run))
    × (r'.inserted ≡ 0)
    × (r'.errors ≡ 0)
unfolding ingest_parsed event_of_template_status
ingest_parsed_again_example =
    ingest_parsed_again (env_queue true) units (env-UniqueEvents true) delivered [] [] inserted_one
      (λ t. refl) refl refl

abbrev stored_review : Trace
stored_review =
    insert_event (new_whatsapp_event (env_queue true) units review owner "fresh" now_ms) ∷ []

second_review_dropped_example :
    ingest_parsed
      (env_queue true)
      units
      (event_of_template_status digest "waba" (review_of (some "quality")) ∷ [])
      stored_review
    ≡ (
      ok (record { parsed = 1; inserted = 0; duplicates = 1; errors = 0; events = [] }),
      stored_review,
    )
unfolding owner_of event_of_template_status new_whatsapp_event env-UniqueEvents
second_review_dropped_example =
    second_review_dropped (env_queue true) units (env-UniqueEvents true) digest "waba" "waba"
      (review_of none) (review_of (some "quality")) owner stored_review refl
      (rw (eq_refl "tplstatus|mt1|PAUSED")) refl refl refl

abbrev entry : MetaEntry
entry = record {
  id = "u1";
  id_is_string = true;
  time = some "17";
  changes =
      some (record {
        field = "comments";
        id = some "c1";
        comment_id = none;
        media_id = none;
        value = null;
      })
      ∷ [];
  messaging =
      some (record {
        sender_id = some "u2";
        timestamp = some "18";
        message_mid = some "m1";
        reaction_mid = none;
        has_reaction = false;
        has_story = true;
        json = null;
      })
      ∷ [];
}

ingest_meta_webhook_total_example :
    (r : IngestResult) × (parsed : List ParsedEvent) × (parse_webhook_events digest
        (λ v. "null")
        (some entry ∷ [])
      ≡ ok parsed)
    × ((ingest_meta_webhook (env_queue true) units digest (λ v. "null") (some entry ∷ []) []).0
        ≡ ok r)
    × (r.parsed ≡ length parsed)
    × (r.inserted + r.duplicates + r.errors ≡ r.parsed)
ingest_meta_webhook_total_example =
    ingest_meta_webhook_total (env_queue true) units digest (λ v. "null") (some entry ∷ []) []
      (((tt, tt), (tt, tt)), tt) refl
