-- ===== src/Webhooks/Meta.antt =====
-- packages/shared/src/meta/eventId.ts and handlers/webhooks/ingestMetaWebhook.ts: deliveries about
-- Instagram. A payload enters as the fields that the parser reads of it, null items included; a payload
-- whose `entry` is no array is that of no entries.
pub mod Laws
use Prim.Native.String.{◌++◌ as concat}
use automatebro.Prelude.{
  ℕ, String, Bool, true, false, Option, none, some, List, [], ◌∷◌, ◌++◌, length, or_default, str_eq,
  if◌then◌else◌,
}
use automatebro.Records.{EventKind, comment, message, story_reply, message_reaction, mention}
use automatebro.Action.{
  Env, Trace, Action, Result, ok, err, plain, Owner, NewEvent, or_null, ask, lift, read, now, pure,
  ◌>>=◌, ◌>>◌,
}
use automatebro.Webhooks.Json.{Json}
use automatebro.Webhooks.Ingest.{IngestResult, no_result, Messages, store}

pub record MetaChange : Type 0 where
  pub field : String
  pub id : Option String
  pub comment_id : Option String
  pub media_id : Option String
  pub value : Json

-- `has_reaction` and `has_story` say that `reaction` and `message.reply_to.story` are there; the
-- timestamp is the number's text.
pub record MetaMessaging : Type 0 where
  pub sender_id : Option String
  pub timestamp : Option String
  pub message_mid : Option String
  pub reaction_mid : Option String
  pub has_reaction : Bool
  pub has_story : Bool
  pub json : Json

-- A null among the items is `none`. `id` is the text of `entry.id`, `id_is_string` says that it is a string.
pub record MetaEntry : Type 0 where
  pub id : String
  pub id_is_string : Bool
  pub time : Option String
  pub changes : List (Option MetaChange)
  pub messaging : List (Option MetaMessaging)

pub record ParsedEvent : Type 0 where
  pub meta_event_id : String
  pub kind : EventKind
  pub ig_user_id : Option String

unfoldable pub field_to_kind : String → Option EventKind
field_to_kind f =
    if str_eq f "comments"
    then some comment
    else if str_eq f "messages"
    then some message
    else if str_eq f "message_reactions"
    then some message_reaction
    else if str_eq f "mentions"
    then some mention
    else none

abbrev pub user_of : MetaEntry → Option String
user_of e = if e.id_is_string then some e.id else none

abbrev bar : String → String → String
bar a b = concat a (concat "|" b)

-- A reaction, else a story reply, else a message.
unfoldable pub messaging_kind : MetaMessaging → EventKind
messaging_kind m =
    if m.has_reaction then message_reaction else if m.has_story then story_reply else message

-- What reading a property of null throws.
abbrev pub type_error : Result (List ParsedEvent)
type_error = err (plain "TypeError: Cannot read properties of null")

-- The events of one part, then those of the next.
abbrev pub followed :
    Result (List ParsedEvent) → Result (List ParsedEvent) → Result (List ParsedEvent)
followed (ok xs) (ok ys) = ok (xs ++ ys)
followed (ok xs) (err x) = err x
followed (err x) ys = err x

-- SHA-256 in hexadecimal is node:crypto's, `stringify` is JSON's.
module _ (sha256_hex : String → String) (stringify : Json → String) where
  change_id : MetaEntry → MetaChange → String
  change_id e c =
      let value_id = or_default c.id (or_default c.comment_id (or_default c.media_id "unknown")) in
      sha256_hex
        (bar e.id (bar (or_default e.time "") (bar c.field (bar value_id (stringify c.value)))))

  messaging_id : MetaEntry → MetaMessaging → String
  messaging_id e m =
      let mid = or_default m.message_mid (or_default m.reaction_mid "no-mid") in
      sha256_hex (
        bar e.id (
          bar (or_default m.timestamp "")
            (bar (or_default m.sender_id "") (bar mid (stringify m.json)))))

  unfoldable pub change_events : MetaEntry → List (Option MetaChange) → Result (List ParsedEvent)
  unfolding field_to_kind change_id
  change_events e [] = ok []
  change_events e (none ∷ more) = type_error
  change_events e (some c ∷ more) =
      let rest = change_events e more in
      elim (field_to_kind c.field) [
        | none ↦ rest
        | some kind ↦
            followed
              (ok (
                record { meta_event_id = change_id e c; kind = kind; ig_user_id = user_of e } ∷ []))
              rest
      ]

  unfoldable pub messaging_event : MetaEntry → MetaMessaging → ParsedEvent
  unfolding messaging_id messaging_kind
  messaging_event e m = record {
    meta_event_id = messaging_id e m;
    kind = messaging_kind m;
    ig_user_id = user_of e;
  }

  unfoldable pub messaging_events :
      MetaEntry → List (Option MetaMessaging) → Result (List ParsedEvent)
  unfolding messaging_event
  messaging_events e [] = ok []
  messaging_events e (none ∷ more) = type_error
  messaging_events e (some m ∷ more) =
      followed (ok (messaging_event e m ∷ [])) (messaging_events e more)

  unfoldable pub parse_webhook_events : List (Option MetaEntry) → Result (List ParsedEvent)
  unfolding change_events messaging_events
  parse_webhook_events [] = ok []
  parse_webhook_events (none ∷ more) = type_error
  parse_webhook_events (some e ∷ more) =
      followed (change_events e e.changes)
        (followed (messaging_events e e.messaging) (parse_webhook_events more))

module _ (env : Env) (ms : Messages) where
  -- `resolveTenant`: an event of an account that is not connected has no tenant.
  unfoldable pub resolve_tenant : ParsedEvent → Trace → Option Owner
  resolve_tenant event t = elim event.ig_user_id [
    | none ↦ none
    | some id ↦ or_null (env.owner_of_ig_user t id)
  ]

  unfoldable pub new_event : ParsedEvent → Option Owner → String → ℕ → NewEvent
  new_event event owner id time = record {
    id = id;
    tenant_id = elim owner [ none ↦ none | some o ↦ some o.tenant_id ];
    meta_event_id = event.meta_event_id;
    kind = event.kind;
    ig_account_id = elim owner [ none ↦ none | some o ↦ some o.account_id ];
    whatsapp_account_id = none;
    received_at = time;
  }

  unfoldable pub ingest_meta_one : ParsedEvent → IngestResult → Action IngestResult
  unfolding resolve_tenant new_event store
  ingest_meta_one event r = do
    owner ← read (resolve_tenant event)
    id ← read env.random
    time ← now env
    store env ms (new_event event owner id time) r

  unfoldable pub ingest_meta_each : List ParsedEvent → IngestResult → Action IngestResult
  unfolding ingest_meta_one
  ingest_meta_each [] r = pure r
  ingest_meta_each (e ∷ more) r = do r' ← ingest_meta_one e r; ingest_meta_each more r'

  -- `getDb()` stands outside every `try`.
  unfoldable pub ingest_meta_parsed : List ParsedEvent → Action IngestResult
  unfolding ingest_meta_each
  ingest_meta_parsed [] = pure (no_result 0)
  ingest_meta_parsed (e ∷ more) = do
    ask env.connect
    ingest_meta_each (e ∷ more) (no_result (length (e ∷ more)))

  unfoldable pub ingest_meta_webhook :
      (String → String) → (Json → String) → List (Option MetaEntry) → Action IngestResult
  unfolding ingest_meta_parsed parse_webhook_events
  ingest_meta_webhook sha256_hex stringify payload = do
    parsed ← lift (parse_webhook_events sha256_hex stringify payload)
    ingest_meta_parsed parsed
