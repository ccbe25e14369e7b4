-- ===== src/Webhooks/Ingest.antt =====
-- packages/shared/src/handlers/webhooks: ingestMetaWebhook.ts and ingestWhatsappWebhook.ts, which store
-- the events of a delivery and enqueue a job for each. The insertion and what follows it are one text in
-- both.
pub mod Again
pub mod Lost
use automatebro.Prelude.{
  ℕ, ◌+◌, String, Bool, ◌||◌, Option, none, some, List, [], ◌∷◌, length, if◌then◌else◌,
}
use automatebro.Records.{Text, EventKind, whatsapp_template_status}
use automatebro.Action.{
  Env, Action, Trace, Result, ok, err, Error, message_of, NewEvent, insert_event, enqueue_event,
  Owner, or_null, ask, read, now, pure, perform, attempt_write, ◌>>=◌, ◌>>◌,
}
use automatebro.Text.{includes}
use automatebro.Whatsapp.StopKeywords.{codes}
use automatebro.Webhooks.Json.{Json}
use automatebro.Webhooks.Parser.{
  parse_whatsapp_webhook_events, ParsedWhatsappEvent, Detail, message_event, status_event,
  template_status_event, kind_of,
}

pub record Stored : Type 0 where
  pub id : String
  pub kind : EventKind
  pub meta_event_id : String

-- `IngestResult` and `IngestWhatsappResult`; the newest event stands first.
pub record IngestResult : Type 0 where
  pub parsed : ℕ
  pub inserted : ℕ
  pub duplicates : ℕ
  pub errors : ℕ
  pub events : List Stored

abbrev pub no_result : ℕ → IngestResult
no_result parsed = record { parsed = parsed; inserted = 0; duplicates = 0; errors = 0; events = [] }

abbrev pub one_duplicate : IngestResult → IngestResult
one_duplicate r = record r { duplicates = r.duplicates + 1 }

abbrev pub one_error : IngestResult → IngestResult
one_error r = record r { errors = r.errors + 1 }

abbrev pub one_inserted : Stored → IngestResult → IngestResult
one_inserted s r = record r { inserted = r.inserted + 1; events = s ∷ r.events }

-- An error's message as code units, and `toLowerCase` on them.
pub record Messages : Type 0 where
  pub units : String → Text
  pub to_lower_case : Text → Text

-- A violation of a unique constraint, by the text of the message.
unfoldable pub is_unique_violation : Messages → Error → Bool
is_unique_violation ms e =
    let message = ms.units (message_of e) in
    includes message (codes "23505")
    || includes (ms.to_lower_case message) (codes "duplicate key")
    || includes (ms.to_lower_case message) (codes "unique")

module _ (env : Env) (ms : Messages) where
  unfoldable pub on_insert : NewEvent → Result (Unit {0}) → IngestResult → Action IngestResult
  on_insert e (ok _) r = do
    attempt_write env (enqueue_event e.id)
    pure (one_inserted (record { id = e.id; kind = e.kind; meta_event_id = e.meta_event_id }) r)
  on_insert e (err x) r =
      if is_unique_violation ms x then pure (one_duplicate r) else pure (one_error r)

  -- The `try` round the insertion: what it throws is caught.
  unfoldable pub store : NewEvent → IngestResult → Action IngestResult
  unfolding on_insert
  store e r t = let (x, t') = perform env (insert_event e) t in on_insert e x r t'

  -- `resolveWhatsappTenant`
  unfoldable pub owner_of : ParsedWhatsappEvent → Trace → Option Owner
  owner_of event t = elim event.detail [
    | message_event phone _ _ _ _ _ _ _ ↦ or_null (env.owner_of_phone_number t phone)
    | status_event phone _ _ _ _ _ ↦ or_null (env.owner_of_phone_number t phone)
    | template_status_event v ↦ or_null (env.owner_of_waba t event.waba_id)
  ]

  unfoldable pub new_whatsapp_event : ParsedWhatsappEvent → Owner → String → ℕ → NewEvent
  new_whatsapp_event event owner id time = record {
    id = id;
    tenant_id = some owner.tenant_id;
    meta_event_id = event.meta_event_id;
    kind = kind_of event.detail;
    ig_account_id = none;
    whatsapp_account_id = some owner.account_id;
    received_at = time;
  }

  -- An event of an account that is not connected is dropped.
  unfoldable pub ingest_for :
      ParsedWhatsappEvent → Option Owner → IngestResult → Action IngestResult
  unfolding store new_whatsapp_event
  ingest_for event none r = pure r
  ingest_for event (some owner) r = do
    id ← read env.random
    time ← now env
    store (new_whatsapp_event event owner id time) r

  unfoldable pub ingest_one : ParsedWhatsappEvent → IngestResult → Action IngestResult
  unfolding ingest_for owner_of
  ingest_one event r = do owner ← read (owner_of event); ingest_for event owner r

  unfoldable pub ingest_each : List ParsedWhatsappEvent → IngestResult → Action IngestResult
  unfolding ingest_one
  ingest_each [] r = pure r
  ingest_each (e ∷ more) r = do r' ← ingest_one e r; ingest_each more r'

  -- `getDb()`, whose client is one for the process, stands outside every `try`.
  unfoldable pub ingest_parsed : List ParsedWhatsappEvent → Action IngestResult
  unfolding ingest_each
  ingest_parsed [] = pure (no_result 0)
  ingest_parsed (e ∷ more) = do
    ask env.connect
    ingest_each (e ∷ more) (no_result (length (e ∷ more)))

  unfoldable pub ingest_whatsapp_webhook : (String → String) → Json → Action IngestResult
  unfolding ingest_parsed
  ingest_whatsapp_webhook sha256_hex payload =
      ingest_parsed (parse_whatsapp_webhook_events sha256_hex payload)
