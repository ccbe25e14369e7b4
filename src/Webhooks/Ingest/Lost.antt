-- ===== src/Webhooks/Ingest/Lost.antt =====
-- What the unique identifiers of events hide.
use automatebro.Prelude.{String, ◌≡◌, ◌∙◌, some, [], ◌∷◌, arith}
use mathlib.Core.Path.{subst}
use automatebro.Action.{Env, Trace, ok, Owner, NewEvent}
use automatebro.Webhooks.Schemas.{TemplateStatusValue}
use automatebro.Webhooks.Parser.{ParsedWhatsappEvent, event_of_template_status}
use automatebro.Webhooks.Ingest.{
  one_duplicate, no_result, Messages, owner_of, new_whatsapp_event, store, on_insert, ingest_for,
  ingest_one, ingest_each, ingest_parsed,
}
use automatebro.Webhooks.Ingest.Again.{UniqueEvents, Known, parsed-each}

module _ (env : Env) (ms : Messages) (events : UniqueEvents env ms) where
  -- Once a review of a template has been stored, any later review of the same template with the
  -- same outcome that reaches a connected account is counted as a duplicate, whatever its reason
  -- and whatever came between: nothing is written and no job is enqueued; the database is one that
  -- can be reached, keeps its rows, and refuses a second row of an identifier by an error that
  -- reads as a unique violation.
  pub second_review_dropped :
      (sha256_hex : String → String) (waba_id waba_id' : String) (v v' : TemplateStatusValue)
      (owner : Owner) (t : Trace)
      → env.connect t ≡ ok tt
      → Known env ms events t (event_of_template_status sha256_hex waba_id v).meta_event_id
      → v'.message_template_id ≡ v.message_template_id
      → v'.event ≡ v.event
      → owner_of env ms (event_of_template_status sha256_hex waba_id' v') t ≡ some owner
      → ingest_parsed env ms (event_of_template_status sha256_hex waba_id' v' ∷ []) t
        ≡ (ok (record { parsed = 1; inserted = 0; duplicates = 1; errors = 0; events = [] }), t)
  second_review_dropped sha256_hex waba_id waba_id' v v' owner t reached k i e o =
      parsed-each env ms events (review ∷ []) t reached
      ∙ (unfold ingest_each in unfold ingest_one in rw o (unfold ingest_for in rw stored))
    where
      review : ParsedWhatsappEvent
      review = event_of_template_status sha256_hex waba_id' v'

      row : NewEvent
      row = new_whatsapp_event env ms review owner (env.random t) (env.clock t)

      same :
          (event_of_template_status sha256_hex waba_id v).meta_event_id
          ≡ (event_of_template_status sha256_hex waba_id' v').meta_event_id
      same = unfold event_of_template_status in rw (i, e)

      known : Known env ms events t row.meta_event_id
      known = unfold new_whatsapp_event in subst (λ x. Known env ms events t x) same k

      stored : store env ms row (no_result 1) t ≡ (ok (one_duplicate (no_result 1)), t)
      stored =
          let (x, q, u) = events.refuses t row known in
          unfold store in unfold on_insert in ground (arith, q, u)
