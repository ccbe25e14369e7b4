-- ===== src/Worker/Event/Laws.antt =====
-- What a run of the dispatcher leaves behind.
use automatebro.Prelude.{
  ℕ, String, ◌≡◌, refl, sym, ap, ◌∙◌, Option, none, some, ◌∷◌, arith, inl, inr,
}
use mathlib.Core.Path.{subst}
use automatebro.Records.{EventRecord}
use automatebro.Action.{Env, Trace, Result, Result-cases, ok, err, mark_processed, continue}
use automatebro.Leads.Capture.{Patterns}
use automatebro.Worker.Event.{Payload, handle, finish, unless_processed, on_event, process_event}

-- A read that finds a row whose event has been marked shows it marked.
abbrev pub ShowsProcessed : Env → Type 0
ShowsProcessed env =
    (t : Trace) (id : String) (time : ℕ) (event : EventRecord)
    → env.query_event (mark_processed id time ∷ t) id ≡ ok (some event)
    → (at : ℕ) × (event.processed_at ≡ some at)

-- The last write marks the event.
abbrev pub Marked : String → Trace → Type 0
Marked id t = (time : ℕ) × (rest : Trace) × (t ≡ mark_processed id time ∷ rest)

module _ (env : Env) (patterns : Patterns) (payload_of : EventRecord → Payload) where
  abbrev run : String → Trace → Result (Unit {0}) × Trace
  run = process_event env patterns payload_of

  finish_marks :
      (id : String) (t : Trace) → (finish env id t).0 ≡ ok tt → Marked id (finish env id t).1
  unfolding finish
  finish_marks id t e = elim (Result-cases (env.accepts t (mark_processed id (env.clock t)))) [
    | inl (u, a) ↦ (env.clock t, t, ground (arith, a))
    | inr (x, a) ↦ ground (arith, a)
  ]

  handled_marks :
      (id : String) (r : Result (Unit {0})) (t : Trace)
      → (continue r (λ _. finish env id) t).0 ≡ ok tt
      → Marked id (continue r (λ _. finish env id) t).1
  handled_marks id (ok u) t e = finish_marks id t e
  handled_marks id (err x) t e = cc

  unless_processed_marks :
      (id : String) (event : EventRecord) (t : Trace)
      → (unless_processed env patterns payload_of id event none t).0 ≡ ok tt
      → Marked id (unless_processed env patterns payload_of id event none t).1
  unfolding unless_processed
  unless_processed_marks id event t e =
      handled_marks id (handle env patterns payload_of event event.kind t).0
        (handle env patterns payload_of event event.kind t).1 e

  run_marks :
      (id : String) (event : EventRecord) (t : Trace)
      → env.query_event t id ≡ ok (some event)
      → event.processed_at ≡ none
      → (run id t).0 ≡ ok tt
      → Marked id (run id t).1
  unfolding process_event on_event
  run_marks id event t q new e =
      subst (λ r. r.0 ≡ ok tt → Marked id r.1) (sym as_new) (unless_processed_marks id event t) e
    where
      as_new : run id t ≡ unless_processed env patterns payload_of id event none t
      as_new =
          unfold process_event in
          rw (q, process_event)
            (unfold on_event in ap (λ o. unless_processed env patterns payload_of id event o t) new)

  processed_stays :
      (id : String) (event : EventRecord) (o : Option ℕ) (t : Trace)
      → ((at : ℕ) × (o ≡ some at))
      → (unless_processed env patterns payload_of id event o t).1 ≡ t
  unfolding unless_processed
  processed_stays id event none t (at, e) = cc
  processed_stays id event (some x) t shown = refl

  found_again :
      (id : String) (t : Trace) (found : Option EventRecord)
      → ((event : EventRecord) → found ≡ some event → (at : ℕ) × (event.processed_at ≡ some at))
      → (on_event env patterns payload_of id found t).1 ≡ t
  unfolding on_event
  found_again id t none shown = refl
  found_again id t (some event) shown =
      processed_stays id event event.processed_at t (shown event refl)

  again : (id : String) (t : Trace) → ShowsProcessed env → Marked id t → (run id t).1 ≡ t
  unfolding process_event
  again id t shows (time, rest, e) = elim (Result-cases (env.query_event t id)) [
    | inr (x, q) ↦ rw (q, process_event)
    | inl (found, q) ↦
        rw (q, process_event)
          (found_again id t found (λ event f.
            shows rest id time event
              (ap (λ t'. env.query_event t' id) (sym e) ∙ q ∙ ap (λ x. ok x) f)))
  ]

  -- A run of the dispatcher for an event that it finds not processed, and which returns, marks the
  -- event last, and a second run, in a database that shows the mark, writes nothing and makes no
  -- request, whatever the kind of the event.
  pub process_event_once :
      (id : String) (event : EventRecord) (t : Trace)
      → env.query_event t id ≡ ok (some event)
      → event.processed_at ≡ none
      → ShowsProcessed env
      → (process_event env patterns payload_of id t).0 ≡ ok tt
      → let t' = (process_event env patterns payload_of id t).1 in
        Marked id t' × ((process_event env patterns payload_of id t').1 ≡ t')
  process_event_once id event t q new shows e =
      (run_marks id event t q new e, again id _ shows (run_marks id event t q new e))
