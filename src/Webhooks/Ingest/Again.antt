-- ===== src/Webhooks/Ingest/Again.antt =====
-- Deliveries that come again. Meta retries a delivery until it is answered, and the unique constraint on
-- the identifiers of events is what makes a retry harmless.
use automatebro.Prelude.{
  ◌+◌, ◌≤◌, String, ◌≡◌, refl, sym, ap, ◌∙◌, ◌⊎◌, inl, inr, Bool, true, false, Option, none, some,
  List, [], ◌∷◌, ◌++◌, arith, All, length, Bool-cases,
}
use mathlib.Core.Path.{subst}
use automatebro.Action.{
  Env, Trace, Effect, Action, Result-cases, ok, err, Error, NewEvent, insert_event, enqueue_event,
  Owner,
}
use automatebro.Webhooks.Parser.{ParsedWhatsappEvent}
use automatebro.Webhooks.Ingest.{
  no_result, Stored, IngestResult, one_inserted, one_duplicate, one_error, Messages,
  is_unique_violation, store, on_insert, owner_of, new_whatsapp_event, ingest_for, ingest_one,
  ingest_each, ingest_parsed,
}

-- What the database promises: a row stays, and a second row of its identifier is refused by an error that
-- reads as a unique violation, as PostgreSQL's does. Nothing is said of other errors.
pub record UniqueEvents (env : Env) (ms : Messages) : Type 0 where
  pub known : Trace → String → Bool
  pub refuses :
      (t : Trace) (e : NewEvent)
      → known t e.meta_event_id ≡ true
      → (x : Error) × (env.accepts t (insert_event e) ≡ err x) × (is_unique_violation ms x ≡ true)
  pub inserted_known :
      (t : Trace) (e : NewEvent) → known (insert_event e ∷ t) e.meta_event_id ≡ true
  pub stays : (t : Trace) (f : Effect) (id : String) → known t id ≡ true → known (f ∷ t) id ≡ true

module _ (env : Env) (ms : Messages) (events : UniqueEvents env ms) where
  abbrev pub Known : Trace → String → Type 0
  Known t id = events.known t id ≡ true

  -- What one event of a delivery does.
  record Step (m : IngestResult → Action IngestResult) (id : String) (r : IngestResult) (t : Trace)
      : Type 0 where
    next : IngestResult
    after : Trace
    ran : m r t ≡ (ok next, after)
    keeps : (i : String) → Known t i → Known after i
    counts : ((next.inserted ≡ r.inserted + 1) × Known after id) ⊎ (next.inserted ≡ r.inserted)
    again : Known t id → (after ≡ t) × (next.inserted ≡ r.inserted) × (next.errors ≡ r.errors)

  abbrev stored : NewEvent → Stored
  stored e = record { id = e.id; kind = e.kind; meta_event_id = e.meta_event_id }

  store_inserts :
      (e : NewEvent) (r : IngestResult) (t : Trace)
      → env.accepts t (insert_event e) ≡ ok tt
      → Step (store env ms e) e.meta_event_id r t
  store_inserts e r t a =
      elim (Result-cases (env.accepts (insert_event e ∷ t) (enqueue_event e.id))) [
        | inl (u, q) ↦ record {
          next = one_inserted (stored e) r;
          after = enqueue_event e.id ∷ insert_event e ∷ t;
          ran = unfold store in unfold on_insert in ground (arith, a, q);
          keeps = λ i k. events.stays _ _ i (events.stays _ _ i k);
          counts = inl (omega arith, events.stays _ _ _ (events.inserted_known t e));
          again = λ k. absurd (not_again k);
        }
        | inr (x, q) ↦ record {
          next = one_inserted (stored e) r;
          after = insert_event e ∷ t;
          ran = unfold store in unfold on_insert in ground (arith, a, q);
          keeps = λ i k. events.stays _ _ i k;
          counts = inl (omega arith, events.inserted_known t e);
          again = λ k. absurd (not_again k);
        }
      ]
    where
      not_again : Known t e.meta_event_id → ⊥
      not_again k = let (x, q, u) = events.refuses t e k in cc

  store_refused :
      (e : NewEvent) (r : IngestResult) (t : Trace) (x : Error)
      → env.accepts t (insert_event e) ≡ err x
      → Step (store env ms e) e.meta_event_id r t
  store_refused e r t x a = elim (Bool-cases (is_unique_violation ms x)) [
    | inl u ↦ record {
      next = one_duplicate r;
      after = t;
      ran = unfold store in unfold on_insert in ground (arith, a, u);
      keeps = λ i k. k;
      counts = inr refl;
      again = λ k. (refl, refl, refl);
    }
    | inr u ↦ record {
      next = one_error r;
      after = t;
      ran = unfold store in unfold on_insert in ground (arith, a, u);
      keeps = λ i k. k;
      counts = inr refl;
      again = λ k. absurd (not_unique u k);
    }
  ]
    where
      not_unique : is_unique_violation ms x ≡ false → Known t e.meta_event_id → ⊥
      not_unique u k = let (x', q, u') = events.refuses t e k in cc

  store-Step :
      (e : NewEvent) (r : IngestResult) (t : Trace) → Step (store env ms e) e.meta_event_id r t
  store-Step e r t = elim (Result-cases (env.accepts t (insert_event e))) [
    | inl (u, a) ↦ store_inserts e r t a
    | inr (x, a) ↦ store_refused e r t x a
  ]

  for-Step :
      (event : ParsedWhatsappEvent) (owner : Option Owner) (r : IngestResult) (t : Trace)
      → Step (ingest_for env ms event owner) event.meta_event_id r t
  unfolding ingest_for new_whatsapp_event
  for-Step event none r t = record {
    next = r;
    after = t;
    ran = refl;
    keeps = λ i k. k;
    counts = inr refl;
    again = λ k. (refl, refl, refl);
  }
  for-Step event (some owner) r t =
      let s = store-Step (new_whatsapp_event env ms event owner (env.random t) (env.clock t)) r t in
      record {
        next = s.next;
        after = s.after;
        ran = s.ran;
        keeps = s.keeps;
        counts = s.counts;
        again = s.again;
      }

  one-Step :
      (event : ParsedWhatsappEvent) (r : IngestResult) (t : Trace)
      → Step (ingest_one env ms event) event.meta_event_id r t
  unfolding ingest_one
  one-Step event r t =
      let s = for-Step event (owner_of env ms event t) r t in
      record {
        next = s.next;
        after = s.after;
        ran = s.ran;
        keeps = s.keeps;
        counts = s.counts;
        again = s.again;
      }

  abbrev pub Covered : Trace → List ParsedWhatsappEvent → Type 0
  Covered t es = All (λ e. Known t e.meta_event_id) es

  -- What a list of events does, the same way.
  record Steps (es : List ParsedWhatsappEvent) (r : IngestResult) (t : Trace) : Type 0 where
    next : IngestResult
    after : Trace
    ran : ingest_each env ms es r t ≡ (ok next, after)
    keeps : (i : String) → Known t i → Known after i
    bound : next.inserted ≤ r.inserted + length es
    full : next.inserted ≡ r.inserted + length es → Covered after es
    again : Covered t es → (after ≡ t) × (next.inserted ≡ r.inserted) × (next.errors ≡ r.errors)

  Steps-cons :
      (e : ParsedWhatsappEvent) (more : List ParsedWhatsappEvent) (r : IngestResult) (t : Trace)
      (s : Step (ingest_one env ms e) e.meta_event_id r t)
      → Steps more s.next s.after
      → Steps (e ∷ more) r t
  Steps-cons e more r t s ss = record {
    next = ss.next;
    after = ss.after;
    ran = unfold ingest_each in rw s.ran ss.ran;
    keeps = λ i k. ss.keeps i (s.keeps i k);
    bound = elim s.counts [
      | inl (c, k) ↦ omega (arith, c, ss.bound)
      | inr c ↦ omega (arith, c, ss.bound)
    ];
    full = λ f. elim s.counts [
      | inl (c, k) ↦ (ss.keeps _ k, ss.full (omega (arith, c, f)))
      | inr c ↦ absurd (omega (arith, c, f, ss.bound))
    ];
    again = λ c.
        let (same, none_new, no_error) = s.again c.0 in
        let (same', none_new', no_error') = ss.again (subst (λ x. Covered x more) (sym same) c.1) in
        (same' ∙ same, none_new' ∙ none_new, no_error' ∙ no_error);
  }

  steps : (es : List ParsedWhatsappEvent) (r : IngestResult) (t : Trace) → Steps es r t
  steps [] r t = record {
    next = r;
    after = t;
    ran = unfold ingest_each in refl;
    keeps = λ i k. k;
    bound = omega arith;
    full = λ e. tt;
    again = λ c. (refl, refl, refl);
  }
  steps (e ∷ more) r t =
      let s = one-Step e r t in Steps-cons e more r t s (steps more s.next s.after)

  -- The run itself, once the database is reached.
  pub parsed-each :
      (es : List ParsedWhatsappEvent) (t : Trace)
      → env.connect t ≡ ok tt
      → ingest_parsed env ms es t ≡ ingest_each env ms es (no_result (length es)) t
  unfolding ingest_parsed
  parsed-each [] t c = unfold ingest_each in refl
  parsed-each (e ∷ more) t c = rw c refl

  -- A run over the events of a delivery returns, if the database can be reached.
  pub ingest_parsed_returns :
      (es : List ParsedWhatsappEvent) (t : Trace)
      → env.connect t ≡ ok tt
      → (r : IngestResult) × ((ingest_parsed env ms es t).0 ≡ ok r) × (r.inserted ≤ length es)
  ingest_parsed_returns es t c =
      let s = steps es (no_result (length es)) t in
      (s.next, ap (λ x. x.0) (parsed-each es t c ∙ s.ran), omega (arith, s.bound))

  pub Covered-again :
      (es : List ParsedWhatsappEvent) (t : Trace)
      → env.connect t ≡ ok tt
      → Covered t es
      → (r : IngestResult) × (ingest_parsed env ms es t ≡ (ok r, t))
        × (r.inserted ≡ 0)
        × (r.errors ≡ 0)
  Covered-again es t reached c =
      let s = steps es (no_result (length es)) t in
      let (same, none_new, no_error) = s.again c in
      (s.next, parsed-each es t reached ∙ s.ran ∙ ap (λ x. (ok s.next, x)) same, none_new, no_error)

  stays_later : (later : Trace) (t : Trace) (i : String) → Known t i → Known (later ++ t) i
  stays_later [] t i k = k
  stays_later (f ∷ later) t i k = events.stays _ f i (stays_later later t i k)

  later_covers :
      (es : List ParsedWhatsappEvent) (later t : Trace) → Covered t es → Covered (later ++ t) es
  later_covers [] later t c = tt
  later_covers (e ∷ more) later t (k, c) =
      (stays_later later t e.meta_event_id k, later_covers more later t c)

  -- With a database that can be reached, keeps its rows, and refuses a second row of an identifier
  -- by an error that reads as a unique violation: after a run that has inserted all events of a
  -- delivery, a second run over the same events, in any later history and whichever accounts are
  -- then connected, returns, inserts nothing, counts no error, and writes and enqueues nothing.
  pub ingest_parsed_again :
      (es : List ParsedWhatsappEvent) (t later : Trace) (r : IngestResult)
      → ((t' : Trace) → env.connect t' ≡ ok tt)
      → (ingest_parsed env ms es t).0 ≡ ok r
      → r.inserted ≡ length es
      → (r' : IngestResult) × (ingest_parsed env ms es (later ++ (ingest_parsed env ms es t).1)
          ≡ (ok r', later ++ (ingest_parsed env ms es t).1))
        × (r'.inserted ≡ 0)
        × (r'.errors ≡ 0)
  ingest_parsed_again es t later r connects returned full =
      let s = steps es (no_result (length es)) t in
      let ran = parsed-each es t (connects t) ∙ s.ran in
      Covered-again es _ (connects _) (
        later_covers es later _ (
          subst (λ x. Covered x es) (sym (ap (λ x. x.1) ran))
            (s.full (
              ap (λ x. x.inserted) (same (sym (ap (λ x. x.0) ran) ∙ returned))
              ∙ omega (arith, full)))))
    where
      same : {a b : IngestResult} → ok a ≡ ok b → a ≡ b
      same q = cc
