-- ===== src/Webhooks/Meta/Laws.antt =====
-- Every event of a delivery is accounted for.
use automatebro.Prelude.{
  ℕ, ◌+◌, String, ◌≡◌, refl, ◌∙◌, Option, none, some, All, Option-cases, ◌++◌, List, [], ◌∷◌, arith,
  length, inl, inr, Bool-cases,
}
use automatebro.Action.{
  Env, Trace, Result, Result-cases, ok, err, NewEvent, insert_event, enqueue_event, perform,
}
use automatebro.Webhooks.Json.{Json}
use automatebro.Webhooks.Ingest.{
  IngestResult, no_result, one_inserted, one_duplicate, one_error, Messages, is_unique_violation,
  on_insert, store,
}
use automatebro.Webhooks.Meta.{
  MetaEntry, ParsedEvent, parse_webhook_events, resolve_tenant, new_event, ingest_meta_one,
  ingest_meta_each, ingest_meta_parsed, ingest_meta_webhook, MetaChange, MetaMessaging, followed,
  change_events, messaging_event, messaging_events, field_to_kind, change_id, user_of,
}

abbrev pub total : IngestResult → ℕ
total r = r.inserted + r.duplicates + r.errors

-- An item that is not null.
abbrev pub Is {ℓ} : {A : Type ℓ} → Option A → Type 0
Is none = ⊥
Is (some a) = Unit

-- An entry that is not null and has no null among its items.
abbrev pub IsWhole : Option MetaEntry → Type 0
IsWhole none = ⊥
IsWhole (some e) = All Is e.changes × All Is e.messaging

module _ (sha256_hex : String → String) (stringify : Json → String) where
  abbrev Parses : Result (List ParsedEvent) → Type 0
  Parses x = (parsed : List ParsedEvent) × (x ≡ ok parsed)

  followed-Parses : (x y : Result (List ParsedEvent)) → Parses x → Parses y → Parses (followed x y)
  followed-Parses x y (a, p) (b, q) = (a ++ b, rw (p, q) refl)

  changes_parse :
      (e : MetaEntry) (cs : List (Option MetaChange))
      → All Is cs
      → Parses (change_events sha256_hex stringify e cs)
  unfolding change_events
  changes_parse e [] w = ([], refl)
  changes_parse e (none ∷ more) (w, ws) = absurd w
  changes_parse e (some c ∷ more) (w, ws) = elim (Option-cases (field_to_kind c.field)) [
    | inl q ↦ rw (q, change_events) (changes_parse e more ws)
    | inr (kind, q) ↦
        let event : ParsedEvent = record {
          meta_event_id = change_id sha256_hex stringify e c;
          kind = kind;
          ig_user_id = user_of e;
        } in
        rw (q, change_events)
          (followed-Parses (ok (event ∷ [])) (change_events sha256_hex stringify e more)
            (event ∷ [], refl) (changes_parse e more ws))
  ]

  messaging_parse :
      (e : MetaEntry) (xs : List (Option MetaMessaging))
      → All Is xs
      → Parses (messaging_events sha256_hex stringify e xs)
  unfolding messaging_events
  messaging_parse e [] w = ([], refl)
  messaging_parse e (none ∷ more) (w, ws) = absurd w
  messaging_parse e (some m ∷ more) (w, ws) =
      followed-Parses (ok (messaging_event sha256_hex stringify e m ∷ []))
        (messaging_events sha256_hex stringify e more) (_, refl) (messaging_parse e more ws)

  parses :
      (payload : List (Option MetaEntry))
      → All IsWhole payload
      → Parses (parse_webhook_events sha256_hex stringify payload)
  unfolding parse_webhook_events
  parses [] w = ([], refl)
  parses (none ∷ more) (w, ws) = absurd w
  parses (some e ∷ more) ((c, m), ws) =
      let cs = change_events sha256_hex stringify e e.changes in
      let xs = messaging_events sha256_hex stringify e e.messaging in
      let rest = parse_webhook_events sha256_hex stringify more in
      followed-Parses cs (followed xs rest) (changes_parse e e.changes c)
        (followed-Parses xs rest (messaging_parse e e.messaging m) (parses more ws))

module _ (env : Env) (ms : Messages) where
  -- One event more is accounted for.
  record One (x : Result IngestResult × Trace) (r : IngestResult) : Type 0 where
    next : IngestResult
    ran : x.0 ≡ ok next
    more : total next ≡ total r + 1
    same : next.parsed ≡ r.parsed

  on_insert-One :
      (e : NewEvent) (x : Result (Unit {0})) (r : IngestResult) (t : Trace)
      → One (on_insert env ms e x r t) r
  unfolding on_insert
  on_insert-One e (ok u) r t = elim (Result-cases (env.accepts t (enqueue_event e.id))) [
    | inl (u, a) ↦ record {
      next = one_inserted (record { id = e.id; kind = e.kind; meta_event_id = e.meta_event_id }) r;
      ran = ground (arith, a);
      more = omega arith;
      same = refl;
    }
    | inr (x, a) ↦ record {
      next = one_inserted (record { id = e.id; kind = e.kind; meta_event_id = e.meta_event_id }) r;
      ran = ground (arith, a);
      more = omega arith;
      same = refl;
    }
  ]
  on_insert-One e (err x) r t = elim (Bool-cases (is_unique_violation ms x)) [
    | inl u ↦ record { next = one_duplicate r; ran = rw u; more = omega arith; same = refl }
    | inr u ↦ record { next = one_error r; ran = rw u; more = omega arith; same = refl }
  ]

  store-One : (e : NewEvent) (r : IngestResult) (t : Trace) → One (store env ms e r t) r
  unfolding store
  store-One e r t =
      on_insert-One e (perform env (insert_event e) t).0 r (perform env (insert_event e) t).1

  meta-One :
      (event : ParsedEvent) (r : IngestResult) (t : Trace)
      → One (ingest_meta_one env ms event r t) r
  unfolding ingest_meta_one
  meta-One event r t =
      store-One
        (new_event env ms event (resolve_tenant env ms event t) (env.random t) (env.clock t)) r t

  each_total :
      (es : List ParsedEvent) (r : IngestResult) (t : Trace)
      → (r' : IngestResult) × ((ingest_meta_each env ms es r t).0 ≡ ok r')
        × (total r' ≡ total r + length es)
        × (r'.parsed ≡ r.parsed)
  unfolding ingest_meta_each
  each_total [] r t = (r, refl, omega arith, refl)
  each_total (e ∷ more) r t =
      let o = meta-One e r t in
      let (r', ran, tot, same) = each_total more o.next (ingest_meta_one env ms e r t).1 in
      (r', rw o.ran ran, omega (arith, tot, o.more), same ∙ o.same)

  parsed_total :
      (parsed : List ParsedEvent) (t : Trace)
      → env.connect t ≡ ok tt
      → (r : IngestResult) × ((ingest_meta_parsed env ms parsed t).0 ≡ ok r)
        × (r.parsed ≡ length parsed)
        × (r.inserted + r.duplicates + r.errors ≡ r.parsed)
  unfolding ingest_meta_parsed
  parsed_total [] t reached = (no_result 0, refl, refl, omega arith)
  parsed_total (e ∷ more) t reached =
      let (r, ran, tot, same) = each_total (e ∷ more) (no_result (length (e ∷ more))) t in
      (r, rw reached ran, same, omega (arith, tot, same))

  -- A run over a delivery about Instagram without a null item, when the database can be reached,
  -- returns, whatever the database and the queue then refuse, and each parsed event is counted just
  -- once: as inserted, as a duplicate or as an error.
  pub ingest_meta_webhook_total :
      (sha256_hex : String → String) (stringify : Json → String) (payload : List (Option MetaEntry))
      (t : Trace)
      → All IsWhole payload
      → env.connect t ≡ ok tt
      → (r : IngestResult) × (parsed : List ParsedEvent) × (parse_webhook_events sha256_hex
            stringify payload
          ≡ ok parsed)
        × ((ingest_meta_webhook env ms sha256_hex stringify payload t).0 ≡ ok r)
        × (r.parsed ≡ length parsed)
        × (r.inserted + r.duplicates + r.errors ≡ r.parsed)
  unfolding ingest_meta_webhook
  ingest_meta_webhook_total sha256_hex stringify payload t whole reached =
      let (parsed, p) = parses sha256_hex stringify payload whole in
      let (r, ran, same, tot) = parsed_total parsed t reached in (r, parsed, p, rw p ran, same, tot)
