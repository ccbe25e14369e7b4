-- ===== src/Worker/Event/Stranded.antt =====
-- A message event whose first run was cut short after it had inserted a row.
use automatebro.Prelude.{ℕ, ◌<◌, String, ◌≡◌, refl, ap, ◌∙◌, none, some, ◌∷◌, arith}
use automatebro.Records.{EventRecord, message}
use automatebro.Action.{Env, Trace, Effect, ok, mark_processed, jobs, continue}
use automatebro.Leads.Capture.{Patterns}
use automatebro.Leads.Capture.Quiet.{Quiet-capture_lead}
use automatebro.Processing.Dm.Laws.{process_dm_event_again}
use automatebro.Worker.Event.{
  Payload, sender_of, handle, finish, unless_processed, on_event, process_event,
}
use automatebro.Worker.Event.Laws.{Marked}

module _ (env : Env) (patterns : Patterns) (payload_of : EventRecord → Payload) where
  handled :
      (event : EventRecord) (tenant account : String) (n : ℕ) (t : Trace)
      → ((t' : Trace) (e : Effect) → env.accepts t' e ≡ ok tt)
      → event.tenant_id ≡ some tenant
      → event.ig_account_id ≡ some account
      → ((t' : Trace) → env.count_sends t' event.id ≡ ok n)
      → 0 < n
      → let r = handle env patterns payload_of event message t in
        (r.0 ≡ ok tt) × (jobs r.1 ≡ jobs t)
  unfolding handle
  handled event tenant account n t takes et ea rows pos =
      let ((a, e), quiet) =
        Quiet-capture_lead env patterns takes event (sender_of (payload_of event).inbound) t in
      rw
        (process_dm_event_again env patterns.to_lower_case event (payload_of event).inbound _ tenant
          account n et ea (rows _) pos)
        (rw e (refl, quiet))

  finished :
      (id : String) (t : Trace)
      → ((t' : Trace) (e : Effect) → env.accepts t' e ≡ ok tt)
      → finish env id t ≡ (ok tt, mark_processed id (env.clock t) ∷ t)
  finished id t takes = unfold finish in ground (arith, takes t (mark_processed id (env.clock t)))

  -- A direct-message event that is not marked and has rows in sends already, as when an earlier run
  -- inserted a row and then failed to enqueue its job, is marked by the next run without any job
  -- for it, in a database that takes every write.
  pub message_event_stranded :
      (id : String) (event : EventRecord) (tenant account : String) (n : ℕ) (t : Trace)
      → ((t' : Trace) (e : Effect) → env.accepts t' e ≡ ok tt)
      → env.query_event t id ≡ ok (some event)
      → event.kind ≡ message
      → event.processed_at ≡ none
      → event.tenant_id ≡ some tenant
      → event.ig_account_id ≡ some account
      → ((t' : Trace) → env.count_sends t' event.id ≡ ok n)
      → 0 < n
      → let r = process_event env patterns payload_of id t in
        (r.0 ≡ ok tt) × Marked id r.1 × (jobs r.1 ≡ jobs t)
  message_event_stranded id event tenant account n t takes q k new et ea rows pos =
      let (e, quiet) = handled event tenant account n t takes et ea rows pos in
      rw as_new (rw e (rw (finished id _ takes) (refl, (_, _, refl), quiet)))
    where
      as_new :
          process_event env patterns payload_of id t
          ≡ continue
              (handle env patterns payload_of event message t).0
              (λ _. finish env id)
              (handle env patterns payload_of event message t).1
      as_new =
          unfold process_event in
          rw (q, process_event)
            (unfold on_event in
              unfold unless_processed in
              ap (λ o. unless_processed env patterns payload_of id event o t) new
              ∙ ap
                  (λ kind.
                    continue (handle env patterns payload_of event kind t).0 (λ _. finish env id)
                      (handle env patterns payload_of event kind t).1)
                  k)
