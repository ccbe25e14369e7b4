-- ===== src/Processing/Whatsapp/OptOut.antt =====
-- What a STOP message does, and what a message does to a lead that is known.
use automatebro.Prelude.{
  String, ◌≡◌, refl, true, false, Option, none, some, [], ◌∷◌, arith, str_eq, Bool-cases, inl, inr,
  or_default,
}
use automatebro.Records.{Text, EventRecord, Lead, opt_out, stop_keyword}
use automatebro.Action.{
  Env, Trace, Result, ok, err, lead_seen, lead_opted_out, insert_opt_log, jobs, inserted, or_null,
  continue, Effect,
}
use automatebro.Whatsapp.StopKeywords.{is_stop_keyword}
use automatebro.Processing.Loop.{zero_counts}
use automatebro.Processing.Whatsapp.Lead.{
  Message, upsert_lead_on_inbound, record_opt_out, log_entry,
}
use automatebro.Processing.Whatsapp.{
  WaPayload, on_lead, with_message, with_account, process_whatsapp_message_event,
}

module _ (env : Env) (t : Trace) where
  pub jobs-upsert : (m : Message) → jobs (upsert_lead_on_inbound env m none t).1 ≡ jobs t
  unfolding upsert_lead_on_inbound
  jobs-upsert m = ground arith

  pub inserted-upsert :
      (m : Message) → inserted (upsert_lead_on_inbound env m none t).1 ≡ inserted t
  unfolding upsert_lead_on_inbound
  inserted-upsert m = ground arith

  pub jobs-record_opt_out : (m : Message) (l : Lead) → jobs (record_opt_out env m l t).1 ≡ jobs t
  unfolding record_opt_out
  jobs-record_opt_out m l = ground arith

  pub inserted-record_opt_out :
      (m : Message) (l : Lead) → inserted (record_opt_out env m l t).1 ≡ inserted t
  unfolding record_opt_out
  inserted-record_opt_out m l = ground arith

  -- A message from a number whose lead is there, in a database that takes the update, only
  -- refreshes the lead's times: the lead that the handler goes on with keeps the opt-out that it
  -- has, and no opt-in is logged.
  pub upsert_known :
      (m : Message) (l : Lead)
      → or_null (env.query_lead t m.tenant_id m.phone) ≡ some l
      → env.accepts t (lead_seen l.id (env.clock t) none) ≡ ok tt
      → upsert_lead_on_inbound env m none t ≡ (
        ok (
            some (record l {
              last_whatsapp_inbound_at = some (env.clock t);
              last_seen_at = env.clock t;
            })),
        lead_seen l.id (env.clock t) none ∷ t,
      )
  unfolding upsert_lead_on_inbound
  upsert_known m l found accepts = rw (found, upsert_lead_on_inbound) (ground (arith, accepts))

module _ (env : Env) (lower : Text → Text) where
  quiet_stop :
      (m : Message) (l : Option Lead) (t : Trace)
      → is_stop_keyword lower (some m.text) ≡ true
      → (jobs (on_lead env lower m "text" l t).1 ≡ jobs t)
        × (inserted (on_lead env lower m "text" l t).1 ≡ inserted t)
  unfolding on_lead
  quiet_stop m none t stop = (refl, refl)
  quiet_stop m (some l) t stop = rw stop (ground arith)

  then_quiet :
      (m : Message) (x : Result (Option Lead)) (t : Trace)
      → is_stop_keyword lower (some m.text) ≡ true
      → (jobs (continue x (on_lead env lower m "text") t).1 ≡ jobs t)
        × (inserted (continue x (on_lead env lower m "text") t).1 ≡ inserted t)
  then_quiet m (ok l) t stop = quiet_stop m l t stop
  then_quiet m (err x) t stop = (refl, refl)

  quiet_message :
      (m : Message) (t : Trace)
      → is_stop_keyword lower (some m.text) ≡ true
      → (jobs (with_message env lower m "text" t).1 ≡ jobs t)
        × (inserted (with_message env lower m "text" t).1 ≡ inserted t)
  unfolding with_message
  quiet_message m t stop = elim (Bool-cases (str_eq m.phone "")) [
    | inl nobody ↦ rw nobody (refl, refl)
    | inr somebody ↦ rw somebody (
        ground (
          arith,
          then_quiet m (upsert_lead_on_inbound env m none t).0
              (upsert_lead_on_inbound env m none t).1 stop,
          jobs-upsert env t m,
          inserted-upsert env t m,
        ))
  ]

  quiet_account :
      (event : EventRecord) (p : WaPayload) (tenant account : Option String) (t : Trace)
      → p.type ≡ some "text"
      → is_stop_keyword lower (some (or_default p.body [])) ≡ true
      → (jobs (with_account env lower event p tenant account t).1 ≡ jobs t)
        × (inserted (with_account env lower event p tenant account t).1 ≡ inserted t)
  unfolding with_account
  quiet_account event p none account t type stop = (refl, refl)
  quiet_account event p (some tenant) none t type stop = (refl, refl)
  quiet_account event p (some tenant) (some account) t type stop = rw type (quiet_message _ t stop)

  -- A text message that is a STOP keyword, trimmed and in lower case, enqueues no job and inserts
  -- no row to send, whatever the services answer.
  pub stop_enqueues_nothing :
      (event : EventRecord) (p : WaPayload) (t : Trace)
      → p.type ≡ some "text"
      → is_stop_keyword lower (some (or_default p.body [])) ≡ true
      → (jobs (process_whatsapp_message_event env lower event p t).1 ≡ jobs t)
        × (inserted (process_whatsapp_message_event env lower event p t).1 ≡ inserted t)
  unfolding process_whatsapp_message_event
  stop_enqueues_nothing event p t type stop =
      quiet_account event p event.tenant_id event.whatsapp_account_id t type stop

  -- The lead is marked, the opt-out logged.
  opts_out :
      (m : Message) (l : Lead) (t : Trace)
      → is_stop_keyword lower (some m.text) ≡ true
      → ((t' : Trace) (e : Effect) → env.accepts t' e ≡ ok tt)
      → on_lead env lower m "text" (some l) t ≡ (
        ok (record { counts = zero_counts; opted_out = true }),
        insert_opt_log (
              log_entry m opt_out stop_keyword
                (env.random (lead_opted_out l.id (env.clock t) ∷ t))
                (env.clock t))
            ∷ lead_opted_out l.id (env.clock t)
            ∷ t,
      )
  unfolding on_lead
  opts_out m l t stop accepts = rw stop (
      ground (
        arith,
        accepts t (lead_opted_out l.id (env.clock t)),
        accepts (lead_opted_out l.id (env.clock t) ∷ t) (
            insert_opt_log (
              log_entry m opt_out stop_keyword (env.random (lead_opted_out l.id (env.clock t) ∷ t))
                (env.clock t))),
      ))

  opts_out_known :
      (m : Message) (l : Lead) (t : Trace)
      → str_eq m.phone "" ≡ false
      → is_stop_keyword lower (some m.text) ≡ true
      → or_null (env.query_lead t m.tenant_id m.phone) ≡ some l
      → ((t' : Trace) (e : Effect) → env.accepts t' e ≡ ok tt)
      → let seen = lead_seen l.id (env.clock t) none ∷ t in
        with_message env lower m "text" t ≡ (
          ok (record { counts = zero_counts; opted_out = true }),
          insert_opt_log (
                log_entry m opt_out stop_keyword
                  (env.random (lead_opted_out l.id (env.clock seen) ∷ seen))
                  (env.clock seen))
              ∷ lead_opted_out l.id (env.clock seen)
              ∷ seen,
        )
  unfolding with_message
  opts_out_known m l t somebody stop found accepts = rw somebody (
      rw (upsert_known env t m l found (accepts t (lead_seen l.id (env.clock t) none))) (
        opts_out m
          (record l { last_whatsapp_inbound_at = some (env.clock t); last_seen_at = env.clock t })
          (lead_seen l.id (env.clock t) none ∷ t) stop accepts))

  -- For an event of a tenant and an account, a text message that is a STOP keyword, from a number
  -- whose lead is there, in a database that takes every write: the run refreshes the lead's times,
  -- marks the lead as opted out, then logs an opt-out by the keyword, for the tenant, the account
  -- and the number, with Meta's identifier of the event as the evidence; it writes nothing else,
  -- and reports the opt-out and no match.
  pub stop_opts_out :
      (event : EventRecord) (p : WaPayload) (tenant account sender : String) (l : Lead) (t : Trace)
      → event.tenant_id ≡ some tenant
      → event.whatsapp_account_id ≡ some account
      → p.type ≡ some "text"
      → p.sender ≡ some sender
      → str_eq sender "" ≡ false
      → is_stop_keyword lower (some (or_default p.body [])) ≡ true
      → or_null (env.query_lead t tenant sender) ≡ some l
      → ((t' : Trace) (e : Effect) → env.accepts t' e ≡ ok tt)
      → let seen = lead_seen l.id (env.clock t) none ∷ t in
        let marked = lead_opted_out l.id (env.clock seen) ∷ seen in
        process_whatsapp_message_event env lower event p t ≡ (
          ok (record { counts = zero_counts; opted_out = true }),
          insert_opt_log (record {
            id = env.random marked;
            tenant_id = tenant;
            whatsapp_account_id = account;
            phone = sender;
            action = opt_out;
            source = stop_keyword;
            evidence = event.meta_event_id;
            recorded_at = env.clock seen;
          })
              ∷ marked,
        )
  unfolding process_whatsapp_message_event with_account log_entry
  stop_opts_out event p tenant account sender l t of_tenant of_account type from somebody stop found
        accepts =
      rw (of_tenant, of_account)
        (rw (type, from) (opts_out_known _ l t somebody stop found accepts))
