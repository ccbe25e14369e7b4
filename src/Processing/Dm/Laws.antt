-- ===== src/Processing/Dm/Laws.antt =====
-- What a run of the direct-message and story-reply handlers adds to the database and the queue.
use automatebro.Prelude.{
  ℕ, ◌<◌, String, ◌≡◌, Option, none, some, List, [], arith, length, or_default, All, Bool-cases,
  ltb, ◌==◌, inl, inr,
}
use mathlib.Core.Path.{subst}
use automatebro.Records.{Text, EventRecord, Automation, Intent}
use automatebro.Action.{
  Env, Trace, Result, Result-cases, ok, err, inserted, jobs, ◌>>=◌, continue, ask,
}
use automatebro.Ai.Classify.{
  ClassifyIntentResult, classify_event_intent, jobs-classify_event_intent,
  inserted-classify_event_intent,
}
use automatebro.Processing.Loop.{
  Counts, zero_counts, for_each, Paired, Progress, Progress-from, for_each-Keeps, ok_injective,
}
use automatebro.Processing.Dm.{
  InboundMessage, Inbound, process_automation, match_automations, with_sender, with_account,
  process_dm_event, process_story_reply_event,
}
use automatebro.Processing.Dm.Kept.{IsFor, Kept, process_automation-Kept}

-- What a run that returns has done between two histories.
abbrev pub Ran : EventRecord → Option String → Option String → Counts → Trace → Trace → Type 0
Ran event tenant account r t t' =
    Progress 1 r t t' × All (IsFor tenant account (some event.id)) (inserted t')

module _ (env : Env) (lower : Text → Text) (trigger : String) where
  start : (t : Trace) → Paired t → Progress 1 zero_counts t t
  start t p = record { rows = omega arith; bounded = omega arith; paired = p }

  nothing :
      (tenant account event : Option String) (t : Trace) (r : Counts)
      → Paired t
      → All (IsFor tenant account event) (inserted t)
      → ok zero_counts ≡ ok r
      → Progress 1 r t t × All (IsFor tenant account event) (inserted t)
  nothing tenant account event t r p ours e =
      (subst (λ x. Progress 1 x t t) (ok_injective e) (start t p), ours)

  looped :
      (inbound : Inbound) (intent : Option Intent) (x : Result (List Automation)) (t : Trace)
      (r : Counts)
      → Paired t
      → All
          (IsFor (some inbound.tenant_id) (some inbound.ig_account_id) (some inbound.event_id))
          (inserted t)
      → let k =
          continue x
            (λ as_found.
              for_each (process_automation env lower inbound intent) as_found zero_counts)
            t in
        k.0 ≡ ok r
        → Progress 1 r t k.1
          × All
              (IsFor (some inbound.tenant_id) (some inbound.ig_account_id) (some inbound.event_id))
              (inserted k.1)
  looped inbound intent (err x) t r p ours e = cc
  looped inbound intent (ok automations) t r p ours e =
      let k =
        for_each-Keeps (Kept env lower inbound intent t)
          (process_automation env lower inbound intent)
          (process_automation-Kept env lower inbound intent t) automations zero_counts r t
          (record { progress = start t p; ours = ours }) e in
      (k.progress, k.ours)

  -- `t'` is `t` with what the classifier writes.
  classified_runs :
      (inbound : Inbound) (x : Result ClassifyIntentResult) (t t' : Trace) (r : Counts)
      → inserted t' ≡ inserted t
      → jobs t' ≡ jobs t
      → Paired t
      → All
          (IsFor (some inbound.tenant_id) (some inbound.ig_account_id) (some inbound.event_id))
          (inserted t)
      → let k =
          continue x
            (λ c.
              ask (λ t. env.query_automations t inbound.tenant_id inbound.ig_account_id trigger)
              >>= λ automations.
                  for_each (process_automation env lower inbound c.intent) automations zero_counts)
            t' in
        k.0 ≡ ok r
        → Progress 1 r t k.1
          × All
              (IsFor (some inbound.tenant_id) (some inbound.ig_account_id) (some inbound.event_id))
              (inserted k.1)
  classified_runs inbound (err x) t t' r i j p ours e = cc
  classified_runs inbound (ok c) t t' r i j p ours e =
      let (q, o) =
        looped inbound c.intent
          (env.query_automations t' inbound.tenant_id inbound.ig_account_id trigger) t' r
          (rw i (rw j p)) (rw i ours) e in
      (Progress-from 1 r t t' _ i q, o)

  matched_runs :
      (event : EventRecord) (inbound : Inbound) (t : Trace) (r : Counts)
      → Paired t
      → All
          (IsFor (some inbound.tenant_id) (some inbound.ig_account_id) (some inbound.event_id))
          (inserted t)
      → (match_automations env lower trigger event inbound t).0 ≡ ok r
      → Progress 1 r t (match_automations env lower trigger event inbound t).1
        × All
            (IsFor (some inbound.tenant_id) (some inbound.ig_account_id) (some inbound.event_id))
            (inserted (match_automations env lower trigger event inbound t).1)
  unfolding match_automations
  matched_runs event inbound t r p ours e =
      elim (Result-cases (env.count_sends t inbound.event_id)) [
        | inr (x, q) ↦ ground arith
        | inl (n, q) ↦ elim (Bool-cases (ltb 0 n)) [
          | inl again ↦
              rw (q, again, match_automations)
                (nothing _ _ _ t r p ours (rw (q, again, match_automations) at e))
          | inr first ↦
              rw (q, first, match_automations)
                (classified_runs inbound (classify_event_intent env lower event t).0 t
                  (classify_event_intent env lower event t).1 r
                  (inserted-classify_event_intent env lower event t)
                  (jobs-classify_event_intent env lower event t) p ours
                  (rw (q, first, match_automations) at e))
        ]
      ]

  sender_runs :
      (event : EventRecord) (tenant account : String) (text username : Text) (psid : Option String)
      (t : Trace) (r : Counts)
      → Paired t
      → All (IsFor (some tenant) (some account) (some event.id)) (inserted t)
      → (with_sender env lower trigger event tenant account text username psid t).0 ≡ ok r
      → Ran event
          (some tenant)
          (some account)
          r
          t
          (with_sender env lower trigger event tenant account text username psid t).1
  unfolding with_sender
  sender_runs event tenant account text username none t r p ours e = nothing _ _ _ t r p ours e
  sender_runs event tenant account text username (some psid) t r p ours e =
      elim (Bool-cases (length text == 0)) [
        | inl empty ↦ rw empty (nothing _ _ _ t r p ours (rw empty at e))
        | inr words ↦ rw words (matched_runs event _ t r p ours (rw words at e))
      ]

  account_runs :
      (event : EventRecord) (m : InboundMessage) (tenant account : Option String) (t : Trace)
      (r : Counts)
      → Paired t
      → All (IsFor tenant account (some event.id)) (inserted t)
      → (with_account env lower trigger event m tenant account t).0 ≡ ok r
      → Ran event tenant account r t (with_account env lower trigger event m tenant account t).1
  unfolding with_account
  account_runs event m none account t r p ours e = nothing _ _ _ t r p ours e
  account_runs event m (some tenant) none t r p ours e = nothing _ _ _ t r p ours e
  account_runs event m (some tenant) (some account) t r p ours e =
      sender_runs event tenant account (or_default event.message_text [])
        (or_default m.sender_username []) m.sender_id t r p ours e

module _ (env : Env) (lower : Text → Text) (event : EventRecord) (m : InboundMessage)
    (t : Trace) where
  -- A run of processDmEvent that returns, from a history whose rows are the event's and match the
  -- jobs in order, has inserted just as many rows as it says it enqueued, at most one for each
  -- match, still matches rows and jobs in order, and every row is queued for the event's tenant,
  -- account and event.
  pub process_dm_event_runs :
      (r : Counts)
      → Paired t
      → All (IsFor event.tenant_id event.ig_account_id (some event.id)) (inserted t)
      → (process_dm_event env lower event m t).0 ≡ ok r
      → Ran event event.tenant_id event.ig_account_id r t (process_dm_event env lower event m t).1
  unfolding process_dm_event
  process_dm_event_runs r p ours e =
      account_runs env lower "dm" event m event.tenant_id event.ig_account_id t r p ours e

  -- A run of processStoryReplyEvent that returns, from a history whose rows are the event's and
  -- match the jobs in order, has inserted just as many rows as it says it enqueued, at most one for
  -- each match, still matches rows and jobs in order, and every row is queued for the event's
  -- tenant, account and event.
  pub process_story_reply_event_runs :
      (r : Counts)
      → Paired t
      → All (IsFor event.tenant_id event.ig_account_id (some event.id)) (inserted t)
      → (process_story_reply_event env lower event m t).0 ≡ ok r
      → Ran event event.tenant_id event.ig_account_id r t
          (process_story_reply_event env lower event m t).1
  unfolding process_story_reply_event
  process_story_reply_event_runs r p ours e =
      account_runs env lower "storyReply" event m event.tenant_id event.ig_account_id t r p ours e

  -- A run of processDmEvent for an event that has a tenant, an account and rows already returns
  -- with nothing matched and writes nothing.
  pub process_dm_event_again :
      (tenant account : String) (n : ℕ)
      → event.tenant_id ≡ some tenant
      → event.ig_account_id ≡ some account
      → env.count_sends t event.id ≡ ok n
      → 0 < n
      → process_dm_event env lower event m t ≡ (ok zero_counts, t)
  unfolding process_dm_event
  process_dm_event_again tenant account n et ea c pos = rw (et, ea) (ground (arith, c, pos))
