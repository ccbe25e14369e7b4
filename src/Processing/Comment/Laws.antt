-- ===== src/Processing/Comment/Laws.antt =====
-- What a run of the comment handler adds to the database and the queue.
use mathlib.Core.Path.{subst}
use automatebro.Prelude.{
  String, ◌≡◌, refl, Option, none, some, List, [], arith, length, All, Bool-cases, or_default, ◌==◌,
  inl, inr,
}
use automatebro.Records.{Text, EventRecord, Automation, Intent}
use automatebro.Action.{Env, Trace, Result, ok, err, inserted, jobs, ask, ◌>>=◌, continue}
use automatebro.Ai.Classify.{
  ClassifyIntentResult, classify_event_intent, jobs-classify_event_intent,
  inserted-classify_event_intent,
}
use automatebro.Processing.Loop.{
  Counts, zero_counts, for_each, Paired, Progress, Progress-from, for_each-Keeps, ok_injective,
}
use automatebro.Processing.Dm.{Inbound}
use automatebro.Processing.Dm.Kept.{IsFor}
use automatebro.Processing.Comment.{
  CommentPayload, process_automation, match_automations, with_sender, with_account,
  process_comment_event,
}
use automatebro.Processing.Comment.Kept.{Kept, process_automation-Kept}

-- What a run that returns has done between two histories.
abbrev pub Ran : EventRecord → Option String → Option String → Counts → Trace → Trace → Type 0
Ran event tenant account r t t' =
    Progress 2 r t t' × All (IsFor tenant account (some event.id)) (inserted t')

module _ (env : Env) (lower : Text → Text) where
  start : (t : Trace) → Paired t → Progress 2 zero_counts t t
  start t p = record { rows = omega arith; bounded = omega arith; paired = p }

  nothing :
      (tenant account : Option String) (event : EventRecord) (t : Trace) (r : Counts)
      → Paired t
      → All (IsFor tenant account (some event.id)) (inserted t)
      → ok zero_counts ≡ ok r
      → Ran event tenant account r t t
  nothing tenant account event t r p ours e =
      (subst (λ x. Progress 2 x t t) (ok_injective e) (start t p), ours)

  looped :
      (event : EventRecord) (inbound : Inbound) (post comment : Option String)
      (intent : Option Intent) (x : Result (List Automation)) (t : Trace) (r : Counts)
      → Paired t
      → All
          (IsFor (some inbound.tenant_id) (some inbound.ig_account_id) (some inbound.event_id))
          (inserted t)
      → inbound.event_id ≡ event.id
      → let k =
          continue x
            (λ as_found.
              for_each
                (process_automation env lower inbound post comment intent)
                as_found
                zero_counts)
            t in
        k.0 ≡ ok r → Ran event (some inbound.tenant_id) (some inbound.ig_account_id) r t k.1
  looped event inbound post comment intent (err x) t r p ours same e = cc
  looped event inbound post comment intent (ok automations) t r p ours same e =
      let k =
        for_each-Keeps (Kept env lower inbound post comment intent t 0)
          (process_automation env lower inbound post comment intent)
          (process_automation-Kept env lower inbound post comment intent t) automations zero_counts
          r t (record { progress = start t p; room = omega arith; ours = ours }) e in
      (k.progress, rw (← same) k.ours)

  -- `t'` is `t` with what the classifier writes.
  classified_runs :
      (event : EventRecord) (inbound : Inbound) (post comment : Option String)
      (x : Result ClassifyIntentResult) (t t' : Trace) (r : Counts)
      → inserted t' ≡ inserted t
      → jobs t' ≡ jobs t
      → Paired t
      → All
          (IsFor (some inbound.tenant_id) (some inbound.ig_account_id) (some inbound.event_id))
          (inserted t)
      → inbound.event_id ≡ event.id
      → let k =
          continue x
            (λ c.
              ask (λ t. env.query_automations t inbound.tenant_id inbound.ig_account_id "comment")
              >>= λ automations.
                  for_each
                    (process_automation env lower inbound post comment c.intent)
                    automations
                    zero_counts)
            t' in
        k.0 ≡ ok r → Ran event (some inbound.tenant_id) (some inbound.ig_account_id) r t k.1
  classified_runs event inbound post comment (err x) t t' r i j p ours same e = cc
  classified_runs event inbound post comment (ok c) t t' r i j p ours same e =
      let (q, o) =
        looped event inbound post comment c.intent
          (env.query_automations t' inbound.tenant_id inbound.ig_account_id "comment") t' r
          (rw i (rw j p)) (rw i ours) same e in
      (Progress-from 2 r t t' _ i q, o)

  matched_runs :
      (event : EventRecord) (inbound : Inbound) (post comment : Option String) (t : Trace)
      (r : Counts)
      → Paired t
      → All
          (IsFor (some inbound.tenant_id) (some inbound.ig_account_id) (some inbound.event_id))
          (inserted t)
      → inbound.event_id ≡ event.id
      → (match_automations env lower event inbound post comment t).0 ≡ ok r
      → Ran event
          (some inbound.tenant_id)
          (some inbound.ig_account_id)
          r
          t
          (match_automations env lower event inbound post comment t).1
  unfolding match_automations
  matched_runs event inbound post comment t r p ours same e =
      classified_runs event inbound post comment (classify_event_intent env lower event t).0 t
        (classify_event_intent env lower event t).1 r
        (inserted-classify_event_intent env lower event t)
        (jobs-classify_event_intent env lower event t) p ours same e

  sender_runs :
      (event : EventRecord) (tenant account : String) (m : CommentPayload) (text : Text)
      (psid : Option String) (t : Trace) (r : Counts)
      → Paired t
      → All (IsFor (some tenant) (some account) (some event.id)) (inserted t)
      → (with_sender env lower event tenant account m text psid t).0 ≡ ok r
      → Ran event
          (some tenant)
          (some account)
          r
          t
          (with_sender env lower event tenant account m text psid t).1
  unfolding with_sender
  sender_runs event tenant account m text none t r p ours e = nothing _ _ event t r p ours e
  sender_runs event tenant account m text (some psid) t r p ours e =
      elim (Bool-cases (length text == 0)) [
        | inl empty ↦ rw empty (nothing _ _ event t r p ours (rw empty at e))
        | inr words ↦
            rw words (matched_runs event _ m.media_id m.comment_id t r p ours refl (rw words at e))
      ]

  account_runs :
      (event : EventRecord) (m : CommentPayload) (tenant account : Option String) (t : Trace)
      (r : Counts)
      → Paired t
      → All (IsFor tenant account (some event.id)) (inserted t)
      → (with_account env lower event m tenant account t).0 ≡ ok r
      → Ran event tenant account r t (with_account env lower event m tenant account t).1
  unfolding with_account
  account_runs event m none account t r p ours e = nothing _ _ event t r p ours e
  account_runs event m (some tenant) none t r p ours e = nothing _ _ event t r p ours e
  account_runs event m (some tenant) (some account) t r p ours e =
      sender_runs event tenant account m (or_default event.comment_text []) m.from_id t r p ours e

  -- A run of processCommentEvent that returns, from a history whose rows are the event's and match
  -- the jobs in order, has inserted just as many rows as it says it enqueued, at most two for each
  -- match, still matches rows and jobs in order, and every row is queued for the event's tenant,
  -- account and event.
  pub process_comment_event_runs :
      (event : EventRecord) (m : CommentPayload) (t : Trace) (r : Counts)
      → Paired t
      → All (IsFor event.tenant_id event.ig_account_id (some event.id)) (inserted t)
      → (process_comment_event env lower event m t).0 ≡ ok r
      → Ran event event.tenant_id event.ig_account_id r t
          (process_comment_event env lower event m t).1
  unfolding process_comment_event
  process_comment_event_runs event m t r p ours e =
      account_runs event m event.tenant_id event.ig_account_id t r p ours e
