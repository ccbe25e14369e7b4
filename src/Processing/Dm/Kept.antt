-- ===== src/Processing/Dm/Kept.antt =====
-- What an iteration of the direct-message handlers keeps.
use automatebro.Prelude.{
  String, ◌≡◌, refl, Option, none, some, arith, length, All, Bool-cases, ◌==◌, ◌&&◌, not, inl, inr,
}
use automatebro.Records.{Text, Send, queued, Automation, Trigger, Intent, ResponseRecord}
use automatebro.Action.{Env, Trace, Result, ok, err, inserted, send_id_of, continue}
use automatebro.Matching.{keyword_hit, intent_gate_allows}
use automatebro.Processing.Loop.{Counts, Progress, Keeps}
use automatebro.Processing.Dm.{
  Inbound, is_ai, content_for, dm_job, create_send, respond, process_automation, one_matched,
}

-- A row that an event's handler may add: it waits to be sent, for the event's tenant and account.
pub record IsFor (tenant account event : Option String) (s : Send) : Type 0 where
  pub waiting : s.status ≡ queued
  pub of_tenant : s.tenant_id ≡ tenant
  pub of_account : s.ig_account_id ≡ account
  pub of_event : s.event_id ≡ event

pub dm_job-id :
    (inbound : Inbound) (response : ResponseRecord) (content : Text) (a id : String)
    → send_id_of (dm_job inbound response content a id) ≡ id
unfolding dm_job
dm_job-id inbound response content a id = ground arith

module _ (env : Env) (lower : Text → Text) (inbound : Inbound) (intent : Option Intent)
    (t0 : Trace) where
  -- What the loop keeps: the counters agree with the history, and the rows are the event's.
  pub record Kept (r : Counts) (t : Trace) : Type 0 where
    pub progress : Progress 1 r t0 t
    pub ours :
        All
          (IsFor (some inbound.tenant_id) (some inbound.ig_account_id) (some inbound.event_id))
          (inserted t)

  create_send-Kept :
      (response : ResponseRecord) (content : Text) (a : String) (r r' : Counts) (t : Trace)
      → Kept r t
      → (create_send env inbound response content a (one_matched r) t).0 ≡ ok r'
      → Kept r' (create_send env inbound response content a (one_matched r) t).1
  unfolding create_send
  create_send-Kept response content a r r' t k e =
      ground (arith, dm_job-id inbound response content a (env.random t))

  respond-Kept :
      (a : String) (response : Option ResponseRecord) (r r' : Counts) (t : Trace)
      → Kept r t
      → (respond env inbound a response (one_matched r) t).0 ≡ ok r'
      → Kept r' (respond env inbound a response (one_matched r) t).1
  unfolding respond
  respond-Kept a none r r' t k e = ground arith
  respond-Kept a (some response) r r' t k e =
      elim (Bool-cases (length (content_for inbound response) == 0 && not (is_ai response))) [
        | inl silent ↦ rw silent (ground arith)
        | inr speaks ↦
            rw speaks
              (create_send-Kept response (content_for inbound response) a r r' t k (rw speaks at e))
      ]

  asked-Kept :
      (a : String) (x : Result (Option ResponseRecord)) (r r' : Counts) (t : Trace)
      → Kept r t
      → (continue x (λ response. respond env inbound a response (one_matched r)) t).0 ≡ ok r'
      → Kept r' (continue x (λ response. respond env inbound a response (one_matched r)) t).1
  asked-Kept a (ok response) r r' t k e = respond-Kept a response r r' t k e
  asked-Kept a (err x) r r' t k e = cc

  triggered-Kept :
      (a : Automation) (x : Result (Option Trigger)) (r r' : Counts) (t : Trace)
      → env.query_trigger t a.id ≡ x
      → Kept r t
      → (process_automation env lower inbound intent a r t).0 ≡ ok r'
      → Kept r' (process_automation env lower inbound intent a r t).1
  unfolding process_automation
  triggered-Kept a (err x) r r' t q k e = ground arith
  triggered-Kept a (ok none) r r' t q k e = ground arith
  triggered-Kept a (ok (some tr)) r r' t q k e =
      elim (Bool-cases
        (keyword_hit lower tr inbound.text && intent_gate_allows tr.intents intent)) [
          | inr silent ↦ ground arith
          | inl fires ↦
              rw (q, fires, process_automation)
                (asked-Kept a.id (env.query_response t a.id) r r' t k
                  (rw (q, fires, process_automation) at e))
        ]

  pub process_automation-Kept : Keeps Kept (process_automation env lower inbound intent)
  process_automation-Kept a r r' t k e = triggered-Kept a (env.query_trigger t a.id) r r' t refl k e
