-- ===== src/Processing/Comment/Kept.antt =====
-- What an iteration of the comment handler keeps.
use automatebro.Prelude.{
  ℕ, ◌+◌, ◌*◌, ◌≤◌, String, ◌≡◌, refl, Option, none, some, arith, All, Bool-cases, ◌&&◌, inl, inr,
}
use automatebro.Records.{Text, Automation, Trigger, Intent, ResponseRecord}
use automatebro.Action.{Env, Trace, Result, ok, err, inserted, continue}
use automatebro.Matching.{keyword_hit, intent_gate_allows, in_post_scope}
use automatebro.Processing.Loop.{Counts, Progress, Keeps}
use automatebro.Processing.Dm.{Inbound, content_for, one_matched}
use automatebro.Processing.Dm.Kept.{IsFor, dm_job-id}
use automatebro.Processing.Comment.{reply_with, send_content, respond, process_automation}

module _ (env : Env) (lower : Text → Text) (inbound : Inbound) (post comment : Option String)
    (intent : Option Intent) (t0 : Trace) where
  -- What the loop keeps, with `spare` rows that the matches so far may still add.
  pub record Kept (spare : ℕ) (r : Counts) (t : Trace) : Type 0 where
    pub progress : Progress 2 r t0 t
    pub room : r.enqueued + spare ≤ 2 * r.matched
    pub ours :
        All
          (IsFor (some inbound.tenant_id) (some inbound.ig_account_id) (some inbound.event_id))
          (inserted t)

  reply_with-Kept :
      (text : Option Text) (id : Option String) (a : String) (r r' : Counts) (t : Trace)
      → Kept 1 r t
      → (reply_with env inbound text id a r t).0 ≡ ok r'
      → Kept 0 r' (reply_with env inbound text id a r t).1
  unfolding reply_with
  reply_with-Kept (some text) (some id) a r r' t k e = ground arith
  reply_with-Kept (some text) none a r r' t k e = ground arith
  reply_with-Kept none id a r r' t k e = ground arith

  send_content-Kept :
      (response : ResponseRecord) (a : String) (r r' : Counts) (t : Trace)
      → Kept 2 r t
      → (send_content env inbound response a r t).0 ≡ ok r'
      → Kept 1 r' (send_content env inbound response a r t).1
  unfolding send_content
  send_content-Kept response a r r' t k e =
      ground (arith, dm_job-id inbound response (content_for inbound response) a (env.random t))

  then_reply :
      (response : ResponseRecord) (a : String) (x : Result Counts) (r' : Counts) (t : Trace)
      → ((r : Counts) → x ≡ ok r → Kept 1 r t)
      → (continue x (λ r. reply_with env inbound response.comment_reply comment a r) t).0 ≡ ok r'
      → Kept 0 r' (continue x (λ r. reply_with env inbound response.comment_reply comment a r) t).1
  then_reply response a (ok r) r' t k e =
      reply_with-Kept response.comment_reply comment a r r' t (k r refl) e
  then_reply response a (err x) r' t k e = cc

  respond-Kept :
      (a : String) (response : Option ResponseRecord) (r r' : Counts) (t : Trace)
      → Kept 0 r t
      → (respond env inbound comment a response (one_matched r) t).0 ≡ ok r'
      → Kept 0 r' (respond env inbound comment a response (one_matched r) t).1
  unfolding respond
  respond-Kept a none r r' t k e = ground arith
  respond-Kept a (some response) r r' t k e =
      let k2 : Kept 2 (one_matched r) t = ground arith in
      then_reply response a (send_content env inbound response a (one_matched r) t).0 r'
        (send_content env inbound response a (one_matched r) t).1
        (λ r1 e1. send_content-Kept response a (one_matched r) r1 t k2 e1) e

  asked-Kept :
      (a : String) (x : Result (Option ResponseRecord)) (r r' : Counts) (t : Trace)
      → Kept 0 r t
      → (continue x (λ response. respond env inbound comment a response (one_matched r)) t).0
        ≡ ok r'
      → Kept 0 r'
          (continue x (λ response. respond env inbound comment a response (one_matched r)) t).1
  asked-Kept a (ok response) r r' t k e = respond-Kept a response r r' t k e
  asked-Kept a (err x) r r' t k e = cc

  triggered-Kept :
      (a : Automation) (x : Result (Option Trigger)) (r r' : Counts) (t : Trace)
      → env.query_trigger t a.id ≡ x
      → Kept 0 r t
      → (process_automation env lower inbound post comment intent a r t).0 ≡ ok r'
      → Kept 0 r' (process_automation env lower inbound post comment intent a r t).1
  unfolding process_automation
  triggered-Kept a (err x) r r' t q k e = ground arith
  triggered-Kept a (ok none) r r' t q k e = ground arith
  triggered-Kept a (ok (some tr)) r r' t q k e =
      elim (Bool-cases (
        in_post_scope tr.post_ids post
        && (keyword_hit lower tr inbound.text && intent_gate_allows tr.intents intent))) [
          | inr silent ↦ ground arith
          | inl fires ↦
              rw (q, fires, process_automation)
                (asked-Kept a.id (env.query_response t a.id) r r' t k
                  (rw (q, fires, process_automation) at e))
        ]

  pub process_automation-Kept :
      Keeps (Kept 0) (process_automation env lower inbound post comment intent)
  process_automation-Kept a r r' t k e = triggered-Kept a (env.query_trigger t a.id) r r' t refl k e
