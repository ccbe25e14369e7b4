-- ===== src/Processing/Whatsapp/Kept.antt =====
-- What an iteration of the WhatsApp handler keeps.
use automatebro.Prelude.{
  String, ◌≡◌, refl, Option, none, some, arith, length, All, Bool-cases, ◌==◌, ◌&&◌, not, inl, inr,
}
use automatebro.Records.{Text, Send, queued, Automation, Trigger, ResponseRecord}
use automatebro.Action.{Env, Trace, Result, ok, err, inserted, send_id_of, continue}
use automatebro.Matching.{keyword_hit}
use automatebro.Processing.Loop.{Counts, Progress, Keeps}
use automatebro.Processing.Dm.{is_ai, one_matched}
use automatebro.Processing.Whatsapp.Lead.{Message}
use automatebro.Processing.Whatsapp.{
  is_null, content_for, whatsapp_job, create_send, respond, process_automation,
}

-- A row that the handler may add: it waits to be sent, for the event's tenant and WhatsApp account, to
-- the number that the event came from.
pub record IsReply (tenant account phone event : Option String) (s : Send) : Type 0 where
  pub waiting : s.status ≡ queued
  pub of_tenant : s.tenant_id ≡ tenant
  pub of_account : s.whatsapp_account_id ≡ account
  pub to_sender : s.recipient_phone ≡ phone
  pub of_event : s.event_id ≡ event

abbrev pub Ours : Message → Trace → Type 0
Ours m t =
    All (IsReply (some m.tenant_id) (some m.whatsapp_account_id) (some m.phone) (some m.event_id))
      (inserted t)

whatsapp_job-id :
    (m : Message) (response : ResponseRecord) (content : Text) (a id : String)
    → send_id_of (whatsapp_job m response content a id) ≡ id
unfolding whatsapp_job
whatsapp_job-id m response content a id = ground arith

module _ (env : Env) (lower : Text → Text) (m : Message) (username : Text) (t0 : Trace) where
  -- What the loop keeps.
  pub record Kept (r : Counts) (t : Trace) : Type 0 where
    pub progress : Progress 1 r t0 t
    pub ours : Ours m t

  create_send-Kept :
      (response : ResponseRecord) (content : Text) (a : String) (r r' : Counts) (t : Trace)
      → Kept r t
      → (create_send env m response content a (one_matched r) t).0 ≡ ok r'
      → Kept r' (create_send env m response content a (one_matched r) t).1
  unfolding create_send
  create_send-Kept response content a r r' t k e =
      ground (arith, whatsapp_job-id m response content a (env.random t))

  respond-Kept :
      (a : String) (response : Option ResponseRecord) (r r' : Counts) (t : Trace)
      → Kept r t
      → (respond env m username a response (one_matched r) t).0 ≡ ok r'
      → Kept r' (respond env m username a response (one_matched r) t).1
  unfolding respond
  respond-Kept a none r r' t k e = ground arith
  respond-Kept a (some response) r r' t k e =
      elim (Bool-cases (
        length (content_for m username response) == 0
        && (not (is_ai response) && is_null response.whatsapp_template_id))) [
          | inl silent ↦ rw silent (ground arith)
          | inr speaks ↦ rw speaks (
              create_send-Kept response (content_for m username response) a r r' t k
                (rw speaks at e))
        ]

  asked-Kept :
      (a : String) (x : Result (Option ResponseRecord)) (r r' : Counts) (t : Trace)
      → Kept r t
      → (continue x (λ response. respond env m username a response (one_matched r)) t).0 ≡ ok r'
      → Kept r' (continue x (λ response. respond env m username a response (one_matched r)) t).1
  asked-Kept a (ok response) r r' t k e = respond-Kept a response r r' t k e
  asked-Kept a (err x) r r' t k e = cc

  triggered-Kept :
      (a : Automation) (x : Result (Option Trigger)) (r r' : Counts) (t : Trace)
      → env.query_trigger t a.id ≡ x
      → Kept r t
      → (process_automation env lower m username a r t).0 ≡ ok r'
      → Kept r' (process_automation env lower m username a r t).1
  unfolding process_automation
  triggered-Kept a (err x) r r' t q k e = ground arith
  triggered-Kept a (ok none) r r' t q k e = ground arith
  triggered-Kept a (ok (some tr)) r r' t q k e = elim (Bool-cases (keyword_hit lower tr m.text)) [
    | inr silent ↦ ground arith
    | inl fires ↦
        rw (q, fires, process_automation)
          (asked-Kept a.id (env.query_response t a.id) r r' t k
            (rw (q, fires, process_automation) at e))
  ]

  pub process_automation-Kept : Keeps Kept (process_automation env lower m username)
  process_automation-Kept a r r' t k e = triggered-Kept a (env.query_trigger t a.id) r r' t refl k e
