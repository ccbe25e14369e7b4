-- ===== src/SendWhatsapp/Cleared.antt =====
-- The gates together: what is known of a job whose run has made a request to Meta.
use automatebro.Prelude.{
  ◌<◌, String, ◌≡◌, refl, ◌⊎◌, inl, inr, false, Option, none, some, arith, leb, Bool-cases,
  Option-cases,
}
use automatebro.Records.{Send, queued, Lead, WhatsappAccount, WhatsappCosts}
use automatebro.Action.{Env, Trace, Result, ok, err, posts, or_null}
use automatebro.Calendar.{month_of}
use automatebro.SendWhatsapp.Cost.{count_todays_conversations}
use automatebro.SendWhatsapp.Quiet.{posts-refuse}
use automatebro.SendWhatsapp.Gates.{OptedIn, conversations_of, Chosen, posts-choose_mode}
use automatebro.SendWhatsapp.{
  SendWhatsappInput, Job, is_queued, has_opted_out, check_cap, check_opt_out, check_account,
  load_account, on_row, send_whatsapp,
}

module _ (env : Env) (input : SendWhatsappInput) where
  abbrev pub recipient : Job → Trace → Option Lead
  recipient job t = or_null (env.query_lead t job.tenant input.recipient_phone)

  abbrev pub costs_of : Job → Trace → Option WhatsappCosts
  costs_of job t = or_null (env.query_costs t job.tenant job.account.id (month_of (env.clock t)))

  abbrev pub UnderCap : Job → Trace → Type 0
  UnderCap job t = conversations_of (costs_of job t) < job.account.daily_conversation_cap

  -- What the gates establish when the handler starts at `t` and its history is `t'` at the end.
  pub record Cleared (t t' : Trace) : Type 0 where
    pub job : Job
    pub loaded : env.query_send t input.send_id ≡ ok (some job.send)
    pub waiting : job.send.status ≡ queued
    pub of_tenant : job.send.tenant_id ≡ some job.tenant
    pub account : env.query_whatsapp_account t input.whatsapp_account_id ≡ ok (some job.account)
    pub connected : job.account.disconnected_at ≡ none
    pub opted_in : OptedIn (recipient job t)
    pub under_cap : UnderCap job t
    pub chosen : Chosen env input job (recipient job t) t t'

  count-eq :
      (job : Job) (t : Trace)
      → count_todays_conversations env job.tenant job.account.id t
        ≡ (ok (conversations_of (costs_of job t)), t)
  unfolding count_todays_conversations
  count-eq job t = ground arith

  posts-check_cap :
      (job : Job) (lead : Option Lead) (t : Trace)
      → (posts (check_cap env input job lead t).1 ≡ posts t)
        ⊎ (UnderCap job t × Chosen env input job lead t (check_cap env input job lead t).1)
  unfolding check_cap
  posts-check_cap job lead t =
      rw (count-eq job t)
        (elim (Bool-cases
          (leb job.account.daily_conversation_cap (conversations_of (costs_of job t)))) [
            | inl full ↦ inl (rw full (posts-refuse env t _ _))
            | inr room ↦ rw room (elim (posts-choose_mode env input job lead t) [
              | inl same ↦ inl same
              | inr sends ↦ inr (ground arith, sends)
            ])
          ])

  posts-check_opt_out :
      (job : Job) (t : Trace)
      → (posts (check_opt_out env input job t).1 ≡ posts t)
        ⊎ (OptedIn (recipient job t)
            × UnderCap job t
            × Chosen env input job (recipient job t) t (check_opt_out env input job t).1)
  unfolding check_opt_out
  posts-check_opt_out job t = elim (Bool-cases (has_opted_out (recipient job t))) [
    | inl out ↦ inl (rw out (posts-refuse env t _ _))
    | inr still_in ↦ rw still_in (elim (posts-check_cap job (recipient job t) t) [
      | inl same ↦ inl same
      | inr (u, c) ↦ inr (opted_in (recipient job t) still_in, u, c)
    ])
  ]
    where
      opted_in : (l : Option Lead) → has_opted_out l ≡ false → OptedIn l
      opted_in none h = tt
      opted_in (some l) h = ground arith

  posts-check_account :
      (send : Send) (tenant : String) (found : Option WhatsappAccount) (t : Trace)
      → env.query_send t input.send_id ≡ ok (some send)
      → send.status ≡ queued
      → send.tenant_id ≡ some tenant
      → env.query_whatsapp_account t input.whatsapp_account_id ≡ ok found
      → (posts (check_account env input send tenant found t).1 ≡ posts t)
        ⊎ Cleared t (check_account env input send tenant found t).1
  unfolding check_account
  posts-check_account send tenant none t l w o a = inl (posts-refuse env t _ _)
  posts-check_account send tenant (some account) t l w o a =
      elim (Option-cases account.disconnected_at) [
        | inr (at, gone) ↦ inl (rw (gone, check_account) (posts-refuse env t _ _))
        | inl here ↦
            let job : Job = record { send = send; tenant = tenant; account = account } in
            elim (posts-check_opt_out job t) [
              | inl same ↦ inl (rw (here, check_account) same)
              | inr (i, u, c) ↦ inr (record {
                job = job;
                loaded = l;
                waiting = w;
                of_tenant = o;
                account = a;
                connected = here;
                opted_in = i;
                under_cap = u;
                chosen = rw (here, check_account) c;
              })
            ]
      ]

  posts-load_account :
      (send : Send) (tenant own : Option String) (t : Trace)
      → env.query_send t input.send_id ≡ ok (some send)
      → send.status ≡ queued
      → send.tenant_id ≡ tenant
      → (posts (load_account env input send tenant own t).1 ≡ posts t)
        ⊎ Cleared t (load_account env input send tenant own t).1
  unfolding load_account
  posts-load_account send (some tenant) (some own) t l w o =
      asked (env.query_whatsapp_account t input.whatsapp_account_id) refl
    where
      asked :
          (r : Result (Option WhatsappAccount))
          → env.query_whatsapp_account t input.whatsapp_account_id ≡ r
          → (posts (load_account env input send (some tenant) (some own) t).1 ≡ posts t)
            ⊎ Cleared t (load_account env input send (some tenant) (some own) t).1
      asked (err x) e = inl (rw (e, load_account))
      asked (ok found) e = rw (e, load_account) (posts-check_account send tenant found t l w o e)
  posts-load_account send none own t l w o = inl refl
  posts-load_account send (some tenant) none t l w o = inl refl

  posts-on_row :
      (found : Option Send) (t : Trace)
      → env.query_send t input.send_id ≡ ok found
      → (posts (on_row env input found t).1 ≡ posts t) ⊎ Cleared t (on_row env input found t).1
  unfolding on_row
  posts-on_row none t l = inl refl
  posts-on_row (some send) t l = elim (Bool-cases (is_queued send.status)) [
    | inr not_queued ↦ inl (rw not_queued)
    | inl queued_row ↦
        rw queued_row
          (posts-load_account send send.tenant_id send.whatsapp_account_id t l (ground arith) refl)
  ]

  -- A run of sendWhatsapp makes no request to Meta, or every gate let it through: the row was
  -- queued and has a tenant, the account is there and connected, the recipient has not opted out,
  -- the counted conversations are below the account's cap, the template is approved or the free
  -- text is not empty and inside the 24 hours after the last inbound message, the limiter granted
  -- the attempt, the token decrypts, and the run makes just one request, for this row.
  pub posts-send_whatsapp :
      (t : Trace)
      → (posts (send_whatsapp env input t).1 ≡ posts t) ⊎ Cleared t (send_whatsapp env input t).1
  unfolding send_whatsapp
  posts-send_whatsapp t = asked (env.query_send t input.send_id) refl
    where
      asked :
          (r : Result (Option Send))
          → env.query_send t input.send_id ≡ r
          → (posts (send_whatsapp env input t).1 ≡ posts t)
            ⊎ Cleared t (send_whatsapp env input t).1
      asked (err x) e = inl (rw (e, send_whatsapp))
      asked (ok found) e = rw (e, send_whatsapp) (posts-on_row found t e)
