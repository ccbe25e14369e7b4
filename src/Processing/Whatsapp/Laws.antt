-- ===== src/Processing/Whatsapp/Laws.antt =====
-- What a run of the WhatsApp message handler adds to the database and the queue.
use automatebro.Prelude.{
  String, ◌≡◌, refl, sym, ◌∙◌, Bool, true, false, Option, none, some, List, [], arith, length,
  or_default, All, Bool-cases, ltb, ◌==◌, ◌&&◌, ◌||◌, not, inl, inr, str_eq,
}
use mathlib.Core.Path.{subst}
use automatebro.Records.{Text, EventRecord, Send, queued, Automation, Trigger, ResponseRecord}
use automatebro.Records
use automatebro.Action.{
  Env, Trace, Result, Result-cases, ok, err, inserted, jobs, ◌>>=◌, continue, pure,
}
use automatebro.Whatsapp.StopKeywords.{is_stop_keyword}
use automatebro.Processing.Loop.{
  Counts, zero_counts, for_each, Paired, Progress, Progress-from, for_each-Keeps,
}
use automatebro.Processing.Whatsapp.Lead.{Message, upsert_lead_on_inbound, record_opt_out}
use automatebro.Processing.Whatsapp.OptOut.{
  jobs-upsert, inserted-upsert, jobs-record_opt_out, inserted-record_opt_out,
}
use automatebro.Processing.Whatsapp.{
  WaPayload, WhatsappResult, nothing_done, process_automation, match_automations, on_lead,
  with_message, with_account, process_whatsapp_message_event,
}
use automatebro.Processing.Whatsapp.Kept.{IsReply, Ours, Kept, process_automation-Kept}

-- What a run that returns has done between two histories.
abbrev pub Replied :
    Option String → Option String → Option String → String → WhatsappResult → Trace → Trace → Type 0
Replied tenant account phone event w t t' =
    Progress 1 w.counts t t' × All (IsReply tenant account phone (some event)) (inserted t')

abbrev of_counts : Bool → Counts → WhatsappResult
of_counts opted_out r = record { counts = r; opted_out = opted_out }

counts_injective : {w w' : WhatsappResult} → ok w ≡ ok w' → w.counts ≡ w'.counts
counts_injective e = cc

start : (t : Trace) → Paired t → Progress 1 zero_counts t t
start t p = record { rows = omega arith; bounded = omega arith; paired = p }

unchanged :
    (t t' : Trace)
    → inserted t' ≡ inserted t
    → jobs t' ≡ jobs t
    → Paired t
    → Progress 1 zero_counts t t'
unchanged t t' i j p = record {
  rows = rw i (omega arith);
  bounded = omega arith;
  paired = rw i (rw j p);
}

still :
    (tenant account phone : Option String) (event : String) (t : Trace) (w0 w : WhatsappResult)
    → Paired t
    → All (IsReply tenant account phone (some event)) (inserted t)
    → w0.counts ≡ zero_counts
    → ok w0 ≡ ok w
    → Replied tenant account phone event w t t
still tenant account phone event t w0 w p ours z e =
    (subst (λ x. Progress 1 x t t) (sym z ∙ counts_injective e) (start t p), ours)

module _ (env : Env) (lower : Text → Text) where
  counted :
      (m : Message) (x : Result Counts) (t t' : Trace) (w : WhatsappResult)
      → ((r : Counts) → x ≡ ok r → Progress 1 r t t' × Ours m t')
      → let k = continue x (λ r. pure (of_counts false r)) t' in
        k.0 ≡ ok w
        → Replied (some m.tenant_id) (some m.whatsapp_account_id) (some m.phone) m.event_id w t k.1
  counted m (err x) t t' w looped e = cc
  counted m (ok r) t t' w looped e =
      let (progress, ours) = looped r refl in
      (subst (λ c. Progress 1 c t t') (counts_injective e) progress, ours)

  looped :
      (m : Message) (username : Text) (x : Result (List Automation)) (t : Trace)
      (w : WhatsappResult)
      → Paired t
      → Ours m t
      → let k =
          continue x
            (λ as_found.
              for_each (process_automation env lower m username) as_found zero_counts >>= λ r.
              pure (of_counts false r))
            t in
        k.0 ≡ ok w
        → Replied (some m.tenant_id) (some m.whatsapp_account_id) (some m.phone) m.event_id w t k.1
  looped m username (err x) t w p ours e = cc
  looped m username (ok automations) t w p ours e =
      let body = process_automation env lower m username in
      counted m (for_each body automations zero_counts t).0 t
        (for_each body automations zero_counts t).1 w
        (λ r o.
          let k =
            for_each-Keeps (Kept env lower m username t) body
              (process_automation-Kept env lower m username t) automations zero_counts r t
              (record { progress = start t p; ours = ours }) o in
          (k.progress, k.ours))
        e

  matched_runs :
      (m : Message) (username : Text) (t : Trace) (w : WhatsappResult)
      → Paired t
      → Ours m t
      → (match_automations env lower m username t).0 ≡ ok w
      → Replied
          (some m.tenant_id)
          (some m.whatsapp_account_id)
          (some m.phone)
          m.event_id
          w
          t
          (match_automations env lower m username t).1
  unfolding match_automations
  matched_runs m username t w p ours e = elim (Result-cases (env.count_sends t m.event_id)) [
    | inr (x, q) ↦ ground arith
    | inl (n, q) ↦ elim (Bool-cases (ltb 0 n)) [
      | inl again ↦
          rw (q, again, match_automations)
            (still _ _ _ _ t nothing_done w p ours refl (rw (q, again, match_automations) at e))
      | inr first ↦
          rw (q, first, match_automations)
            (looped m username
              (env.query_automations t m.tenant_id m.whatsapp_account_id "whatsappMessage") t w p
              ours (rw (q, first, match_automations) at e))
    ]
  ]

  opted_out_runs :
      (m : Message) (x : Result Unit) (t t' : Trace) (w : WhatsappResult)
      → inserted t' ≡ inserted t
      → jobs t' ≡ jobs t
      → Paired t
      → Ours m t
      → let k = continue x (λ _. pure (of_counts true zero_counts)) t' in
        k.0 ≡ ok w
        → Replied (some m.tenant_id) (some m.whatsapp_account_id) (some m.phone) m.event_id w t k.1
  opted_out_runs m (err x) t t' w i j p ours e = cc
  opted_out_runs m (ok x) t t' w i j p ours e =
      (subst (λ c. Progress 1 c t t') (counts_injective e) (unchanged t t' i j p), rw i ours)

  lead_runs :
      (m : Message) (type : String) (l : Option Records.Lead) (t : Trace) (w : WhatsappResult)
      → Paired t
      → Ours m t
      → (on_lead env lower m type l t).0 ≡ ok w
      → Replied
          (some m.tenant_id)
          (some m.whatsapp_account_id)
          (some m.phone)
          m.event_id
          w
          t
          (on_lead env lower m type l t).1
  unfolding on_lead
  lead_runs m type none t w p ours e = still _ _ _ _ t nothing_done w p ours refl e
  lead_runs m type (some l) t w p ours e =
      elim (Bool-cases (str_eq type "text" && is_stop_keyword lower (some m.text))) [
        | inl stops ↦ rw stops (
            opted_out_runs m (record_opt_out env m l t).0 t (record_opt_out env m l t).1 w
              (inserted-record_opt_out env t m l) (jobs-record_opt_out env t m l) p ours
              (rw stops at e))
        | inr goes_on ↦ elim (Bool-cases (not (str_eq type "text") || length m.text == 0)) [
          | inl empty ↦
              rw (goes_on, empty)
                (still _ _ _ _ t nothing_done w p ours refl (rw (goes_on, empty) at e))
          | inr words ↦
              rw (goes_on, words)
                (matched_runs m (or_default l.ig_username []) t w p ours (rw (goes_on, words) at e))
        ]
      ]

  -- `t'` is `t` with what the lead's upsert writes.
  upserted_runs :
      (m : Message) (type : String) (x : Result (Option Records.Lead)) (t t' : Trace)
      (w : WhatsappResult)
      → inserted t' ≡ inserted t
      → jobs t' ≡ jobs t
      → Paired t
      → Ours m t
      → (continue x (on_lead env lower m type) t').0 ≡ ok w
      → Replied
          (some m.tenant_id)
          (some m.whatsapp_account_id)
          (some m.phone)
          m.event_id
          w
          t
          (continue x (on_lead env lower m type) t').1
  upserted_runs m type (err x) t t' w i j p ours e = cc
  upserted_runs m type (ok l) t t' w i j p ours e =
      let (q, o) = lead_runs m type l t' w (rw (i, j) p) (rw i ours) e in
      (Progress-from 1 w.counts t t' _ i q, o)

  message_runs :
      (m : Message) (type : String) (t : Trace) (w : WhatsappResult)
      → Paired t
      → Ours m t
      → (with_message env lower m type t).0 ≡ ok w
      → Replied
          (some m.tenant_id)
          (some m.whatsapp_account_id)
          (some m.phone)
          m.event_id
          w
          t
          (with_message env lower m type t).1
  unfolding with_message
  message_runs m type t w p ours e = elim (Bool-cases (str_eq m.phone "")) [
    | inl nobody ↦ rw nobody (still _ _ _ _ t nothing_done w p ours refl (rw nobody at e))
    | inr somebody ↦ rw somebody (
        upserted_runs m type (upsert_lead_on_inbound env m none t).0 t
          (upsert_lead_on_inbound env m none t).1 w (inserted-upsert env t m) (jobs-upsert env t m)
          p ours (rw somebody at e))
  ]

  account_runs :
      (event : EventRecord) (payload : WaPayload) (tenant account : Option String) (t : Trace)
      (w : WhatsappResult)
      → Paired t
      → All
          (IsReply tenant account (some (or_default payload.sender "")) (some event.id))
          (inserted t)
      → (with_account env lower event payload tenant account t).0 ≡ ok w
      → Replied tenant account
          (some (or_default payload.sender ""))
          event.id
          w
          t
          (with_account env lower event payload tenant account t).1
  unfolding with_account
  account_runs event payload none account t w p ours e =
      still _ _ _ _ t nothing_done w p ours refl e
  account_runs event payload (some tenant) none t w p ours e =
      still _ _ _ _ t nothing_done w p ours refl e
  account_runs event payload (some tenant) (some account) t w p ours e =
      message_runs _ (or_default payload.type "") t w p ours e

  -- A run of processWhatsappMessageEvent that returns, from a history whose rows are replies to the
  -- event and match the jobs in order, has inserted just as many rows as it says it enqueued, at
  -- most one for each match, still matches rows and jobs in order, and every row is queued for the
  -- event's tenant and account, to the number of its sender.
  pub process_whatsapp_message_event_runs :
      (event : EventRecord) (payload : WaPayload) (t : Trace) (w : WhatsappResult)
      → Paired t
      → All
          (IsReply event.tenant_id event.whatsapp_account_id
            (some (or_default payload.sender ""))
            (some event.id))
          (inserted t)
      → (process_whatsapp_message_event env lower event payload t).0 ≡ ok w
      → Replied event.tenant_id event.whatsapp_account_id
          (some (or_default payload.sender ""))
          event.id
          w
          t
          (process_whatsapp_message_event env lower event payload t).1
  unfolding process_whatsapp_message_event
  process_whatsapp_message_event_runs event payload t w p ours e =
      account_runs event payload event.tenant_id event.whatsapp_account_id t w p ours e
