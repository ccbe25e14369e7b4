-- ===== src/Leads/Capture/Quiet.antt =====
-- A run of captureLead in a database that takes every write.
use automatebro.Prelude.{
  String, ◌≡◌, refl, Option, none, some, [], ◌∷◌, arith, inl, inr, Bool-cases, is_some, ◌||◌,
  length, ◌==◌, str_eq, or_default,
}
use automatebro.Records.{Text, EventRecord}
use automatebro.Action.{Env, Trace, Effect, LeadCapture, upsert_captured, Result, ok, jobs}
use automatebro.Leads.Capture.{
  captured, and_then, normalize_phone, Patterns, Sender, upsert, with_contact, with_text,
  with_account, capture_lead,
}

module _ (env : Env) (patterns : Patterns)
    (takes : (t : Trace) (e : Effect) → env.accepts t e ≡ ok tt) where
  -- Returns, and puts no job into the queue.
  abbrev pub Quiet : {A : Type 0} → Result A × Trace → Trace → Type 0
  Quiet r t = ((a : _) × (r.0 ≡ ok a)) × (jobs r.1 ≡ jobs t)

  Quiet-upsert :
      (tenant account sender : String) (username email phone : Option Text) (t : Trace)
      → Quiet (upsert env patterns tenant account sender username email phone t) t
  unfolding upsert
  Quiet-upsert tenant account sender username email phone t = rw (takes_so) ((_, refl), refl)
    where
      capture : LeadCapture
      capture = record {
        tenant_id = tenant;
        ig_account_id = account;
        ig_user_id = sender;
        seen_at = env.clock t;
        ig_username = username;
        email = email;
        phone = phone;
        new_id = env.random t;
      }

      takes_so : upsert env patterns tenant account sender username email phone t ≡ (
        ok (record { status = captured; email = email; phone = phone }),
        upsert_captured capture ∷ t,
      )
      takes_so = unfold upsert in ground (arith, takes t (upsert_captured capture))

  Quiet-with_text :
      (tenant account : String) (text : Text) (sender : String) (username : Option Text) (t : Trace)
      → Quiet (with_text env patterns tenant account text sender username t) t
  unfolding with_text with_contact
  Quiet-with_text tenant account text sender username t =
      elim (Bool-cases (length text == 0 || str_eq sender "")) [
        | inl e ↦ rw e ((_, refl), refl)
        | inr e ↦ rw e (elim (Bool-cases (is_some email || is_some phone)) [
          | inl c ↦ rw c (Quiet-upsert tenant account sender username email phone t)
          | inr c ↦ rw c ((_, refl), refl)
        ])
      ]
    where
      email : Option Text
      email = and_then (patterns.match_email text) (λ m. some (patterns.to_lower_case m))

      phone : Option Text
      phone = and_then (patterns.match_phone text) normalize_phone

  Quiet-with_account :
      (event : EventRecord) (sender : Sender) (tenant account : Option String) (t : Trace)
      → Quiet (with_account env patterns event sender tenant account t) t
  unfolding with_account
  Quiet-with_account event sender none account t = ((_, refl), refl)
  Quiet-with_account event sender (some tenant) none t = ((_, refl), refl)
  Quiet-with_account event sender (some tenant) (some account) t =
      Quiet-with_text tenant account (or_default event.message_text []) (or_default sender.id "")
        sender.username t

  pub Quiet-capture_lead :
      (event : EventRecord) (sender : Sender) (t : Trace)
      → Quiet (capture_lead env patterns event sender t) t
  unfolding capture_lead
  Quiet-capture_lead event sender t =
      Quiet-with_account event sender event.tenant_id event.ig_account_id t
