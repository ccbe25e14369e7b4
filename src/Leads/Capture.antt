-- ===== src/Leads/Capture.antt =====
-- packages/shared/src/handlers/captureLead.ts: contact details in a direct message. The two regular
-- expressions are JavaScript's, and enter as what `match` finds.
pub mod Laws
pub mod Quiet
use automatebro.Prelude.{
  ℕ, String, Bool, true, ◌&&◌, ◌||◌, Option, none, some, List, [], ◌∷◌, ltb, leb, ◌==◌, length,
  keep, is_some, or_default, str_eq, if◌then◌else◌,
}
use automatebro.Records.{Text, EventRecord}
use automatebro.Action.{Env, Action, upsert_captured, read, now, perform, pure, ◌>>=◌, ◌>>◌}
use automatebro.Text.{starts_with, trim}

pub data CaptureStatus : Type 0 where
  captured no_text no_email_or_phone no_tenant no_account : CaptureStatus

pub record CaptureLeadResult : Type 0 where
  pub status : CaptureStatus
  pub email : Option Text
  pub phone : Option Text

abbrev pub nothing_captured : CaptureStatus → CaptureLeadResult
nothing_captured status = record { status = status; email = none; phone = none }

-- `messaging.sender`
pub record Sender : Type 0 where
  pub id : Option String
  pub username : Option Text

-- `\d`
abbrev pub is_digit : ℕ → Bool
is_digit c = leb 48 c && leb c 57

abbrev pub plus : ℕ
plus = 43

-- The rest of `normalizePhone`, for the trimmed text.
unfoldable pub canonical : Text → Option Text
canonical trimmed =
    let digits = keep is_digit trimmed in
    if ltb (length digits) 10 || ltb 15 (length digits)
    then none
    else if starts_with trimmed (plus ∷ [])
    then some (plus ∷ digits)
    else some digits

unfoldable pub normalize_phone : Text → Option Text
normalize_phone raw = canonical (trim raw)

abbrev pub and_then {ℓ κ} : {A : Type ℓ} {B : Type κ} → Option A → (A → Option B) → Option B
and_then none f = none
and_then (some a) f = f a

-- `EMAIL_REGEX` and `PHONE_REGEX`: the first match in a text.
pub record Patterns : Type 0 where
  pub match_email : Text → Option Text
  pub match_phone : Text → Option Text
  pub to_lower_case : Text → Text

module _ (env : Env) (patterns : Patterns) where
  upsert :
      String → String → String → Option Text → Option Text → Option Text → Action CaptureLeadResult
  upsert tenant account sender username email phone = do
    time ← now env
    id ← read env.random
    perform env (
        upsert_captured (record {
          tenant_id = tenant;
          ig_account_id = account;
          ig_user_id = sender;
          seen_at = time;
          ig_username = username;
          email = email;
          phone = phone;
          new_id = id;
        }))
    pure (record { status = captured; email = email; phone = phone })

  with_contact :
      String → String → String → Option Text → Option Text → Option Text → Action CaptureLeadResult
  unfolding upsert
  with_contact tenant account sender username email phone =
      if is_some email || is_some phone
      then upsert tenant account sender username email phone
      else pure (nothing_captured no_email_or_phone)

  with_text : String → String → Text → String → Option Text → Action CaptureLeadResult
  unfolding with_contact normalize_phone
  with_text tenant account text sender username =
      if length text == 0 || str_eq sender ""
      then pure (nothing_captured no_text)
      else with_contact tenant account sender username
          (and_then (patterns.match_email text) (λ m. some (patterns.to_lower_case m)))
          (and_then (patterns.match_phone text) normalize_phone)

  with_account : EventRecord → Sender → Option String → Option String → Action CaptureLeadResult
  unfolding with_text
  with_account event sender none account = pure (nothing_captured no_tenant)
  with_account event sender (some tenant) none = pure (nothing_captured no_account)
  with_account event sender (some tenant) (some account) =
      with_text tenant account (or_default event.message_text []) (or_default sender.id "")
        sender.username

  unfoldable pub capture_lead : EventRecord → Sender → Action CaptureLeadResult
  unfolding with_account
  capture_lead event sender = with_account event sender event.tenant_id event.ig_account_id
