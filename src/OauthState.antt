-- ===== src/OauthState.antt =====
-- packages/shared/src/meta/state.ts: the signed state of the OAuth flow.
pub mod Laws
pub mod Tests
use automatebro.Prelude.{
  ℕ, ◌+◌, ◌*◌, String, Bool, false, ◌||◌, not, List, [], ◌∷◌, ◌++◌, ltb, ◌==◌, length,
  if◌then◌else◌,
}
use automatebro.Records.{Text}
use automatebro.Action.{Result, ok, err, plain}
use automatebro.Text.{text_eq}
use automatebro.Text.Decimal.{decimal, Integer, nan, natural, negative, parse_int}
use automatebro.Text.Split.{split}

abbrev pub state_ttl_ms : ℕ
state_ttl_ms = 5 * 60 * 1000

abbrev pub dot : ℕ
dot = 46

pub record VerifiedState : Type 0 where
  pub tenant_id : Text
  pub issued_at : Integer

-- `hmac` is the HMAC-SHA256 of node:crypto under the app's secret, in base64url; `buffer_from` is
-- `Buffer.from(text)`, the bytes of its UTF-8.
pub record Crypto : Type 0 where
  pub hmac : Text → Text
  pub buffer_from : Text → List ℕ

-- `Date.now() - issuedAt > STATE_TTL_MS`
unfoldable pub is_expired : ℕ → Integer → Bool
is_expired now nan = false
is_expired now (natural issued) = ltb (issued + state_ttl_ms) now
is_expired now (negative n) = ltb state_ttl_ms (now + n)

module _ (crypto : Crypto) where
  unfoldable pub payload : ℕ → Text → Text
  payload issued_at tenant_id = decimal issued_at ++ dot ∷ tenant_id

  unfoldable pub sign_state : ℕ → Text → Text
  unfolding payload
  sign_state now tenant_id = payload now tenant_id ++ dot ∷ crypto.hmac (payload now tenant_id)

  unfoldable on_time : ℕ → Text → Integer → Result VerifiedState
  unfolding is_expired
  on_time now tenant_id nan = err (plain "verifyState: bad timestamp")
  on_time now tenant_id issued =
      if is_expired now issued
      then err (plain "verifyState: state expired (older than 5 minutes)")
      else ok (record { tenant_id = tenant_id; issued_at = issued })

  unfoldable with_parts : ℕ → Text → Text → Text → Result VerifiedState
  unfolding on_time
  with_parts now issued tenant_id signature =
      let expected = crypto.hmac (issued ++ dot ∷ tenant_id) in
      if length issued == 0 || length tenant_id == 0 || length signature == 0
      then err (plain "verifyState: malformed state")
      else if not (text_eq (crypto.buffer_from expected) (crypto.buffer_from signature))
      then err (plain "verifyState: bad signature")
      else on_time now tenant_id (parse_int issued)

  unfoldable of_parts : ℕ → List Text → Result VerifiedState
  unfolding with_parts
  of_parts now (issued ∷ tenant_id ∷ signature ∷ []) = with_parts now issued tenant_id signature
  of_parts now _ = err (plain "verifyState: malformed state")

  unfoldable pub verify_state : ℕ → Text → Result VerifiedState
  unfolding of_parts
  verify_state now state = of_parts now (split dot state)
