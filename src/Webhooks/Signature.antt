-- ===== src/Webhooks/Signature.antt =====
-- packages/shared/src/meta/verifySignature.ts: the signature of a webhook.
pub mod Laws
mod Tests
use automatebro.Prelude.{
  ℕ, suc, Bool, not, Option, none, some, List, [], ◌∷◌, drop, length, ◌==◌, if◌then◌else◌,
}
use automatebro.Records.{Text}
use automatebro.Action.{Result, ok, err, plain}
use automatebro.Text.{text_eq, starts_with}

-- `hmac` is the HMAC-SHA256 of node:crypto, in hexadecimal digits, of a text under a key; `buffer_from`
-- is `Buffer.from(text)`, the bytes of its UTF-8.
pub record Crypto : Type 0 where
  pub hmac : Text → Text → Text
  pub buffer_from : Text → List ℕ

pub record VerifySignatureArgs : Type 0 where
  pub raw_body : Text
  pub signature_header : Option Text
  pub app_secret : Text

pub data VerifySignatureResult : Type 0 where
  verified missing_header unexpected_prefix length_mismatch signature_mismatch :
      VerifySignatureResult

-- 'sha256='
abbrev pub header_prefix : Text
header_prefix = 115 ∷ 104 ∷ 97 ∷ 50 ∷ 53 ∷ 54 ∷ 61 ∷ []

-- `timingSafeEqual`, as node:crypto documents it: it throws for buffers of two lengths.
abbrev pub timing_safe_equal : List ℕ → List ℕ → Result Bool
timing_safe_equal a b =
    if length a == length b
    then ok (text_eq a b)
    else err (plain "ERR_CRYPTO_TIMING_SAFE_EQUAL_LENGTH")

abbrev pub of_compare : Result Bool → Result VerifySignatureResult
of_compare (ok same) = ok (if same then verified else signature_mismatch)
of_compare (err e) = err e

module _ (crypto : Crypto) where
  of_provided : VerifySignatureArgs → Text → Result VerifySignatureResult
  of_provided args provided =
      if not (length provided == 64)
      then ok length_mismatch
      else of_compare (
          timing_safe_equal (crypto.buffer_from (crypto.hmac args.app_secret args.raw_body))
            (crypto.buffer_from provided))

  of_header : VerifySignatureArgs → Option Text → Result VerifySignatureResult
  unfolding of_provided
  of_header args none = ok missing_header
  of_header args (some header) =
      if not (starts_with header header_prefix)
      then ok unexpected_prefix
      else of_provided args (drop 7 header)

  unfoldable pub verify_meta_signature : VerifySignatureArgs → Result VerifySignatureResult
  unfolding of_header
  verify_meta_signature args = of_header args args.signature_header
