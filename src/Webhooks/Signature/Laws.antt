-- ===== src/Webhooks/Signature/Laws.antt =====
-- packages/shared/src/meta/verifySignature.ts: which headers are accepted.
use automatebro.Prelude.{
  ◌≡◌, ◌↔◌, refl, ap, sym, ◌∙◌, arith, true, false, Option, none, some, [], ◌∷◌, ◌++◌, length, drop,
  ◌==◌,
}
use automatebro.Records.{Text}
use automatebro.Action.{ok, err, plain}
use automatebro.Text.{starts_with}
use automatebro.Text.Search.{text_eq_iff}
use automatebro.Webhooks.Signature.{
  Crypto, VerifySignatureArgs, verified, header_prefix, of_header, of_provided,
  verify_meta_signature,
}

starts_with-drop :
    (prefix text : Text)
    → starts_with text prefix ≡ true
    → text ≡ prefix ++ drop (length prefix) text
unfolding starts_with
starts_with-drop [] text hit = refl
starts_with-drop (p ∷ ps) [] hit = grind arith
starts_with-drop (p ∷ ps) (c ∷ cs) hit = ground (arith, starts_with-drop ps cs)

module _ (crypto : Crypto) (args : VerifySignatureArgs) where
  of_provided-verified :
      (provided : Text)
      → of_provided crypto args provided ≡ ok verified
      → crypto.buffer_from (crypto.hmac args.app_secret args.raw_body) ≡ crypto.buffer_from provided
  unfolding of_provided
  of_provided-verified provided hit = ground (
    arith,
    text_eq_iff (crypto.buffer_from (crypto.hmac args.app_secret args.raw_body))
        (crypto.buffer_from provided),
  )

  of_provided-hmac :
      length (crypto.hmac args.app_secret args.raw_body) ≡ 64
      → of_provided crypto args (crypto.hmac args.app_secret args.raw_body) ≡ ok verified
  unfolding of_provided
  of_provided-hmac long =
      let b = crypto.buffer_from (crypto.hmac args.app_secret args.raw_body) in
      ground (arith, text_eq_iff b b)

  of_header-verified :
      (header : Text)
      → of_header crypto args (some header) ≡ ok verified
      → (starts_with header header_prefix ≡ true)
        × (of_provided crypto args (drop 7 header) ≡ ok verified)
  unfolding of_header
  of_header-verified header hit = ground arith

  of_header-prefixed :
      (t : Text) → of_header crypto args (some (header_prefix ++ t)) ≡ of_provided crypto args t
  unfolding of_header starts_with
  of_header-prefixed t = refl

module _ (crypto : Crypto) (args : VerifySignatureArgs)
    (distinct : (t : Text)
      → crypto.buffer_from (crypto.hmac args.app_secret args.raw_body) ≡ crypto.buffer_from t
      → crypto.hmac args.app_secret args.raw_body ≡ t)
    (long : length (crypto.hmac args.app_secret args.raw_body) ≡ 64) where
  accepted-signed :
      (header : Option Text)
      → of_header crypto args header ≡ ok verified
      → header ≡ some (header_prefix ++ crypto.hmac args.app_secret args.raw_body)
  unfolding of_header
  accepted-signed none hit = grind arith
  accepted-signed (some header) hit =
      let (starts, rest) = of_header-verified crypto args header hit in
      let same = distinct (drop 7 header) (of_provided-verified crypto args (drop 7 header) rest) in
      ap some
        (starts_with-drop header_prefix header starts ∙ ap (λ t. header_prefix ++ t) (sym same))

  -- If the digest has 64 code units and no other text has its bytes, then verifyMetaSignature
  -- accepts a request just when its header is sha256= followed by the digest of the body under the
  -- secret.
  pub verify_meta_signature_iff :
      (verify_meta_signature crypto args ≡ ok verified)
      ↔ (args.signature_header ≡ some (header_prefix ++ crypto.hmac args.app_secret args.raw_body))
  unfolding verify_meta_signature
  verify_meta_signature_iff = (
    accepted-signed args.signature_header,
    λ e.
        ap (of_header crypto args) e
        ∙ of_header-prefixed crypto args (crypto.hmac args.app_secret args.raw_body)
        ∙ of_provided-hmac crypto args long,
  )

-- A provided part of 64 code units with another number of bytes than the digest: the comparison throws.
throws_on_bytes :
    (crypto : Crypto) (args : VerifySignatureArgs) (t : Text)
    → length t ≡ 64
    → (length (crypto.buffer_from (crypto.hmac args.app_secret args.raw_body))
        == length (crypto.buffer_from t))
      ≡ false
    → args.signature_header ≡ some (header_prefix ++ t)
    → verify_meta_signature crypto args ≡ err (plain "ERR_CRYPTO_TIMING_SAFE_EQUAL_LENGTH")
unfolding verify_meta_signature of_provided
throws_on_bytes crypto args t long other e =
    ap (of_header crypto args) e ∙ of_header-prefixed crypto args t ∙ ground arith
