-- ===== src/Webhooks/Signature/Tests.antt =====
-- A signed delivery: the digest is 64 times the digit 0, the bytes of a text its code units.
use automatebro.Prelude.{ℕ, zero, suc, ◌≡◌, ◌↔◌, refl, some, [], ◌∷◌, ◌++◌}
use automatebro.Records.{Text}
use automatebro.Action.{ok}
use automatebro.Webhooks.Signature.{
  Crypto, VerifySignatureArgs, verified, header_prefix, verify_meta_signature,
}
use automatebro.Webhooks.Signature.Laws.{verify_meta_signature_iff}

abbrev zeros : ℕ → Text
zeros zero = []
zeros (suc n) = 48 ∷ zeros n

abbrev crypto : Crypto
crypto = record { hmac = λ secret body. zeros 64; buffer_from = λ t. t }

abbrev signed : VerifySignatureArgs
signed = record {
  raw_body = 123 ∷ 125 ∷ [];
  signature_header = some (header_prefix ++ zeros 64);
  app_secret = 107 ∷ [];
}

verify_meta_signature_iff_example :
    (verify_meta_signature crypto signed ≡ ok verified)
    ↔ (some (header_prefix ++ zeros 64) ≡ some (header_prefix ++ zeros 64))
verify_meta_signature_iff_example = verify_meta_signature_iff crypto signed (λ t e. e) refl
