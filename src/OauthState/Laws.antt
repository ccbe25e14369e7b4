-- ===== src/OauthState/Laws.antt =====
-- What a signed state is good for.
use automatebro.Prelude.{
  ℕ, ◌+◌, ◌≤◌, ◌≡◌, ◌≢◌, refl, ap, ◌∙◌, true, false, List, [], ◌∷◌, ◌++◌, arith, All, length, ◌==◌,
}
use mathlib.Core.List.{append_assoc}
use automatebro.Records.{Text}
use automatebro.Action.{ok}
use automatebro.Text.{text_eq}
use automatebro.Text.Decimal.{
  decimal, is_decimal, natural, parse_int, parse_int-decimal, All-decimal, decimal-not-nil,
}
use automatebro.Text.Split.{split, Without, split-append, split-Without}
use automatebro.OauthState.{
  dot, state_ttl_ms, VerifiedState, Crypto, is_expired, payload, sign_state, with_parts, of_parts,
  verify_state,
}

-- What base64url of a digest is: not empty, and without a dot.
abbrev pub IsDigest : Text → Type 0
IsDigest s = (s ≢ []) × Without dot s

decimal-Without : (xs : Text) → All (λ c. is_decimal c ≡ true) xs → Without dot xs
decimal-Without [] d = tt
decimal-Without (x ∷ xs) (d, ds) = (ground (arith, d), decimal-Without xs ds)

text_eq_refl : (xs : List ℕ) → text_eq xs xs ≡ true
text_eq_refl [] = refl
text_eq_refl (x ∷ xs) = rw (text_eq_refl xs) (ground arith)

not_nil : (xs : Text) → xs ≢ [] → (length xs == 0) ≡ false
not_nil [] ne = absurd (ne refl)
not_nil (x ∷ xs) ne = ground arith

module _ (crypto : Crypto) (issued : ℕ) (tenant_id : Text) where
  parts :
      Without dot tenant_id
      → IsDigest (crypto.hmac (payload crypto issued tenant_id))
      → split dot (sign_state crypto issued tenant_id)
        ≡ decimal issued ∷ tenant_id ∷ crypto.hmac (payload crypto issued tenant_id) ∷ []
  parts w (ne, d) =
      unfold sign_state in
      unfold payload in
      rw
        (append_assoc (decimal issued) (dot ∷ tenant_id)
          (dot ∷ crypto.hmac (payload crypto issued tenant_id)))
        (split-append dot (decimal issued) _ (decimal-Without (decimal issued) (All-decimal issued))
          ∙ ap (λ ps. decimal issued ∷ ps)
              (split-append dot tenant_id _ w
                ∙ ap (λ ps. tenant_id ∷ ps)
                    (split-Without dot (crypto.hmac (payload crypto issued tenant_id)) d)))

  -- The state that signState makes for a tenant, read back by verifyState at most five minutes
  -- later, gives the tenant and the time again, if the tenant's identifier is not empty and has no
  -- dot, and the digest is not empty and has no dot.
  pub verify_state-sign_state :
      (now : ℕ)
      → tenant_id ≢ []
      → Without dot tenant_id
      → IsDigest (crypto.hmac (payload crypto issued tenant_id))
      → now ≤ issued + state_ttl_ms
      → verify_state crypto now (sign_state crypto issued tenant_id)
        ≡ ok (record { tenant_id = tenant_id; issued_at = natural issued })
  verify_state-sign_state now ne w d l =
      unfold verify_state in rw (parts w d) (unfold of_parts in verified)
    where
      verified :
          with_parts crypto now
            (decimal issued)
            tenant_id
            (crypto.hmac (payload crypto issued tenant_id))
          ≡ ok (record { tenant_id = tenant_id; issued_at = natural issued })
      verified =
          unfold with_parts in
          rw
            (
              not_nil (decimal issued) (decimal-not-nil issued),
              not_nil tenant_id ne,
              not_nil (crypto.hmac (payload crypto issued tenant_id)) d.0,
              parse_int-decimal issued,
            )
            (unfold payload in
              rw
                (text_eq_refl
                  (crypto.buffer_from (crypto.hmac (decimal issued ++ dot ∷ tenant_id))))
                (ground (arith, l)))

module _ (crypto : Crypto) (now : ℕ) where
  -- Three parts, of which the last is signed for the first two, and a time that is not over.
  pub record Accepted (state : Text) (v : VerifiedState) : Type 0 where
    pub issued : Text
    pub signature : Text
    pub three : split dot state ≡ issued ∷ v.tenant_id ∷ signature ∷ []
    pub signed :
        text_eq
          (crypto.buffer_from (crypto.hmac (issued ++ dot ∷ v.tenant_id)))
          (crypto.buffer_from signature)
        ≡ true
    pub time : v.issued_at ≡ parse_int issued
    pub fresh : is_expired now v.issued_at ≡ false
