-- ===== src/OauthState/Tests.antt =====
-- A signed state on concrete inputs.
use automatebro.Prelude.{◌≡◌, refl, arith}
use automatebro.Action.{ok}
use automatebro.Text.Decimal.{natural}
use automatebro.Whatsapp.StopKeywords.{codes}
use automatebro.OauthState.{Crypto, VerifiedState, sign_state, verify_state}
use automatebro.OauthState.Laws.{verify_state-sign_state}

-- In the place of the HMAC, the same digest for every text.
abbrev crypto : Crypto
crypto = record { hmac = λ text. codes "sig"; buffer_from = λ text. text }

abbrev verified : VerifiedState
verified = record { tenant_id = codes "t1"; issued_at = natural 1000 }

verify_state-sign_state_example :
    verify_state crypto 301000 (sign_state crypto 1000 (codes "t1")) ≡ ok verified
verify_state-sign_state_example =
    verify_state-sign_state crypto 1000 (codes "t1") 301000 (λ e. cc) (refl, (refl, tt))
      ((λ e. cc), (refl, (refl, (refl, tt)))) (omega arith)
