-- ===== src/Whatsapp/StopKeywords.antt =====
-- packages/shared/src/whatsapp/stopKeywords.ts. `lower` stands for `toLowerCase`; every keyword lies in
-- the basic plane, where a character is one code unit.
use Prim.Native.Char.{code}
use Prim.Native.String.{String}
use automatebro.Prelude.{
  ◌≤◌, ◌≡◌, ◌↔◌, refl, Bool, true, false, Option, none, some, List, [], ◌∷◌, arith, ltb, length,
  any, All, ◌==◌, if◌then◌else◌,
}
use automatebro.Records.{Text}
use automatebro.Text.{text_eq, trim}

abbrev pub codes : String → Text
codes String.[] = []
codes (String.◌∷◌ c s) = code c ∷ codes s

unfoldable pub stop_keywords : List Text
stop_keywords =
    codes "stop"
    ∷ codes "unsubscribe"
    ∷ codes "cancel"
    ∷ codes "end"
    ∷ codes "quit"
    ∷ codes "opt out"
    ∷ codes "opt-out"
    ∷ codes "optout"
    ∷ codes "remove me"
    ∷ codes "no more"
    ∷ codes "no thanks"
    ∷ codes "बंद करो"
    ∷ codes "रुको"
    ∷ codes "अनसब्सक्राइब"
    ∷ codes "मना"
    ∷ codes "band karo"
    ∷ codes "band kar do"
    ∷ codes "ruko"
    ∷ codes "mat bhejo"
    ∷ codes "mat bhejna"
    ∷ codes "dont send"
    ∷ codes "don't send"
    ∷ []

abbrev pub normalized : (Text → Text) → Text → Text
normalized lower body = lower (trim body)

unfoldable pub is_stop_keyword : (Text → Text) → Option Text → Bool
is_stop_keyword lower none = false
is_stop_keyword lower (some body) =
    if length (normalized lower body) == 0
    then false
    else if ltb 32 (length (normalized lower body))
    then false
    else any (text_eq (normalized lower body)) stop_keywords

-- A keyword passes both length tests.
abbrev Fits : Text → Type 0
Fits keyword = (1 ≤ length keyword) × (length keyword ≤ 32)

text_eq-length : (s t : Text) → text_eq s t ≡ true → length s ≡ length t
text_eq-length [] [] h = refl
text_eq-length [] (d ∷ ds) h = cc
text_eq-length (c ∷ cs) [] h = cc
text_eq-length (c ∷ cs) (d ∷ ds) h = ground (arith, text_eq-length cs ds)

any-Fits : (s : Text) (ks : List Text) → All Fits ks → any (text_eq s) ks ≡ true → Fits s
any-Fits s [] f h = cc
any-Fits s (k ∷ ks) f h = ground (arith, text_eq-length s k, any-Fits s ks f.1)

stop_keywords-Fits : All Fits stop_keywords
unfolding stop_keywords
stop_keywords-Fits = omega arith

guards_iff :
    (n : Text) (ks : List Text)
    → All Fits ks
    → ((if length n == 0 then false else if ltb 32 (length n) then false else any (text_eq n) ks)
        ≡ true)
      ↔ (any (text_eq n) ks ≡ true)
guards_iff n ks f = (λ h. ground arith, λ h. ground (arith, any-Fits n ks f h))

-- A message is an opt-out exactly if its trimmed text in lower case is one of the keywords: the
-- tests for an empty and for a long text never decide.
pub is_stop_keyword_iff :
    (lower : Text → Text) (body : Text)
    → (is_stop_keyword lower (some body) ≡ true)
      ↔ (any (text_eq (normalized lower body)) stop_keywords ≡ true)
unfolding is_stop_keyword
is_stop_keyword_iff lower body = guards_iff (normalized lower body) stop_keywords stop_keywords-Fits
