-- ===== src/Leads/Capture/Laws.antt =====
-- What normalizePhone returns.
use automatebro.Prelude.{
  ℕ, ◌≤◌, ◌≡◌, refl, ◌⊎◌, inl, inr, true, false, some, [], ◌∷◌, arith, All, All-reverse, length,
  keep, Bool-cases,
}
use mathlib.Core.List.{reverse, reverse-reverse}
use automatebro.Records.{Text}
use automatebro.Text.{trim, trim_start, is_space, starts_with}
use automatebro.Leads.Capture.{is_digit, plus, canonical, normalize_phone}

abbrev Digit : ℕ → Type 0
Digit c = is_digit c ≡ true

-- What stands in a telephone number.
abbrev Printed : ℕ → Type 0
Printed c = is_space c ≡ false

All-keep : (xs : Text) → All Digit (keep is_digit xs)
All-keep [] = tt
All-keep (x ∷ xs) = elim (Bool-cases (is_digit x)) [
  | inl d ↦ rw d (d, All-keep xs)
  | inr n ↦ rw n (All-keep xs)
]

keep-digits : (xs : Text) → All Digit xs → keep is_digit xs ≡ xs
keep-digits [] d = refl
keep-digits (x ∷ xs) (d, ds) = rw (d, keep-digits xs ds)

Printed-Digit : (c : ℕ) → Digit c → Printed c
unfolding is_space
Printed-Digit c d = ground arith

trim_start-Printed : (xs : Text) → All Printed xs → trim_start xs ≡ xs
unfolding trim_start
trim_start-Printed [] p = refl
trim_start-Printed (x ∷ xs) (p, ps) = rw p

trim-Printed : (xs : Text) → All Printed xs → trim xs ≡ xs
unfolding trim
trim-Printed xs p =
    rw (trim_start-Printed xs p)
      (rw (trim_start-Printed (reverse xs) (All-reverse Printed xs p)) (reverse-reverse xs))

All-Printed : (xs : Text) → All Digit xs → All Printed xs
All-Printed [] d = tt
All-Printed (x ∷ xs) (d, ds) = (Printed-Digit x d, All-Printed xs ds)

-- 10 to 15 digits, and a plus before them or not.
pub record IsCanonical (phone : Text) : Type 0 where
  pub digits : Text
  pub decimal : All (λ c. is_digit c ≡ true) digits
  pub at_least : 10 ≤ length digits
  pub at_most : length digits ≤ 15
  pub written : (phone ≡ digits) ⊎ (phone ≡ plus ∷ digits)

is_canonical : (raw phone : Text) → normalize_phone raw ≡ some phone → IsCanonical phone
unfolding normalize_phone canonical
is_canonical raw phone e = record {
  digits = keep is_digit (trim raw);
  decimal = All-keep (trim raw);
  at_least = ground arith;
  at_most = ground arith;
  written = ground arith;
}

no_plus : (xs : Text) → All Digit xs → starts_with xs (plus ∷ []) ≡ false
unfolding starts_with
no_plus [] d = refl
no_plus (x ∷ xs) (d, ds) = ground arith

has_plus : (xs : Text) → starts_with (plus ∷ xs) (plus ∷ []) ≡ true
unfolding starts_with
has_plus xs = ground arith

canonical-digits :
    (xs : Text) → All Digit xs → 10 ≤ length xs → length xs ≤ 15 → canonical xs ≡ some xs
unfolding canonical
canonical-digits xs d l u = rw (keep-digits xs d, no_plus xs d) (ground arith)

canonical-plus :
    (xs : Text)
    → All Digit xs
    → 10 ≤ length xs
    → length xs ≤ 15
    → canonical (plus ∷ xs) ≡ some (plus ∷ xs)
unfolding canonical
canonical-plus xs d l u = rw (keep-digits xs d, has_plus xs) (ground arith)

canonical_again : (phone : Text) → IsCanonical phone → normalize_phone phone ≡ some phone
unfolding normalize_phone
canonical_again phone c = elim c.written [
  | inl e ↦ rw e (
      rw (trim-Printed c.digits printed) (canonical-digits c.digits c.decimal c.at_least c.at_most))
  | inr e ↦ rw e (
      rw (trim-Printed (plus ∷ c.digits) (Printed-plus, printed))
        (canonical-plus c.digits c.decimal c.at_least c.at_most))
]
  where
    printed : All Printed c.digits
    printed = All-Printed c.digits c.decimal

    Printed-plus : Printed plus
    Printed-plus = unfold is_space in refl

-- What normalizePhone returns is 10 to 15 digits, with a plus before them or not, and normalizing
-- it again leaves it as it is.
pub normalize_phone-IsCanonical :
    (raw phone : Text)
    → normalize_phone raw ≡ some phone
    → IsCanonical phone × (normalize_phone phone ≡ some phone)
normalize_phone-IsCanonical raw phone e =
    (is_canonical raw phone e, canonical_again phone (is_canonical raw phone e))
