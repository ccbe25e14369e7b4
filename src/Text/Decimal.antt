-- ===== src/Text/Decimal.antt =====
-- `String(n)` for a natural number, and `Number.parseInt(text, 10)`.
use automatebro.Prelude.{
  ℕ, zero, suc, ◌+◌, ◌-◌, ◌*◌, ◌/◌, ◌%◌, ◌<◌, ◌≡◌, ◌≢◌, refl, ap, ◌∙◌, Bool, true, false, ◌&&◌, [],
  ◌∷◌, arith, leb, ◌==◌, if◌then◌else◌, All, Bool-cases, inl, inr,
}
use automatebro.Records.{Text}
use automatebro.Text.{is_space, trim_start}

abbrev pub is_decimal : ℕ → Bool
is_decimal c = leb 48 c && leb c 57

-- The digits of `n` before `acc`; `fuel` above `n` is enough, since each step divides by ten.
unfoldable pub digits : ℕ → ℕ → Text → Text
digits zero n acc = acc
digits (suc fuel) n acc =
    let rest = digits fuel (n / 10) ((48 + n % 10) ∷ acc) in
    if n / 10 == 0 then (48 + n % 10) ∷ acc else rest

unfoldable pub decimal : ℕ → Text
unfolding digits
decimal n = digits (suc n) n []

-- What `parseInt` returns.
pub data Integer : Type 0 where
  nan : Integer
  natural : ℕ → Integer
  negative : ℕ → Integer

-- The digits that the text goes on with, after a number read so far.
unfoldable pub read_digits : ℕ → Text → ℕ
read_digits n [] = n
read_digits n (c ∷ cs) =
    let more = read_digits (n * 10 + (c - 48)) cs in if is_decimal c then more else n

unfoldable pub unsigned : (ℕ → Integer) → Text → Integer
unfolding read_digits
unsigned sign [] = nan
unsigned sign (c ∷ cs) = if is_decimal c then sign (read_digits (c - 48) cs) else nan

unfoldable pub signed : Text → Integer
unfolding unsigned
signed [] = nan
signed (c ∷ cs) =
    if c == 45
    then unsigned negative cs
    else if c == 43
    then unsigned natural cs
    else unsigned natural (c ∷ cs)

unfoldable pub parse_int : Text → Integer
unfolding signed
parse_int text = signed (trim_start text)

abbrev pub Decimal : ℕ → Type 0
Decimal c = is_decimal c ≡ true

All-digits : (fuel n : ℕ) (acc : Text) → All Decimal acc → All Decimal (digits fuel n acc)
unfolding digits
All-digits zero n acc p = p
All-digits (suc fuel) n acc p = elim (Bool-cases (n / 10 == 0)) [
  | inl e ↦ rw e (digit, p)
  | inr e ↦ rw e (All-digits fuel (n / 10) ((48 + n % 10) ∷ acc) (digit, p))
]
  where
    digit : Decimal (48 + n % 10)
    digit = ground arith

pub All-decimal : (n : ℕ) → All Decimal (decimal n)
unfolding decimal
All-decimal n = All-digits (suc n) n [] tt

read_digit :
    (m n : ℕ) (acc : Text) → m ≡ n / 10 → read_digits m ((48 + n % 10) ∷ acc) ≡ read_digits n acc
read_digit m n acc e = unfold read_digits in rw digit (rw value)
  where
    digit : is_decimal (48 + n % 10) ≡ true
    digit = ground arith

    value : m * 10 + (48 + n % 10 - 48) ≡ n
    value = omega (arith, e)

digits_end :
    (fuel n : ℕ) (acc : Text) → (n / 10 == 0) ≡ true → digits (suc fuel) n acc ≡ (48 + n % 10) ∷ acc
digits_end fuel n acc e = unfold digits in rw e

digits_more :
    (fuel n : ℕ) (acc : Text)
    → (n / 10 == 0) ≡ false
    → digits (suc fuel) n acc ≡ digits fuel (n / 10) ((48 + n % 10) ∷ acc)
digits_more fuel n acc e = unfold digits in rw e

read_digits-digits :
    (fuel n : ℕ) (acc : Text) → n < fuel → read_digits 0 (digits fuel n acc) ≡ read_digits n acc
read_digits-digits zero n acc l = absurd (omega (arith, l))
read_digits-digits (suc fuel) n acc l = elim (Bool-cases (n / 10 == 0)) [
  | inl e ↦ rw (digits_end fuel n acc e) (read_digit 0 n acc (ground (arith, e)))
  | inr e ↦ rw (digits_more fuel n acc e) (
      read_digits-digits fuel (n / 10) ((48 + n % 10) ∷ acc) (ground (arith, e, l))
      ∙ read_digit (n / 10) n acc refl)
]

digits-cons : (fuel n c : ℕ) (acc : Text) → digits fuel n (c ∷ acc) ≢ []
digits-cons zero n c acc = unfold digits in λ e. cc
digits-cons (suc fuel) n c acc = elim (Bool-cases (n / 10 == 0)) [
  | inl e ↦ rw (digits_end fuel n (c ∷ acc) e) (λ q. cc)
  | inr e ↦ rw (digits_more fuel n (c ∷ acc) e) (digits-cons fuel (n / 10) (48 + n % 10) (c ∷ acc))
]

pub decimal-not-nil : (n : ℕ) → decimal n ≢ []
unfolding decimal
decimal-not-nil n = elim (Bool-cases (n / 10 == 0)) [
  | inl e ↦ rw (digits_end n n [] e) (λ q. cc)
  | inr e ↦ rw (digits_more n n [] e) (digits-cons n (n / 10) (48 + n % 10) [])
]

-- A text that begins with a digit is read from there.
starts_with_digit :
    (text : Text) → All Decimal text → text ≢ [] → parse_int text ≡ natural (read_digits 0 text)
starts_with_digit [] p ne = absurd (ne refl)
starts_with_digit (c ∷ cs) (d, ds) ne =
    unfold parse_int in
    unfold trim_start in
    rw no_space (
      unfold signed in
      unfold unsigned in
      unfold read_digits in
      rw (no_minus, no_plus, d) (ap (λ x. natural (read_digits x cs)) (omega arith)))
  where
    no_space : is_space c ≡ false
    no_space = unfold is_space in ground (arith, d)

    no_minus : (c == 45) ≡ false
    no_minus = ground (arith, d)

    no_plus : (c == 43) ≡ false
    no_plus = ground (arith, d)

-- `parseInt` reads back what `String` has written.
pub parse_int-decimal : (n : ℕ) → parse_int (decimal n) ≡ natural n
parse_int-decimal n =
    starts_with_digit (decimal n) (All-decimal n) (decimal-not-nil n) ∙ ap (λ x. natural x) read
  where
    read : read_digits 0 (decimal n) ≡ n
    read =
        unfold decimal in
        (read_digits-digits (suc n) n [] (omega arith) ∙ (unfold read_digits in refl))
