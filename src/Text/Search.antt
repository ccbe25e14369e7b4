-- ===== src/Text/Search.antt =====
-- What the searches decide.
use automatebro.Prelude.{◌≡◌, refl, ap, ◌↔◌, true, [], ◌∷◌, ◌++◌, arith, Bool-cases, inl, inr}
use automatebro.Records.{Text}
use automatebro.Text.{text_eq, starts_with, includes}

pub text_eq_iff : (s t : Text) → (text_eq s t ≡ true) ↔ (s ≡ t)
text_eq_iff [] [] = (λ h. refl, λ h. refl)
text_eq_iff [] (d ∷ ds) = (λ h. absurd (ground arith), λ h. cc)
text_eq_iff (c ∷ cs) [] = (λ h. absurd (ground arith), λ h. cc)
text_eq_iff (c ∷ cs) (d ∷ ds) =
    (λ h. ground (arith, text_eq_iff cs ds), λ h. ground (arith, text_eq_iff cs ds))

pub starts_with_sound :
    (text prefix : Text) → starts_with text prefix ≡ true → (rest : Text) × (text ≡ prefix ++ rest)
unfolding starts_with
starts_with_sound text [] h = (text, refl)
starts_with_sound [] (p ∷ ps) h = absurd (ground arith)
starts_with_sound (c ∷ cs) (p ∷ ps) h =
    let (rest, e) = starts_with_sound cs ps (ground arith) in (rest, ground arith)

pub starts_with_complete : (prefix rest : Text) → starts_with (prefix ++ rest) prefix ≡ true
unfolding starts_with
starts_with_complete [] rest = refl
starts_with_complete (p ∷ ps) rest = ground (arith, starts_with_complete ps rest)

includes-here : (prefix rest : Text) → includes (prefix ++ rest) prefix ≡ true
unfolding includes
includes-here [] [] = refl
includes-here [] (c ∷ cs) = refl
includes-here (p ∷ ps) rest = ground (arith, starts_with_complete ps rest)

-- A search finds the part exactly if the text has it somewhere.
pub includes_sound :
    (text part : Text)
    → includes text part ≡ true
    → (before : Text) × (after : Text) × (text ≡ before ++ part ++ after)
unfolding includes
includes_sound [] part h = let (rest, e) = starts_with_sound [] part h in ([], rest, e)
includes_sound (c ∷ cs) part h = elim (Bool-cases (starts_with (c ∷ cs) part)) [
  | inl here ↦ let (rest, e) = starts_with_sound (c ∷ cs) part here in ([], rest, e)
  | inr not_here ↦
      let (before, after, e) = includes_sound cs part (ground arith) in
      (c ∷ before, after, ap (λ (s : Text). c ∷ s) e)
]

pub includes_complete : (before part after : Text) → includes (before ++ part ++ after) part ≡ true
unfolding includes
includes_complete [] part after = includes-here part after
includes_complete (c ∷ before) part after = ground (arith, includes_complete before part after)
