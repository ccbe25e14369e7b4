-- ===== src/Text/Split.antt =====
-- `text.split(separator)` for a separator of one code unit.
use automatebro.Prelude.{
  ℕ, ◌≡◌, refl, false, true, List, [], ◌∷◌, ◌++◌, arith, ◌==◌, if◌then◌else◌, All,
}
use automatebro.Records.{Text}

-- The unit joins the first part.
abbrev pub onto_first : ℕ → List Text → List Text
onto_first c [] = (c ∷ []) ∷ []
onto_first c (part ∷ parts) = (c ∷ part) ∷ parts

unfoldable pub split : ℕ → Text → List Text
split sep [] = [] ∷ []
split sep (c ∷ cs) = let rest = split sep cs in if c == sep then [] ∷ rest else onto_first c rest

-- The separator is not in the text.
abbrev pub Without : ℕ → Text → Type 0
Without sep = All (λ c. (c == sep) ≡ false)

pub split-Without : (sep : ℕ) (text : Text) → Without sep text → split sep text ≡ text ∷ []
unfolding split
split-Without sep [] w = refl
split-Without sep (c ∷ cs) (w, ws) = rw w (rw (split-Without sep cs ws))

pub split-append :
    (sep : ℕ) (part rest : Text)
    → Without sep part
    → split sep (part ++ sep ∷ rest) ≡ part ∷ split sep rest
unfolding split
split-append sep [] rest w = rw (same sep)
  where
    same : (c : ℕ) → (c == c) ≡ true
    same c = ground arith
split-append sep (c ∷ cs) rest (w, ws) = rw w (rw (split-append sep cs rest ws))
