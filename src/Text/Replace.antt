-- ===== src/Text/Replace.antt =====
-- What `replaceAll` does to a text in which the part's first unit opens nothing but the part.
use mathlib.Core.List.{append_assoc, append-nil}
use automatebro.Prelude.{
  drop, ℕ, zero, ◌≡◌, refl, ap, ◌∙◌, false, [], ◌∷◌, ◌++◌, arith, any, length, ◌==◌,
}
use automatebro.Records.{Text}
use automatebro.Text.{expand, replace_from, replace_all}
use automatebro.Text.Search.{starts_with_complete}

-- The unit stands nowhere in the text.
abbrev pub Avoids : ℕ → Text → Type 0
Avoids u text = any (λ c. c == u) text ≡ false

pub expand-Avoids :
    (matched before after sub : Text) → Avoids 36 sub → expand matched before after sub ≡ sub
unfolding expand
expand-Avoids matched before after [] h = refl
expand-Avoids matched before after (c ∷ []) h = refl
expand-Avoids matched before after (c ∷ d ∷ rest) h =
    ground (arith, expand-Avoids matched before after (d ∷ rest))

module _ (p : ℕ) (ps sub : Text) where
  abbrev go : Text → ℕ → Text → Text
  go = replace_from (p ∷ ps) sub

  replace_from-skip :
      (x before rest : Text) → go before (length x) (x ++ rest) ≡ go (before ++ x) zero rest
  unfolding replace_from
  replace_from-skip [] before rest = rw append-nil
  replace_from-skip (c ∷ x) before rest =
      replace_from-skip x (before ++ c ∷ []) rest
      ∙ ap (λ (b : Text). go b zero rest) (append_assoc before (c ∷ []) x)

  replace_from-pass :
      (x before rest : Text)
      → Avoids p x
      → go before zero (x ++ rest) ≡ x ++ go (before ++ x) zero rest
  unfolding replace_from
  replace_from-pass [] before rest h = rw append-nil
  replace_from-pass (c ∷ x) before rest h =
      ground (arith, replace_from-pass x (before ++ c ∷ []) rest, append_assoc before (c ∷ []) x)

  replace_from-hit :
      (before rest : Text)
      → Avoids 36 sub
      → go before zero ((p ∷ ps) ++ rest) ≡ sub ++ go (before ++ p ∷ ps) zero rest
  unfolding replace_from
  replace_from-hit before rest h = ground (
    arith,
    starts_with_complete ps rest,
    expand-Avoids (p ∷ ps) before (drop (length ps) (ps ++ rest)) sub h,
    replace_from-skip ps (before ++ p ∷ []) rest,
    append_assoc before (p ∷ []) ps,
  )

  replace_from-none : (x before : Text) → Avoids p x → go before zero x ≡ x
  unfolding replace_from
  replace_from-none [] before h = refl
  replace_from-none (c ∷ x) before h = ground (arith, replace_from-none x (before ++ c ∷ []))

  -- A text without the part's first unit is left alone.
  pub replace_all-none : (x : Text) → Avoids p x → replace_all x (p ∷ ps) sub ≡ x
  unfolding replace_all
  replace_all-none x h = replace_from-none x [] h

  -- A part between texts without its first unit is replaced by `sub` as it stands, if `sub` has no `$`.
  pub replace_all-one :
      (x y : Text)
      → Avoids p x
      → Avoids p y
      → Avoids 36 sub
      → replace_all (x ++ (p ∷ ps) ++ y) (p ∷ ps) sub ≡ x ++ sub ++ y
  unfolding replace_all
  replace_all-one x y hx hy hs = ground (
    arith,
    append_assoc x (p ∷ ps) y,
    append_assoc x sub y,
    replace_from-pass x [] ((p ∷ ps) ++ y) hx,
    replace_from-hit x y hs,
    replace_from-none y (x ++ p ∷ ps) hy,
  )
