-- ===== src/Text.antt =====
-- The string methods of JavaScript that the program calls, on lists of UTF-16 code units. The case
-- mapping is Unicode's table, and enters as a parameter where it is used.
pub mod Search
pub mod Replace
pub mod Decimal
pub mod Split
use automatebro.Prelude.{
  ℕ, zero, suc, ◌-◌, ◌≡◌, ◌↔◌, refl, Bool, true, false, ◌&&◌, ◌||◌, List, [], ◌∷◌, ◌++◌, leb,
  length, drop, ◌==◌, if◌then◌else◌,
}
use mathlib.Core.List.{reverse}
use automatebro.Records.{Text}

abbrev pub text_eq : Text → Text → Bool
text_eq [] [] = true
text_eq [] (d ∷ ds) = false
text_eq (c ∷ cs) [] = false
text_eq (c ∷ cs) (d ∷ ds) = c == d && text_eq cs ds

-- `text.startsWith(prefix)`
unfoldable pub starts_with : Text → Text → Bool
starts_with text [] = true
starts_with [] (p ∷ ps) = false
starts_with (c ∷ cs) (p ∷ ps) = c == p && starts_with cs ps

-- `text.includes(part)`
unfoldable pub includes : Text → Text → Bool
unfolding starts_with
includes [] part = starts_with [] part
includes (c ∷ cs) part = starts_with (c ∷ cs) part || includes cs part

-- The white space and line ends of ECMAScript.
unfoldable pub is_space : ℕ → Bool
is_space c =
    (leb 9 c && leb c 13)
    || c == 32
    || c == 160
    || c == 5760
    || (leb 8192 c && leb c 8202)
    || c == 8232
    || c == 8233
    || c == 8239
    || c == 8287
    || c == 12288
    || c == 65279

unfoldable pub trim_start : Text → Text
unfolding is_space
trim_start [] = []
trim_start (c ∷ cs) = if is_space c then trim_start cs else c ∷ cs

-- `text.trim()`
unfoldable pub trim : Text → Text
unfolding trim_start
trim text = reverse (trim_start (reverse (trim_start text)))

-- A replacement text with `$$`, `$&`, `` $` `` and `$'` put in, as `replaceAll` reads it.
unfoldable pub expand : Text → Text → Text → Text → Text
expand matched before after [] = []
expand matched before after (c ∷ []) = c ∷ []
expand matched before after (c ∷ d ∷ rest) =
    let two = expand matched before after rest in
    let one = expand matched before after (d ∷ rest) in
    if c == 36
    then if d == 36
      then 36 ∷ two
      else if d == 38
      then matched ++ two
      else if d == 96
      then before ++ two
      else if d == 39
      then after ++ two
      else c ∷ one
    else c ∷ one

-- The rest of `replaceAll`: `before` is the text already passed, and the next `skip` units belong to
-- a match.
unfoldable pub replace_from : Text → Text → Text → ℕ → Text → Text
unfolding starts_with expand
replace_from part sub before skip [] = []
replace_from part sub before (suc skip) (c ∷ cs) = replace_from part sub (before ++ c ∷ []) skip cs
replace_from part sub before zero (c ∷ cs) =
    let hit =
      expand part before (drop (length part) (c ∷ cs)) sub
      ++ replace_from part sub (before ++ c ∷ []) (length part - 1) cs in
    let miss = c ∷ replace_from part sub (before ++ c ∷ []) zero cs in
    if starts_with (c ∷ cs) part then hit else miss

-- `text.replaceAll(part, sub)` for a part that is not empty.
unfoldable pub replace_all : Text → Text → Text → Text
unfolding replace_from
replace_all text part sub = replace_from part sub [] zero text
