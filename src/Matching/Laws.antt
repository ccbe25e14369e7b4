-- ===== src/Matching/Laws.antt =====
-- Keyword matching by what it finds, and templates by what they say.
use automatebro.Prelude.{ℕ, ◌≡◌, ◌↔◌, true, [], ◌∷◌, ◌++◌, arith}
use automatebro.Records.{Text, MatchMode, contains, exact, starts_with as at_start}
use automatebro.Text.{trim}
use automatebro.Text.Search.{
  text_eq_iff, starts_with_sound, starts_with_complete, includes_sound, includes_complete,
}
use automatebro.Text.Replace.{Avoids, replace_all-none, replace_all-one}
use automatebro.Matching.{matches_keyword, render_template, first_name_rest, username_rest}

-- The keyword is the whole trimmed text, begins the text, or stands somewhere in it.
pub data Matches (text keyword : Text) : MatchMode → Type 0 where
  whole : trim text ≡ keyword → Matches text keyword exact
  front : (rest : Text) → text ≡ keyword ++ rest → Matches text keyword at_start
  inside : (before after : Text) → text ≡ before ++ keyword ++ after → Matches text keyword contains

Matches-matches_keyword :
    (lower : Text → Text) (text keyword : Text) (mode : MatchMode)
    → Matches (lower text) (lower keyword) mode
    → matches_keyword lower text keyword mode ≡ true
unfolding matches_keyword
Matches-matches_keyword lower text keyword exact (whole e) = (text_eq_iff _ _).1 e
Matches-matches_keyword lower text keyword at_start (front rest e) =
    rw e (starts_with_complete (lower keyword) rest)
Matches-matches_keyword lower text keyword contains (inside before after e) =
    rw e (includes_complete before (lower keyword) after)

matches_keyword-Matches :
    (lower : Text → Text) (text keyword : Text) (mode : MatchMode)
    → matches_keyword lower text keyword mode ≡ true
    → Matches (lower text) (lower keyword) mode
unfolding matches_keyword
matches_keyword-Matches lower text keyword exact h = whole ((text_eq_iff _ _).0 h)
matches_keyword-Matches lower text keyword at_start h =
    let (rest, e) = starts_with_sound (lower text) (lower keyword) h in front rest e
matches_keyword-Matches lower text keyword contains h =
    let (before, after, e) = includes_sound (lower text) (lower keyword) h in inside before after e

-- A keyword matches in its mode exactly if, in lower case, it is the whole trimmed text, a prefix
-- of the text, or a part of it.
pub matches_keyword_iff :
    (lower : Text → Text) (text keyword : Text) (mode : MatchMode)
    → (matches_keyword lower text keyword mode ≡ true) ↔ Matches (lower text) (lower keyword) mode
matches_keyword_iff lower text keyword mode = (
  matches_keyword-Matches lower text keyword mode,
  Matches-matches_keyword lower text keyword mode,
)

Avoids-append : (u : ℕ) (x y : Text) → Avoids u x → Avoids u y → Avoids u (x ++ y)
Avoids-append u [] y hx hy = hy
Avoids-append u (c ∷ x) y hx hy = ground (arith, Avoids-append u x y)

-- A template with one {firstName} says the name in its place and is otherwise unchanged, if the
-- template has no other brace and the name has neither a brace nor a dollar sign.
pub render_template_one :
    (x y name username : Text)
    → Avoids 123 x
    → Avoids 123 y
    → Avoids 36 name
    → Avoids 123 name
    → render_template (x ++ (123 ∷ first_name_rest) ++ y) name username ≡ x ++ name ++ y
unfolding render_template
render_template_one x y name username hx hy hn h =
    rw (replace_all-one 123 first_name_rest name x y hx hy hn) (
      replace_all-none 123 username_rest username (x ++ name ++ y)
        (Avoids-append 123 (x ++ name) y (Avoids-append 123 x name hx h) hy))
