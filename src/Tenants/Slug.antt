-- ===== src/Tenants/Slug.antt =====
-- packages/shared/src/db/schema.ts, slugify: the name of a workspace in a URL. The regular expressions
-- are written out as passes over the code units; `lower` is `toLowerCase`.
pub mod Laws
use automatebro.Prelude.{
  ℕ, Bool, true, false, not, ◌&&◌, ◌||◌, List, [], ◌∷◌, ◌++◌, ltb, leb, ◌==◌, length, take, any,
  if◌then◌else◌,
}
use mathlib.Core.List.{reverse}
use automatebro.Records.{Text}
use automatebro.Action.{Result, ok, err, plain}
use automatebro.Whatsapp.StopKeywords.{codes}

abbrev pub dash : ℕ
dash = 45

-- `[a-z0-9]`
abbrev pub is_slug_unit : ℕ → Bool
is_slug_unit c = (leb 97 c && leb c 122) || (leb 48 c && leb c 57)

-- `[a-f0-9]`
abbrev pub is_hex_unit : ℕ → Bool
is_hex_unit c = (leb 97 c && leb c 102) || (leb 48 c && leb c 57)

-- `.replace(/[^a-z0-9]+/g, '-')`; `inside` a run, the run has its dash already.
unfoldable pub dash_runs : Bool → Text → Text
dash_runs inside [] = []
dash_runs inside (c ∷ cs) =
    let plain_rest = dash_runs false cs in
    let run_rest = dash_runs true cs in
    if is_slug_unit c then c ∷ plain_rest else if inside then run_rest else dash ∷ run_rest

-- `.replace(/-+/g, '-')`
unfoldable pub collapse : Bool → Text → Text
collapse inside [] = []
collapse inside (c ∷ cs) =
    let plain_rest = collapse false cs in
    let run_rest = collapse true cs in
    if not (c == dash) then c ∷ plain_rest else if inside then run_rest else dash ∷ run_rest

unfoldable pub drop_dash : Text → Text
drop_dash [] = []
drop_dash (c ∷ cs) = if c == dash then cs else c ∷ cs

-- `.replace(/^-|-$/g, '')`
unfoldable pub trim_dashes : Text → Text
unfolding drop_dash
trim_dashes text = reverse (drop_dash (reverse (drop_dash text)))

unfoldable pub base_of : (Text → Text) → Text → Text
base_of lower name = take 56 (trim_dashes (collapse false (dash_runs false (lower name))))

-- A name that leaves nothing is called a workspace.
unfoldable pub safe_of : Text → Text
safe_of base = if length base == 0 then codes "workspace" else base

unfoldable pub slugify : (Text → Text) → Text → Text → Result Text
unfolding base_of safe_of
slugify lower name random_hex =
    if not (length random_hex == 6) || any (λ c. not (is_hex_unit c)) random_hex
    then err (plain "slugify: randomHex must be 6 hex chars")
    else ok (safe_of (base_of lower name) ++ dash ∷ random_hex)
