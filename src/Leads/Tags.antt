-- ===== src/Leads/Tags.antt =====
-- packages/shared/src/handlers/leads/updateLeadTags.ts. The lead is what the tenant's repository finds;
-- the update that follows writes the result into its row. `lower` stands for `toLowerCase`.
pub mod Laws
use automatebro.Prelude.{
  ℕ, String, Bool, true, false, ◌||◌, ◌&&◌, not, Option, none, some, List, [], ◌∷◌, ◌++◌, any, keep,
  length, take, ltb, ◌==◌, or_default, is_some, if◌then◌else◌,
}
use automatebro.Records.{Text, Lead}
use automatebro.Action.{Result, ok, err, plain}
use automatebro.Text.{text_eq, trim}

abbrev pub max_tag_length : ℕ
max_tag_length = 64

abbrev pub max_tags_per_lead : ℕ
max_tags_per_lead = 32

pub record UpdateLeadTagsInput : Type 0 where
  pub tags : Option (List Text)
  pub add : Option (List Text)
  pub remove : Option (List Text)

unfoldable pub normalise_tag : (Text → Text) → Text → Option Text
normalise_tag lower raw =
    let t = lower (trim raw) in if length t == 0 then none else some (take max_tag_length t)

abbrev pub cons_some : Option Text → List Text → List Text
cons_some none rest = rest
cons_some (some t) rest = t ∷ rest

-- `.map(normaliseTag).filter((t) => t !== null)`
unfoldable pub cleaned : (Text → Text) → List Text → List Text
cleaned lower [] = []
cleaned lower (raw ∷ rest) = cons_some (normalise_tag lower raw) (cleaned lower rest)

-- `dedupe`, with the tags seen so far.
unfoldable pub dedupe : List Text → List Text → List Text
dedupe seen [] = []
dedupe seen (t ∷ ts) = elim (any (text_eq t) seen) [
  | true ↦ dedupe seen ts
  | false ↦ t ∷ dedupe (t ∷ seen) ts
]

-- `Array.isArray(list) && list.length > 0`
abbrev pub is_used : Option (List Text) → Bool
is_used none = false
is_used (some list) = ltb 0 (length list)

unfoldable pub with_added : (Text → Text) → Option (List Text) → List Text → List Text
unfolding cleaned dedupe
with_added lower add existing =
    if is_used add then dedupe [] (existing ++ cleaned lower (or_default add [])) else existing

unfoldable pub with_removed : (Text → Text) → Option (List Text) → List Text → List Text
unfolding cleaned
with_removed lower remove tags =
    if is_used remove
    then keep (λ t. not (any (text_eq t) (cleaned lower (or_default remove [])))) tags
    else tags

-- The tags before the cut to 32.
unfoldable pub next_tags : (Text → Text) → UpdateLeadTagsInput → List Text → List Text
unfolding with_added with_removed
next_tags lower input existing = elim input.tags [
  | some tags ↦ dedupe [] (cleaned lower tags)
  | none ↦ with_removed lower input.remove (with_added lower input.add existing)
]

unfoldable pub update_lead_tags :
    (Text → Text) → UpdateLeadTagsInput → Option Lead → Result (List Text)
unfolding next_tags
update_lead_tags lower input lead =
    if not (is_some input.tags || (is_used input.add || is_used input.remove))
    then err (plain "updateLeadTags: provide tags / add / remove")
    else if is_some input.tags && (is_used input.add || is_used input.remove)
    then err (plain "updateLeadTags: tags is mutually exclusive with add/remove")
    else elim lead [
      | none ↦ err (plain "lead not found or not owned by this tenant")
      | some l ↦ ok (take max_tags_per_lead (next_tags lower input l.tags))
    ]
