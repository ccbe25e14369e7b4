-- ===== src/Matching.antt =====
-- What decides whether an automation fires and what it says. `matchesKeyword` and `renderTemplate`
-- are the same text in handlers/processDmEvent.ts, processCommentEvent.ts, processStoryReplyEvent.ts
-- and processWhatsappMessageEvent.ts; `intentGateAllows` is in classifyIntent.ts. `lower` stands for
-- `toLowerCase`.
pub mod Laws
use automatebro.Prelude.{
  ℕ, String, Bool, true, false, ◌&&◌, ◌||◌, Option, none, some, List, [], ◌∷◌, any, length, ◌==◌,
  str_eq, if◌then◌else◌,
}
use automatebro.Records.{
  Text, MatchMode, contains, exact, starts_with as at_start, Intent, buying, support, spam, other,
  Trigger,
}
use automatebro.Text.{text_eq, starts_with, includes, trim, replace_all}

unfoldable pub matches_keyword : (Text → Text) → Text → Text → MatchMode → Bool
matches_keyword lower text keyword exact = text_eq (trim (lower text)) (lower keyword)
matches_keyword lower text keyword at_start = starts_with (lower text) (lower keyword)
matches_keyword lower text keyword contains = includes (lower text) (lower keyword)

-- "{firstName}" and "{username}".
abbrev pub first_name_rest : Text
first_name_rest = 102 ∷ 105 ∷ 114 ∷ 115 ∷ 116 ∷ 78 ∷ 97 ∷ 109 ∷ 101 ∷ 125 ∷ []

abbrev pub username_rest : Text
username_rest = 117 ∷ 115 ∷ 101 ∷ 114 ∷ 110 ∷ 97 ∷ 109 ∷ 101 ∷ 125 ∷ []

unfoldable pub render_template : Text → Text → Text → Text
render_template template first_name username =
    replace_all (replace_all template (123 ∷ first_name_rest) first_name) (123 ∷ username_rest)
      username

abbrev pub intent_eq : Intent → Intent → Bool
intent_eq buying buying = true
intent_eq support support = true
intent_eq spam spam = true
intent_eq other other = true
intent_eq _ _ = false

unfoldable pub intent_gate_allows : Option (List Intent) → Option Intent → Bool
intent_gate_allows none intent = true
intent_gate_allows (some []) intent = true
intent_gate_allows (some (i ∷ is)) none = true
intent_gate_allows (some (i ∷ is)) (some intent) = any (intent_eq intent) (i ∷ is)

-- `trigger.keywords.length === 0 || trigger.keywords.some(…)`
unfoldable pub keyword_hit : (Text → Text) → Trigger → Text → Bool
keyword_hit lower trigger text =
    length trigger.keywords == 0
    || any (λ kw. matches_keyword lower text kw trigger.match_mode) trigger.keywords

-- The post scope of a comment trigger: `postIds` set, not empty, and the post known.
unfoldable pub in_post_scope : Option (List String) → Option String → Bool
in_post_scope none post = true
in_post_scope (some []) post = true
in_post_scope (some (i ∷ is)) none = true
in_post_scope (some (i ∷ is)) (some post) = any (λ id. str_eq id post) (i ∷ is)
