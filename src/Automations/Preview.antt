-- ===== src/Automations/Preview.antt =====
-- packages/shared/src/handlers/automations/previewAutomation.ts: what an automation would answer. The
-- reason of the decision is the data that its text interpolates; the rows are what `repo` finds.
use automatebro.Prelude.{
  ◌≡◌, refl, ◌∙◌, Bool, true, false, not, ◌&&◌, ◌||◌, Option, none, some, List, [], ◌∷◌, arith, any,
  length, ◌==◌, or_default, is_some, if◌then◌else◌, Bool-cases, inl, inr,
}
use automatebro.Records.{Text, MatchMode, Trigger, ResponseRecord, ResponseMode, static, ai}
use automatebro.Matching.{matches_keyword, keyword_hit, render_template}

pub data MatchReason : Type 0 where
  no_trigger no_response : MatchReason
  matched_keyword : Text → MatchMode → MatchReason
  no_keyword : List Text → MatchMode → MatchReason

pub record PreviewAutomationResult : Type 0 where
  pub matched : Bool
  pub match_reason : MatchReason
  pub mode : ResponseMode
  pub rendered_content : Option Text
  pub rendered_comment_reply : Option Text

abbrev pub no_match : MatchReason → ResponseMode → PreviewAutomationResult
no_match reason mode = record {
  matched = false;
  match_reason = reason;
  mode = mode;
  rendered_content = none;
  rendered_comment_reply = none;
}

-- `trigger.keywords.find(…)`
unfoldable pub find_keyword : (Text → Text) → Text → MatchMode → List Text → Option Text
find_keyword lower text mode [] = none
find_keyword lower text mode (kw ∷ more) =
    let rest = find_keyword lower text mode more in
    if matches_keyword lower text kw mode then some kw else rest

-- A text that is not empty is rendered, an empty one is nothing.
unfoldable pub rendered : Text → Text → Option Text
rendered template username =
    if length template == 0 then none else some (render_template template username username)

unfoldable pub content_of : ResponseRecord → ResponseMode → Text → Option Text
unfolding rendered
content_of response static username = rendered (or_default response.template []) username
content_of response ai username =
    rendered (or_default response.fallback_template (or_default response.template [])) username

unfoldable pub on_keyword : Trigger → ResponseRecord → Text → Option Text → PreviewAutomationResult
unfolding content_of rendered
on_keyword trigger response username none =
    no_match (no_keyword trigger.keywords trigger.match_mode) response.mode
on_keyword trigger response username (some kw) = record {
  matched = true;
  match_reason = matched_keyword kw trigger.match_mode;
  mode = response.mode;
  rendered_content = content_of response response.mode username;
  rendered_comment_reply = rendered (or_default response.comment_reply []) username;
}

on_rows :
    (Text → Text) → Text → Text → Option Trigger → Option ResponseRecord → PreviewAutomationResult
unfolding on_keyword find_keyword
on_rows lower text username none response = no_match no_trigger static
on_rows lower text username (some trigger) none = no_match no_response static
on_rows lower text username (some trigger) (some response) =
    on_keyword trigger response username
      (find_keyword lower text trigger.match_mode trigger.keywords)

-- "sample_user"
abbrev pub sample_user : Text
sample_user = 115 ∷ 97 ∷ 109 ∷ 112 ∷ 108 ∷ 101 ∷ 95 ∷ 117 ∷ 115 ∷ 101 ∷ 114 ∷ []

unfoldable pub preview_automation :
    (Text → Text)
    → Text
    → Option Text
    → Option Trigger
    → Option ResponseRecord
    → PreviewAutomationResult
unfolding on_rows
preview_automation lower text username trigger response =
    on_rows lower text (or_default username sample_user) trigger response

module _ (lower : Text → Text) (text : Text) where
  find_keyword-any :
      (mode : MatchMode) (keywords : List Text)
      → is_some (find_keyword lower text mode keywords)
        ≡ any (λ kw. matches_keyword lower text kw mode) keywords
  unfolding find_keyword
  find_keyword-any mode [] = refl
  find_keyword-any mode (kw ∷ more) = elim (Bool-cases (matches_keyword lower text kw mode)) [
    | inl e ↦ rw e
    | inr e ↦ rw e (find_keyword-any mode more)
  ]

  on_keyword-matched :
      (trigger : Trigger) (response : ResponseRecord) (username : Text) (found : Option Text)
      → (on_keyword trigger response username found).matched ≡ is_some found
  unfolding on_keyword
  on_keyword-matched trigger response username none = refl
  on_keyword-matched trigger response username (some kw) = refl

  any-some :
      (trigger : Trigger) (keywords : List Text)
      → any (λ kw. matches_keyword lower text kw trigger.match_mode) keywords ≡ (
          not (length keywords == 0)
          && (length keywords == 0
              || any (λ kw. matches_keyword lower text kw trigger.match_mode) keywords))
  any-some trigger [] = refl
  any-some trigger (kw ∷ more) = rw some_length refl
    where
      some_length : (length (kw ∷ more) == 0) ≡ false
      some_length = ground arith

  -- The preview says that an automation matches just when its trigger has a keyword and the
  -- handlers of events find that the text hits: for a trigger without keywords they find that any
  -- text does, and the preview says that none does.
  pub preview_automation-keyword_hit :
      (trigger : Trigger) (response : ResponseRecord) (username : Option Text)
      → (preview_automation lower text username (some trigger) (some response)).matched
        ≡ (not (length trigger.keywords == 0) && keyword_hit lower trigger text)
  unfolding preview_automation on_rows keyword_hit
  preview_automation-keyword_hit trigger response username =
      on_keyword-matched trigger response _ _
      ∙ find_keyword-any trigger.match_mode trigger.keywords
      ∙ any-some trigger trigger.keywords
