-- ===== src/Ai/Openai.antt =====
-- packages/shared/src/adapters/openai.ts: what each call makes of OpenAI's response. The cost is
-- computed exactly, where the source rounds as floating point does before it takes the ceiling.
use Prim.Native.Nat.{◌^◌}
use automatebro.Prelude.{
  [], ℕ, ◌+◌, ◌*◌, ◌/◌, String, Bool, true, false, ◌||◌, Option, none, some, leb, ltb, length, ◌==◌,
  or_default, if◌then◌else◌,
}
use automatebro.Records.{Text, Intent, buying, support, spam, other}
use automatebro.Action.{
  Result, ok, err, marked, Score, below_zero, units, ParsedVerdict, AiBody, AiFetched, ai_timed_out,
  ai_network_error, ai_response,
}
use automatebro.Adapters.Whatsapp.{is_ok_status}
use automatebro.Text.{text_eq}
use automatebro.Whatsapp.StopKeywords.{codes}

-- How many units make a confidence of 1. Every double that is not negative is a whole number of
-- 2 ^ -1074, so nothing is lost.
unfoldable pub confidence_one : ℕ
confidence_one = 2 ^ 1074

-- `new OpenAiError(message, status, retryable)`
abbrev pub openai_error : {A : Type 0} → String → Bool → Result A
openai_error m retryable = err (marked m retryable)

unfoldable pub openai_fetch : AiFetched → Result AiBody
openai_fetch ai_timed_out = openai_error "OpenAI timeout" true
openai_fetch (ai_network_error m) = openai_error m true
openai_fetch (ai_response status body) =
    if is_ok_status status
    then ok body
    else openai_error (or_default body.ai_error "HTTP error") (leb 500 status || status == 429)

pub record Completion : Type 0 where
  pub content : Text
  pub input_tokens : ℕ
  pub output_tokens : ℕ

abbrev pub completion_of : Text → AiBody → Completion
completion_of text body = record {
  content = text;
  input_tokens = or_default body.prompt_tokens 0;
  output_tokens = or_default body.completion_tokens 0;
}

-- The text of the first choice, which must not be empty.
abbrev pub content_of : String → Result AiBody → Result Completion
content_of m (err e) = err e
content_of m (ok body) =
    let text = or_default body.text [] in
    if length text == 0 then openai_error m false else ok (completion_of text body)

unfoldable pub chat_completion : AiFetched → Result Completion
unfolding openai_fetch
chat_completion f = content_of "OpenAI returned empty content" (openai_fetch f)

abbrev pub flag_of : Result AiBody → Result Bool
flag_of (err e) = err e
flag_of (ok body) = elim body.flagged [
  | none ↦ openai_error "OpenAI moderation returned no results" false
  | some flagged ↦ ok flagged
]

unfoldable pub moderate : AiFetched → Result Bool
unfolding openai_fetch
moderate f = flag_of (openai_fetch f)

-- In paise, at 0.15 and 0.60 dollars for a million tokens and 84 rupees for a dollar.
unfoldable pub compute_cost_paise : ℕ → ℕ → ℕ
compute_cost_paise input output = ((input * 15 + output * 60) * 84 + 999999) / 1000000

-- The label that a text names, `other` for any other text.
unfoldable pub label_of : (Text → Text) → Option Text → Intent
label_of lower none = other
label_of lower (some text) =
    if text_eq (lower text) (codes "buying")
    then buying
    else if text_eq (lower text) (codes "support")
    then support
    else if text_eq (lower text) (codes "spam")
    then spam
    else other

-- `Math.max(0, Math.min(1, rawConfidence))`, 0 for no number.
unfoldable pub clamp : Option Score → ℕ
clamp none = 0
clamp (some below_zero) = 0
clamp (some (units n)) = if ltb confidence_one n then confidence_one else n

pub record Classified : Type 0 where
  pub intent : Intent
  pub confidence : ℕ
  pub input_tokens : ℕ
  pub output_tokens : ℕ

-- `parse` is `JSON.parse` and what is read of its result.
abbrev pub verdict_of :
    (Text → Text) → (Text → Option ParsedVerdict) → Result Completion → Result Classified
verdict_of lower parse (err e) = err e
verdict_of lower parse (ok c) = elim (parse c.content) [
  | none ↦ openai_error "OpenAI classifier returned non-JSON" false
  | some p ↦ ok (record {
    intent = label_of lower p.intent_text;
    confidence = clamp p.score;
    input_tokens = c.input_tokens;
    output_tokens = c.output_tokens;
  })
]

unfoldable pub classify_intent :
    (Text → Text) → (Text → Option ParsedVerdict) → AiFetched → Result Classified
unfolding openai_fetch
classify_intent lower parse f =
    verdict_of lower parse (content_of "OpenAI classifier returned empty content" (openai_fetch f))
