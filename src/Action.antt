-- ===== src/Action.antt =====
-- Handlers as actions. A handler of packages/shared/src/handlers asks the services around it (the
-- database behind StrictDB, Redis, BullMQ, Meta's APIs, the clock, the random generator) and writes
-- to them. None of these is code of the repository, so they are the parameter `Env`: what each
-- answers, at every point of the history of writes so far. That history, the newest write first, is
-- the state of an action, and every write of a handler stands in it.
use automatebro.Prelude.{
  ℕ, String, ◌≡◌, refl, ◌⊎◌, inl, inr, Bool, Option, none, some, List, [], ◌∷◌,
}
use automatebro.Records.{
  Text, Send, SendStatus, ErrorMessage, Lead, WhatsappAccount, WhatsappTemplate, WhatsappCosts,
  Conversations, IgAccount, Trigger, ResponseRecord, Automation, Intent, OptInLog, AiUsage,
  EventRecord, EventKind, TemplateStatus,
}

-- What `{ $set: …, $inc: { attempt } }` on a row of `sends` holds. A field not set is `none`.
pub record SendUpdate : Type 0 where
  pub status : Option SendStatus
  pub content : Option Text
  pub error_code : Option String
  pub meta_message_id : Option String
  pub error_message : Option ErrorMessage
  pub sent_at : Option ℕ
  pub failed_at : Option ℕ
  pub inc_attempt : ℕ

abbrev pub no_update : SendUpdate
no_update = record {
  status = none;
  content = none;
  error_code = none;
  meta_message_id = none;
  error_message = none;
  sent_at = none;
  failed_at = none;
  inc_attempt = 0;
}

-- What the upsert of captureLead holds: its filter, the columns under `$set`, and the identifier of a
-- row that it inserts.
pub record LeadCapture : Type 0 where
  pub tenant_id : String
  pub ig_account_id : String
  pub ig_user_id : String
  pub seen_at : ℕ
  pub ig_username : Option Text
  pub email : Option Text
  pub phone : Option Text
  pub new_id : String

-- What a webhook sets in a row of `whatsappTemplates`: the status, the time under the status's name,
-- the reason (`some none` is null).
pub record TemplateUpdate : Type 0 where
  pub status : TemplateStatus
  pub updated_at : ℕ
  pub approved_at : Option ℕ
  pub rejected_at : Option ℕ
  pub paused_at : Option ℕ
  pub rejection_reason : Option (Option String)

-- A row that a webhook inserts into `events`, less its payload.
pub record NewEvent : Type 0 where
  pub id : String
  pub tenant_id : Option String
  pub meta_event_id : String
  pub kind : EventKind
  pub ig_account_id : Option String
  pub whatsapp_account_id : Option String
  pub received_at : ℕ

-- queue/jobTypes.ts, the jobs of the `events` queue that carry a send.
pub data JobData : Type 0 where
  send_dm : String → Option String → Option String → Text → Option String → JobData
  generate_ai_reply : String → String → String → JobData
  send_comment_reply : String → String → String → Text → JobData
  send_whatsapp : String → String → String → Text → String → JobData

-- A request to one of Meta's messaging endpoints, the access token first.
pub data Post : Type 0 where
  template_message : String → String → String → String → String → List String → Post
  freeform_message : String → String → String → Text → Post
  dm_message : String → String → String → Text → Post
  comment_reply_message : String → String → Text → Post

-- What the code reads of a response's JSON body: a message's identifier, `id`, the error.
pub record Body : Type 0 where
  pub message_id : Option String
  pub object_id : Option String
  pub error_text : Option String
  pub error_code : Option ℕ
  pub error_subcode : Option ℕ

-- The TypeError of reading a property of null.
abbrev pub null_read : String
null_read = "Cannot read properties of null"

-- How a `fetch` ends; `none` is a body that is not JSON, `null_body` one that is the JSON null.
pub data Fetched : Type 0 where
  timed_out : Fetched
  network_error : String → Fetched
  response : ℕ → Option Body → Fetched
  null_body : ℕ → Fetched

-- A number that a model writes into its JSON: one below zero, or a count of units.
pub data Score : Type 0 where
  below_zero : Score
  units : ℕ → Score

-- What `JSON.parse` makes of the classifier's text, as far as the code reads it: `typeof` a string, a
-- number.
pub record ParsedVerdict : Type 0 where
  pub intent_text : Option Text
  pub score : Option Score

-- What the code reads of OpenAI's response.
pub record AiBody : Type 0 where
  pub text : Option Text
  pub prompt_tokens : Option ℕ
  pub completion_tokens : Option ℕ
  pub flagged : Option Bool
  pub ai_error : Option String

pub data AiFetched : Type 0 where
  ai_timed_out : AiFetched
  ai_network_error : String → AiFetched
  ai_response : ℕ → AiBody → AiFetched

-- A request to OpenAI: a reply for a system and a user prompt, a moderation, an intent.
pub data AiRequest : Type 0 where
  complete : Text → Text → AiRequest
  moderation : Text → AiRequest
  intent_of : Text → AiRequest

-- A year and a month of it, the key `YYYY-MM`.
abbrev pub Month : Type 0
Month = ℕ × ℕ

pub data Effect : Type 0 where
  set_send : String → SendUpdate → Effect
  insert_send : Send → Effect
  insert_lead : Lead → Effect
  lead_seen : String → ℕ → Option Text → Effect
  lead_opted_out : String → ℕ → Effect
  lead_conversation : String → ℕ → Effect
  insert_opt_log : OptInLog → Effect
  insert_ai_usage : String → String → Month → ℕ → Effect
  inc_ai_usage : String → Month → ℕ → ℕ → ℕ → Effect
  set_intent : String → Intent → ℕ → Effect
  ask_ai : AiRequest → Effect
  insert_costs : String → String → String → Month → Conversations → Effect
  set_costs : String → Conversations → Effect
  enqueue : JobData → Effect
  evict : String → ℕ → Effect
  zadd : String → ℕ → String → Effect
  expire : String → ℕ → Effect
  zrem : String → String → Effect
  post : Post → Effect
  upsert_captured : LeadCapture → Effect
  set_template : String → TemplateUpdate → Effect
  insert_event : NewEvent → Effect
  enqueue_event : String → Effect
  mark_processed : String → ℕ → Effect
  refused : Effect → Effect

abbrev pub send_id_of : JobData → String
send_id_of (send_dm id _ _ _ _) = id
send_id_of (generate_ai_reply _ _ id) = id
send_id_of (send_comment_reply id _ _ _) = id
send_id_of (send_whatsapp id _ _ _ _) = id

abbrev pub Trace : Type 0
Trace = List Effect

-- adapters/whatsapp.ts, WhatsappApiError.
pub record WhatsappApiError : Type 0 where
  pub message : String
  pub status_code : ℕ
  pub meta_code : Option ℕ

-- adapters/meta.ts, MetaApiError.
pub record MetaApiError : Type 0 where
  pub message : String
  pub status_code : ℕ
  pub meta_code : Option ℕ
  pub meta_subcode : Option ℕ

-- The account that a webhook is about, and its tenant.
pub record Owner : Type 0 where
  pub account_id : String
  pub tenant_id : String

-- What can be thrown: an error with no mark, one whose `retryable` is set, an API error.
pub data Error : Type 0 where
  plain : String → Error
  marked : String → Bool → Error
  api : WhatsappApiError → Error
  meta_api : MetaApiError → Error

pub data Result {ℓ} (A : Type ℓ) : Type ℓ where
  ok : A → Result A
  err : Error → Result A

pub Result-cases {ℓ} :
    {A : Type ℓ} (r : Result A) → ((a : A) × (r ≡ ok a)) ⊎ ((e : Error) × (r ≡ err e))
Result-cases (ok a) = inl (a, refl)
Result-cases (err e) = inr (e, refl)

-- A handler that writes effects of type `E`: what it returns or throws, and the history after it.
abbrev pub Handler : Type 0 → Type 0 → Type 0
Handler E A = List E → Result A × List E

abbrev pub Action : Type 0 → Type 0
Action A = Handler Effect A

module _ {E : Type 0} where
  abbrev pub pure : {A : Type 0} → A → Handler E A
  pure a t = (ok a, t)

  abbrev pub throw : {A : Type 0} → Error → Handler E A
  throw e t = (err e, t)

  -- Asks a service; nothing is written.
  abbrev pub ask : {A : Type 0} → (List E → Result A) → Handler E A
  ask f t = (f t, t)

  -- A pure step that may throw.
  abbrev pub lift : {A : Type 0} → Result A → Handler E A
  lift r t = (r, t)

  -- Reads a value that is always there, such as the clock.
  abbrev pub read : {A : Type 0} → (List E → A) → Handler E A
  read f t = (ok (f t), t)

  abbrev pub continue : {A B : Type 0} → Result A → (A → Handler E B) → Handler E B
  continue (ok a) f t = f a t
  continue (err e) f t = (err e, t)

  abbrev pub recover : {A : Type 0} → Result A → (Error → Handler E A) → Handler E A
  recover (ok a) h t = (ok a, t)
  recover (err e) h t = h e t

  -- `try { m } catch (err) { h err }`: what `m` wrote before it threw stays written.
  abbrev pub catching : {A : Type 0} → Handler E A → (Error → Handler E A) → Handler E A
  catching m h t = let (r, t') = m t in recover r h t'

infixl 5 ◌>>=◌ ◌>>◌
abbrev pub ◌>>=◌ : {E A B : Type 0} → Handler E A → (A → Handler E B) → Handler E B
◌>>=◌ m f t = let (r, t') = m t in continue r f t'

abbrev pub ◌>>◌ : {E B : Type 0} → Handler E (Unit {0}) → Handler E B → Handler E B
m >> k = m >>= λ _. k

-- `.catch(() => null)` on a query.
abbrev pub or_null : {A : Type 0} → Result (Option A) → Option A
or_null (ok a) = a
or_null (err e) = none

-- One call of `pipeline.exec()`: `none` is a null reply, and an entry is `none` for no number.
abbrev pub Replies : Type 0
Replies = Option (List (Option ℕ))

-- `replies[2]?.[1] ?? 0`
abbrev pub third_reply : List (Option ℕ) → ℕ
third_reply (a ∷ b ∷ some n ∷ rest) = n
third_reply _ = 0

pub record Env : Type 0 where
  pub clock : Trace → ℕ
  pub random : Trace → String
  pub accepts : Trace → Effect → Result (Unit {0})
  pub connect : Trace → Result (Unit {0})
  pub query_send : Trace → String → Result (Option Send)
  pub count_sends : Trace → String → Result ℕ
  pub query_whatsapp_account : Trace → String → Result (Option WhatsappAccount)
  pub query_ig_account : Trace → String → Result (Option IgAccount)
  pub query_lead : Trace → String → String → Result (Option Lead)
  pub query_costs : Trace → String → String → Month → Result (Option WhatsappCosts)
  pub query_template : Trace → String → Result (Option WhatsappTemplate)
  pub events_since : Trace → String → ℕ → Result ℕ
  pub query_automations : Trace → String → String → String → Result (List Automation)
  pub query_trigger : Trace → String → Result (Option Trigger)
  pub query_response : Trace → String → Result (Option ResponseRecord)
  pub find_response : Trace → String → Result (Option ResponseRecord)
  pub query_plan : Trace → String → Result (Option String)
  pub query_ai_usage : Trace → String → Month → Result (Option AiUsage)
  pub has_openai_key : Bool
  pub ai_answer : Trace → AiRequest → AiFetched
  pub parse_json : Text → Option ParsedVerdict
  pub exec : Trace → String → Result Replies
  pub zrange_first : Trace → String → Result (Option ℕ)
  pub decrypt : String → String → Result String
  pub answer : Trace → Post → Fetched
  pub query_event : Trace → String → Result (Option EventRecord)
  pub owner_of_ig_user : Trace → String → Result (Option Owner)
  pub owner_of_phone_number : Trace → String → Result (Option Owner)
  pub owner_of_waba : Trace → String → Result (Option Owner)
  pub find_meta_template : Trace → String → Result (Option WhatsappTemplate)

-- `err instanceof Error ? err.message : String(err)`
abbrev pub message_of : Error → String
message_of (plain m) = m
message_of (marked m r) = m
message_of (api e) = e.message
message_of (meta_api e) = e.message

module _ (env : Env) where
  -- A write that the service may refuse; a refused write is not in the history.
  abbrev pub perform : Effect → Action (Unit {0})
  perform e t = elim (env.accepts t e) [ ok _ ↦ (ok tt, e ∷ t) | err x ↦ (err x, t) ]

  -- An insertion that another writer may have come before: a refusal is in the history, so that a
  -- read after it may show the other's row.
  abbrev pub perform_or_lose : Effect → Action (Unit {0})
  perform_or_lose e t = elim (env.accepts t e) [
    | ok _ ↦ (ok tt, e ∷ t)
    | err x ↦ (err x, refused e ∷ t)
  ]

  -- A request to Meta is in the history whatever comes back: it may have had its effect.
  abbrev pub request : Post → Action Fetched
  request p t = (ok (env.answer t p), post p ∷ t)

  -- The same for OpenAI.
  abbrev pub request_ai : AiRequest → Action AiFetched
  request_ai p t = (ok (env.ai_answer t p), ask_ai p ∷ t)

  -- A write whose failure is swallowed, `.catch(() => undefined)`.
  abbrev pub attempt_write : Effect → Action (Unit {0})
  attempt_write e t = elim (env.accepts t e) [ ok _ ↦ (ok tt, e ∷ t) | err x ↦ (ok tt, t) ]

  -- A command that a pipeline sends; what came of it is read from the replies.
  abbrev pub send_command : Effect → Action (Unit {0})
  send_command e t = (ok tt, e ∷ t)

  abbrev pub now : Action ℕ
  now = read env.clock

-- The requests to Meta in a history, newest first.
abbrev pub posts : Trace → List Post
posts [] = []
posts (post p ∷ t) = p ∷ posts t
posts (set_send _ _ ∷ t) = posts t
posts (_ ∷ t) = posts t

-- The requests to OpenAI in a history, newest first.
abbrev pub ai_asked : Trace → List AiRequest
ai_asked [] = []
ai_asked (ask_ai p ∷ t) = p ∷ ai_asked t
ai_asked (set_send _ _ ∷ t) = ai_asked t
ai_asked (_ ∷ t) = ai_asked t

-- The rows that a history inserts into `sends`, and the jobs that it puts into the queue.
abbrev pub inserted : Trace → List Send
inserted [] = []
inserted (insert_send s ∷ t) = s ∷ inserted t
inserted (set_send _ _ ∷ t) = inserted t
inserted (_ ∷ t) = inserted t

abbrev pub jobs : Trace → List JobData
jobs [] = []
jobs (enqueue j ∷ t) = j ∷ jobs t
jobs (set_send _ _ ∷ t) = jobs t
jobs (_ ∷ t) = jobs t
