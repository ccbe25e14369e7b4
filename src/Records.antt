-- ===== src/Records.antt =====
-- The rows of the database, after packages/shared/src/db/schema.ts.
-- An identifier is a `String`, a date is its number of milliseconds since 1970, a text that the
-- program takes apart is the list of its UTF-16 code units. `null` and a missing field are both
-- `none`, but where the code tells them apart.
use automatebro.Prelude.{ℕ, String, Bool, Option, List}

-- A JavaScript string, as its code units.
abbrev pub Text : Type 0
Text = List ℕ

-- A field that the code compares with `null` alone.
pub data Nullable {ℓ} (A : Type ℓ) : Type ℓ where
  undefined : Nullable A
  null : Nullable A
  value : A → Nullable A

pub data SendStatus : Type 0 where
  queued sent failed rate_limited outside_window opted_out daily_cap_exceeded : SendStatus

pub data SendKind : Type 0 where
  dm comment_reply whatsapp_freeform whatsapp_template : SendKind

pub data Channel : Type 0 where
  instagram whatsapp : Channel

-- The texts that handlers put into `errorMessage`, with what they interpolate.
pub data ErrorMessage : Type 0 where
  send_row_not_found missing_tenant wa_account_not_found wa_account_disconnected : ErrorMessage
  recipient_opted_out window_expired empty_content no_template_id : ErrorMessage
  ig_account_not_found decrypt_failed : ErrorMessage
  daily_cap_reached : ℕ → ℕ → ErrorMessage
  template_not_approved : ErrorMessage
  limited : ℕ → ErrorMessage
  limited_at : ℕ → ℕ → ℕ → ErrorMessage
  meta_says send_threw : String → ErrorMessage
  response_not_found no_tenant_id no_key_no_fallback ai_failed_no_fallback output_flagged :
      ErrorMessage
  ai_cap_reached : ℕ → ℕ → ErrorMessage

-- schema.ts, SendSchema.
pub record Send : Type 0 where
  pub id : String
  pub tenant_id : Option String
  pub channel : Channel
  pub ig_account_id : Option String
  pub whatsapp_account_id : Option String
  pub automation_id : Option String
  pub event_id : Option String
  pub recipient_psid : Option String
  pub recipient_phone : Option String
  pub kind : SendKind
  pub whatsapp_template_id : Option String
  pub whatsapp_template_params : Option (List String)
  pub content : Text
  pub ai_generated : Bool
  pub status : SendStatus
  pub meta_message_id : Option String
  pub error_code : Option String
  pub error_message : Option ErrorMessage
  pub attempt : ℕ
  pub queued_at : ℕ
  pub sent_at : Option ℕ
  pub failed_at : Option ℕ

-- schema.ts, WhatsappCategorySchema.
pub data Category : Type 0 where
  service utility marketing authentication : Category

-- schema.ts, WhatsappTemplateStatusSchema.
pub data TemplateStatus : Type 0 where
  draft pending approved rejected paused disabled : TemplateStatus

pub record WhatsappTemplate : Type 0 where
  pub id : String
  pub name : String
  pub category : Category
  pub language : String
  pub status : TemplateStatus

-- The columns of an account that sending reads. `Token` is the encrypted access token.
pub record WhatsappAccount : Type 0 where
  pub id : String
  pub phone_number_id : String
  pub token : String
  pub daily_conversation_cap : ℕ
  pub disconnected_at : Option ℕ

pub record IgAccount : Type 0 where
  pub id : String
  pub ig_user_id : String
  pub token : String

-- schema.ts, the object under `conversationsByCategory`.
pub record Conversations : Type 0 where
  pub service : Option ℕ
  pub utility : Option ℕ
  pub marketing : Option ℕ
  pub authentication : Option ℕ

pub record WhatsappCosts : Type 0 where
  pub id : String
  pub conversations_by_category : Conversations

pub record Lead : Type 0 where
  pub id : String
  pub tenant_id : String
  pub ig_account_id : Option String
  pub ig_user_id : Option String
  pub ig_username : Option Text
  pub email : Option Text
  pub phone : Option String
  pub whatsapp_phone : Option String
  pub whatsapp_account_id : Option String
  pub whatsapp_opt_in_at : Option ℕ
  pub whatsapp_opt_out_at : Option ℕ
  pub last_whatsapp_inbound_at : Option ℕ
  pub last_template_conversation_at : Option ℕ
  pub first_seen_at : ℕ
  pub last_seen_at : ℕ
  pub tags : List Text
  pub attributed_automation_id : Option String

pub data MatchMode : Type 0 where
  contains exact starts_with : MatchMode

-- schema.ts, IntentSchema.
pub data Intent : Type 0 where
  buying support spam other : Intent

pub record Trigger : Type 0 where
  pub id : String
  pub automation_id : String
  pub keywords : List Text
  pub match_mode : MatchMode
  pub post_ids : Option (List String)
  pub intents : Option (List Intent)

pub data ResponseMode : Type 0 where
  static ai : ResponseMode

pub record ResponseRecord : Type 0 where
  pub id : String
  pub automation_id : String
  pub mode : ResponseMode
  pub template : Option Text
  pub comment_reply : Option Text
  pub ai_tone : Option String
  pub ai_prompt : Option Text
  pub fallback_template : Option Text
  pub whatsapp_template_id : Nullable String

-- The column of an automation that event processing reads: the query fixes the others.
pub record Automation : Type 0 where
  pub id : String

-- schema.ts, the `kind` of an event.
pub data EventKind : Type 0 where
  comment message story_reply message_reaction mention : EventKind
  whatsapp_message whatsapp_status whatsapp_template_status : EventKind

-- The columns of an event that processing reads, and the two texts of its payload that the classifier
-- reads as well: `change.value.text` and `messaging.message.text`. The confidence counts units of
-- which `confidence_one` make the number 1.
pub record EventRecord : Type 0 where
  pub id : String
  pub kind : EventKind
  pub comment_text : Option Text
  pub message_text : Option Text
  pub intent : Option Intent
  pub intent_confidence : Option ℕ
  pub tenant_id : Option String
  pub meta_event_id : String
  pub ig_account_id : Option String
  pub whatsapp_account_id : Option String
  pub processed_at : Option ℕ

-- schema.ts, AiUsageSchema.
pub record AiUsage : Type 0 where
  pub input_tokens : ℕ
  pub output_tokens : ℕ
  pub cost_inr : ℕ
  pub cap : ℕ

-- schema.ts, WhatsappOptInLogSchema.
pub data OptAction : Type 0 where
  opt_in opt_out : OptAction

pub data OptSource : Type 0 where
  whatsapp_inbound stop_keyword : OptSource

pub record OptInLog : Type 0 where
  pub id : String
  pub tenant_id : String
  pub whatsapp_account_id : String
  pub phone : String
  pub action : OptAction
  pub source : OptSource
  pub evidence : String
  pub recorded_at : ℕ
