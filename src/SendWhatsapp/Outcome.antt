-- ===== src/SendWhatsapp/Outcome.antt =====
-- handlers/sendWhatsapp.ts: what the handler reports, and `persistTerminal`.
use automatebro.Prelude.{ℕ, String, Option, none, some}
use automatebro.Records.{ErrorMessage, SendStatus, sent}
use automatebro.Action.{
  Env, Action, SendUpdate, no_update, set_send, perform, now, pure, ◌>>=◌, ◌>>◌,
}

pub record SendWhatsappOutcome : Type 0 where
  pub status : SendStatus
  pub meta_message_id : Option String
  pub error_message : Option ErrorMessage

abbrev pub outcome_of : SendStatus → SendWhatsappOutcome
outcome_of s = record { status = s; meta_message_id = none; error_message = none }

abbrev pub problem : SendStatus → ErrorMessage → SendWhatsappOutcome
problem s m = record { status = s; meta_message_id = none; error_message = some m }

abbrev pub delivered : String → SendWhatsappOutcome
delivered id = record { status = sent; meta_message_id = some id; error_message = none }

-- The `$set` of `persistTerminal`; an outcome's field that is undefined leaves the column alone.
unfoldable pub terminal_update : SendWhatsappOutcome → ℕ → SendUpdate
terminal_update o time = elim o.status [
  | sent ↦ record no_update {
    status = some sent;
    sent_at = some time;
    meta_message_id = o.meta_message_id;
  }
  | s ↦ record no_update { status = some s; failed_at = some time; error_message = o.error_message }
]

module _ (env : Env) where
  unfoldable pub persist_terminal : String → SendWhatsappOutcome → Action (Unit {0})
  persist_terminal id o = do time ← now env; perform env (set_send id (terminal_update o time))

  -- Persists an outcome and returns it.
  unfoldable pub refuse : String → SendWhatsappOutcome → Action SendWhatsappOutcome
  unfolding persist_terminal
  refuse id o = do persist_terminal id o; pure o
