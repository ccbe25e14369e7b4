-- ===== src/Rows.antt =====
-- What StrictDB documents of `updateOne` by `_id`: `$set` replaces the columns that it names, `$inc`
-- adds, and a later read of the row shows it.
use automatebro.Prelude.{◌+◌, String, ◌≡◌, none, some, Option, ◌∷◌}
use automatebro.Records.{Send}
use automatebro.Action.{Env, Trace, SendUpdate, ok, set_send}

abbrev pub set_field {ℓ} : {A : Type ℓ} → Option A → A → A
set_field none old = old
set_field (some new) old = new

-- The row after `updateOne`, by the documented meaning of `$set` and `$inc`.
abbrev pub apply_update : SendUpdate → Send → Send
apply_update u s = record s {
  status = set_field u.status s.status;
  content = set_field u.content s.content;
  error_code = elim u.error_code [ none ↦ s.error_code | some m ↦ some m ];
  meta_message_id = elim u.meta_message_id [ none ↦ s.meta_message_id | some m ↦ some m ];
  error_message = elim u.error_message [ none ↦ s.error_message | some m ↦ some m ];
  attempt = s.attempt + u.inc_attempt;
  sent_at = elim u.sent_at [ none ↦ s.sent_at | some m ↦ some m ];
  failed_at = elim u.failed_at [ none ↦ s.failed_at | some m ↦ some m ];
}

-- A row read after an update of it shows the update.
abbrev pub ReadsUpdates : Env → Type 0
ReadsUpdates env =
    (t : Trace) (id : String) (u : SendUpdate) (row : Send)
    → env.query_send t id ≡ ok (some row)
    → env.query_send (set_send id u ∷ t) id ≡ ok (some (apply_update u row))
