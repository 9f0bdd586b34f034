-- ===== src/Messaging/Withdrawal.antt =====
-- The commands of firstbrief/messaging/services.py that take a message back: withdraw, cancel,
-- unapprove, restore and supersede.
use first_brief.Prelude.{
  ℕ, ◌+◌, Bool, false, ◌||◌, Option, some, [], ◌∷◌, ◌++◌, String, leb, ◌==◌, if◌then◌else◌,
  is_blank, is_some, some_and, str_eq, opt_eq,
}
use first_brief.Prelude.Tables.{Table, lookup}
use first_brief.Errors.{Error}
use first_brief.Identity.Model.{User}
use first_brief.Identity.Access.{approve_messages, manage_messages}
use first_brief.Messaging.Model.{Status, Command, Message, MessageRow, MessageVersion}
use first_brief.Messaging.Validation.{message_full_clean, version_full_clean}
use first_brief.Messaging.Transition.{command_by, lock_message, transition}
use first_brief.Assurance.Model.{Datum}
use first_brief.Store.{
  Env, Tx, ◌>>=◌, ◌>>◌, gets, modify, guard, refuse, or_raise, require_capability, update_message,
  audit_message, current_version,
}

unfoldable pub withdraw_message : Env → User → Message → ℕ → String → ℕ → Tx Message
withdraw_message env actor message expected_version reason key =
    command_by (some actor) manage_messages message.pk key Command.withdraw (do
      refuse (is_blank reason) Error.reason_required
      version ← current_version message
      refuse (some_and version.effective_at (λ e. leb e env.now)) Error.already_effective
      transition env message.pk (some actor.pk) expected_version key Command.withdraw
          (Status.approved_pending_release ∷ Status.released_pending_effective ∷ [])
          Status.withdrawn reason)

unfoldable pub cancel_message : Env → User → Message → ℕ → String → ℕ → Tx Message
cancel_message env actor message expected_version reason key =
    command_by (some actor) manage_messages message.pk key Command.cancel (do
      refuse (is_blank reason) Error.reason_required
      transition env message.pk (some actor.pk) expected_version key Command.cancel
          (Status.released_pending_effective ∷ Status.effective ∷ []) Status.cancelled reason)

unfoldable pub unapprove_message : Env → User → Message → ℕ → String → ℕ → Tx Message
unapprove_message env actor message expected_version reason key =
    command_by (some actor) approve_messages message.pk key Command.unapprove (do
      refuse (is_blank reason) Error.reason_required
      version ← current_version message
      refuse (leb version.release_at env.now) Error.past_release_time
      transition env message.pk (some actor.pk) expected_version key Command.unapprove
          (Status.approved_pending_release ∷ []) Status.draft reason)

-- `message.save(update_fields=(…, "updated_at"))` of a row that exists; `save` refuses another
-- `message_id` than the stored one.
unfoldable pub save_message : ℕ → String → ℕ → (MessageRow → MessageRow) → Tx (Unit {0})
unfolding update_message
save_message pk message_id now f = do
  stored ← gets (λ db. lookup pk db.messages)
  r ← or_raise Error.does_not_exist stored
  guard (str_eq r.message_id message_id) Error.message_id_immutable
  update_message pk (λ row. record (f row) { updated_at = now })

abbrev pub restored_version : ℕ → MessageVersion → ℕ → ℕ → MessageVersion
restored_version number v author expiry_at = record v {
  version_number = number;
  expiry_at = expiry_at;
  created_by = author;
}

-- The new version of a restored message, which becomes the current one.
unfoldable pub add_restored_version : Env → User → ℕ → Message → Tx (Unit {0})
unfolding save_message
add_restored_version env actor expiry_at locked = do
  version ← current_version locked
  let replacement = restored_version (locked.current_version_number + 1) version actor.pk expiry_at
  version_full_clean env locked.message_type_id replacement
  modify (λ db. record db { versions = db.versions ++ replacement ∷ [] })
  save_message locked.pk locked.message_id env.now
      (λ row. record row { current_version_number = replacement.version_number })

unfoldable pub restore_message : Env → User → Message → ℕ → Option ℕ → String → ℕ → Tx Message
restore_message env actor message expected_version future_expiry_at reason key =
    command_by (some actor) manage_messages message.pk key Command.restore (do
      expiry_at ← or_raise Error.expiry_required future_expiry_at
      refuse (leb expiry_at env.now) Error.expiry_not_in_future
      locked ← lock_message message.pk expected_version
      add_restored_version env actor expiry_at locked
      transition env message.pk (some actor.pk) expected_version key Command.restore
          (Status.archived ∷ []) Status.effective
          (if str_eq reason "" then "Message restored." else reason))

-- `Message.objects.filter(supersedes=…).exists()`
unfoldable pub is_superseded : ℕ → Table MessageRow → Bool
is_superseded pk [] = false
is_superseded pk ((j, r) ∷ t) = opt_eq r.supersedes_id (some pk) || is_superseded pk t

abbrev pub superseding : Message → ℕ → Message
superseding replacement original_pk = record replacement {
  row = record replacement.row { supersedes_id = some original_pk };
}

unfoldable pub supersede_message : Env → User → ℕ → Message → ℕ → String → Tx (Unit {0})
unfolding require_capability lock_message is_superseded save_message update_message audit_message
supersede_message env actor original_pk replacement expected_original_version reason = do
  require_capability actor manage_messages
  locked ← lock_message original_pk expected_original_version
  linked ← gets (λ db. is_superseded original_pk db.messages)
  refuse (is_some replacement.supersedes_id || linked) Error.supersession_exists
  message_full_clean env (superseding replacement original_pk)
  save_message replacement.pk replacement.message_id env.now
      (λ row. record row { supersedes_id = some original_pk })
  update_message original_pk (λ row.
      if row.lock_version == expected_original_version
      then record row { lock_version = row.lock_version + 1 }
      else row)
  audit_message env "message.superseded" (some actor.pk) locked []
      (("replacement_id", Datum.text replacement.message_id) ∷ []) reason
