-- ===== src/Messaging/Transition.antt =====
-- The core of firstbrief/messaging/services.py: optimistic locking, replayed commands and
-- `_transition`, through which every lifecycle command writes the status.
pub mod Laws
use first_brief.Prelude.{
  ℕ, ◌+◌, Bool, ◌&&◌, Option, none, some, List, [], ◌∷◌, ◌++◌, String, find, ◌==◌, if◌then◌else◌,
}
use first_brief.Prelude.Tables.{lookup, adjust}
use first_brief.Errors
use first_brief.Identity.Model.{User}
use first_brief.Errors.{Error, ok, err}
use first_brief.Messaging.Model.{
  Status, Command, Message, MessageRow, LifecycleCommand, is_in, status_slug, command_eq,
  command_action,
}
use first_brief.Store.{
  ◌>>=◌, ◌>>◌, Env, Tx, pure, raise, gets, modify, guard, get_message, audit_message,
  require_if_given,
}
use first_brief.Assurance.Model.{Datum}

-- The command that a message holds under an idempotency key.
abbrev pub has_key : ℕ → ℕ → LifecycleCommand → Bool
has_key pk key c = c.message_pk == pk && c.idempotency_key == key

replay_of : ℕ → Command → Option LifecycleCommand → Tx (Option Message)
replay_of pk command none = pure none
replay_of pk command (some existing) =
    if command_eq existing.command command
    then (do message ← get_message pk; pure (some message))
    else raise Error.key_used_for_other_command

-- `_replayed_command`
unfoldable pub replayed_command : ℕ → ℕ → Command → Tx (Option Message)
unfolding replay_of
replayed_command pk key command = do
  existing ← gets (λ db. find (has_key pk key) db.commands)
  replay_of pk command existing

-- `replayed = _replayed_command(…)`, and the rest of the command where it is `None`
unfoldable pub or_replay : Tx (Option Message) → Tx Message → Tx Message
or_replay replayed rest = do
  found ← replayed
  λ db. elim found [ none ↦ rest db | some message ↦ ok (message, db) ]

-- What every lifecycle command begins with: the capability of the actor, if one is given, and the
-- replay of a known key.
unfoldable pub command_by : Option User → String → ℕ → ℕ → Command → Tx Message → Tx Message
command_by actor codename pk key command rest = do
  require_if_given actor codename
  or_replay (replayed_command pk key command) rest

-- `_lock_message`
unfoldable pub lock_message : ℕ → ℕ → Tx Message
unfolding get_message
lock_message pk expected_version = do
  locked ← get_message pk
  guard (locked.lock_version == expected_version) Error.stale_message
  pure locked

-- `Message.objects.filter(pk=pk, lock_version=expected).update(…)` and the test `updated != 1`
unfoldable pub update_locked : ℕ → ℕ → (MessageRow → MessageRow) → Tx (Unit {0})
update_locked pk expected_version f db = elim (lookup pk db.messages) [
  | none ↦ err Error.stale_message
  | some r ↦
      if r.lock_version == expected_version
      then ok (tt, record db { messages = adjust pk f db.messages })
      else err Error.stale_message
]

abbrev pub move : Status → MessageRow → MessageRow
move target r = record r { status = target; lock_version = r.lock_version + 1 }

-- The history row, the command row and the audit event of a transition.
unfoldable pub record_transition :
    Env → Option ℕ → ℕ → ℕ → Command → Status → Status → String → Message → Tx (Unit {0})
unfolding audit_message
record_transition env actor_id expected_version key command from_status target reason locked = do
  modify (λ db. record db {
    history =
        db.history
        ++ record {
          message_pk = locked.pk;
          from_status = some from_status;
          to_status = target;
          actor_id = actor_id;
          reason = reason;
          aggregate_version = locked.lock_version;
        }
          ∷ [];
    commands =
        db.commands
        ++ record {
          message_pk = locked.pk;
          idempotency_key = key;
          command = command;
          resulting_status = target;
          aggregate_version = locked.lock_version;
        }
          ∷ [];
  })
  audit_message env (command_action command) actor_id locked
      (("status", Datum.text (status_slug from_status))
        ∷ ("lock_version", Datum.number expected_version)
        ∷ [])
      (("status", Datum.text (status_slug target))
        ∷ ("lock_version", Datum.number locked.lock_version)
        ∷ [])
      reason

-- The part of `_transition` behind the replay of a known key.
unfoldable pub perform :
    Env → ℕ → Option ℕ → ℕ → ℕ → Command → List Status → Status → String → Tx Message
unfolding lock_message get_message update_locked record_transition
perform env pk actor_id expected_version key command allowed target reason = do
  locked ← lock_message pk expected_version
  guard (is_in locked.status allowed) Error.wrong_status
  update_locked pk expected_version (move target)
  moved ← get_message pk
  record_transition env actor_id expected_version key command locked.status target reason moved
  pure moved

-- `_transition`
unfoldable pub transition :
    Env → ℕ → Option ℕ → ℕ → ℕ → Command → List Status → Status → String → Tx Message
unfolding replayed_command or_replay
transition env pk actor_id expected_version key command allowed target reason =
    or_replay (replayed_command pk key command)
      (perform env pk actor_id expected_version key command allowed target reason)
