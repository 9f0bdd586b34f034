-- ===== src/Messaging/Transition/Laws.antt =====
-- What `_transition` does to the database when it succeeds.
use first_brief.Prelude.{
  ℕ, ◌+◌, Bool, true, Option, none, some, List, [], ◌∷◌, ◌++◌, String, find, Option-cases, ◌≡◌, ◌⊎◌,
  inl, inr, arith, false,
}
use first_brief.Prelude.Tables.{lookup, adjust, lookup-adjust}
use first_brief.Errors.{ok, err, Error}
use first_brief.Identity.Model.{User}
use first_brief.Identity.Access.{has_capability}
use first_brief.Messaging.Model.{
  Status, Command, Message, MessageRow, LifecycleCommand, is_in, command_eq, MessageStatusHistory,
}
use first_brief.Store.{Db, Env, Tx, get_message, require_if_given}
use first_brief.Messaging.Transition.{
  move, has_key, perform, transition, or_replay, replayed_command, command_by, lock_message,
}

-- The rows that a transition adds.
abbrev pub history_row : ℕ → Option ℕ → MessageRow → Status → String → MessageStatusHistory
history_row pk actor_id from target reason = record {
  message_pk = pk;
  from_status = some from.status;
  to_status = target;
  actor_id = actor_id;
  reason = reason;
  aggregate_version = from.lock_version + 1;
}

abbrev pub command_row : ℕ → ℕ → Command → MessageRow → Status → LifecycleCommand
command_row pk key command from target = record {
  message_pk = pk;
  idempotency_key = key;
  command = command;
  resulting_status = target;
  aggregate_version = from.lock_version + 1;
}

-- The database `db'` is `db` with one message moved to `target`, under the lock and in an allowed
-- state, and with the evidence of it.
pub record Moved (pk : ℕ) (actor_id : Option ℕ) (expected key : ℕ) (command : Command)
    (allowed : List Status) (target : Status) (reason : String) (db : Db) (m : Message) (db' : Db)
    : Type 0 where
  pub from : MessageRow
  pub unused : find (has_key pk key) db.commands ≡ none
  pub found : lookup pk db.messages ≡ some from
  pub current : from.lock_version ≡ expected
  pub permitted : is_in from.status allowed ≡ true
  pub returned : m ≡ record { pk = pk; row = move target from }
  pub messages : db'.messages ≡ adjust pk (move target) db.messages
  pub written : lookup pk db'.messages ≡ some (move target from)
  pub history : db'.history ≡ db.history ++ history_row pk actor_id from target reason ∷ []
  pub commands : db'.commands ≡ db.commands ++ command_row pk key command from target ∷ []
  pub versions : db'.versions ≡ db.versions
  pub rights : db'.rights ≡ db.rights
  pub jobs : db'.jobs ≡ db.jobs
  pub outbox : db'.outbox ≡ db.outbox

-- The key was used for the same command, and nothing is written.
pub record Replayed (pk key : ℕ) (command : Command) (db : Db) (m : Message) (db' : Db)
    : Type 0 where
  pub known : LifecycleCommand
  pub found : find (has_key pk key) db.commands ≡ some known
  pub same : command_eq known.command command ≡ true
  pub unchanged : db' ≡ db
  pub row : MessageRow
  pub stored : lookup pk db.messages ≡ some row
  pub returned : m ≡ record { pk = pk; row = row }

-- `actor is None` or the actor has the capability.
abbrev pub may : Option User → String → Bool
may none codename = true
may (some user) codename = has_capability user codename

-- A command that succeeds behind its replay was replayed, or ran with a key that was not used.
pub or_replay-ok :
    (pk key : ℕ) (command : Command) (rest : Tx Message) (db : Db) {m : Message} {db' : Db}
    → or_replay (replayed_command pk key command) rest db ≡ ok (m, db')
    → Replayed pk key command db m db'
      ⊎ (find (has_key pk key) db.commands ≡ none) × (rest db ≡ ok (m, db'))
unfolding or_replay replayed_command get_message
or_replay-ok pk key command rest db {m} done =
    elim (Option-cases (find (has_key pk key) db.commands)) [
      | inl unused ↦ inr (unused, ground (arith, unused))
      | inr (known, found) ↦ inl (record {
        known = known;
        found = found;
        same = ground arith;
        unchanged = ground arith;
        row = m.row;
        stored = ground arith;
        returned = ground arith;
      })
    ]

-- The actor's right, and then either a replay or the rest with a key that was not used.
pub command_by-ok :
    (actor : Option User) (codename : String) (pk key : ℕ) (command : Command) (rest : Tx Message)
    (db : Db) {m : Message} {db' : Db}
    → command_by actor codename pk key command rest db ≡ ok (m, db')
    → (may actor codename ≡ true)
      × (Replayed pk key command db m db'
          ⊎ (find (has_key pk key) db.commands ≡ none) × (rest db ≡ ok (m, db')))
unfolding command_by require_if_given
command_by-ok actor codename pk key command rest db {m} {db'} done =
    let let_in : may actor codename ≡ true = ground arith in
    let ran : or_replay (replayed_command pk key command) rest db ≡ ok (m, db') = ground arith in
    (let_in, or_replay-ok pk key command rest db ran)

module _ (env : Env) (pk : ℕ) (actor_id : Option ℕ) (expected key : ℕ) (command : Command)
    (allowed : List Status) (target : Status) (reason : String) (db : Db) {m : Message}
    {db' : Db} where
  perform-Moved :
      find (has_key pk key) db.commands ≡ none
      → perform env pk actor_id expected key command allowed target reason db ≡ ok (m, db')
      → Moved pk actor_id expected key command allowed target reason db m db'
  unfolding perform
  perform-Moved unused done = ground (arith, lookup-adjust pk pk (move target) db.messages)

  pub transition-Moved :
      transition env pk actor_id expected key command allowed target reason db ≡ ok (m, db')
      → Replayed pk key command db m db'
        ⊎ Moved pk actor_id expected key command allowed target reason db m db'
  unfolding transition or_replay
  transition-Moved done =
      elim (or_replay-ok pk key command
        (perform env pk actor_id expected key command allowed target reason) db done) [
          | inl replayed ↦ inl replayed
          | inr (unused, ran) ↦ inr (perform-Moved unused ran)
        ]

pub lock_same :
    (pk expected : ℕ) (db : Db) {db' : Db} {m : Message}
    → lock_message pk expected db ≡ ok (m, db')
    → db' ≡ db
unfolding lock_message
lock_same pk expected db done = ground arith

-- What a lock gives: the row as it is, at the expected version.
pub lock-ok :
    (pk expected : ℕ) (db : Db) {db' : Db} {m : Message}
    → lock_message pk expected db ≡ ok (m, db')
    → (lookup pk db.messages ≡ some m.row) × (m.pk ≡ pk) × (m.lock_version ≡ expected)
unfolding lock_message
lock-ok pk expected db done = ground arith

module _ (actor : Option User) (codename : String) (pk key : ℕ) (command : Command)
    (rest : Tx Message) (db : Db) (c : LifecycleCommand)
    (found : find (has_key pk key) db.commands ≡ some c) (may_act : may actor codename ≡ true) where
  -- A key that was used for this command answers with the row as it is.
  pub command_by-replays :
      (r : MessageRow)
      → command_eq c.command command ≡ true
      → lookup pk db.messages ≡ some r
      → command_by actor codename pk key command rest db ≡ ok (record { pk = pk; row = r }, db)
  unfolding command_by require_if_given or_replay replayed_command get_message
  command_by-replays r same stored = ground arith

  -- A key that was used for another command is refused.
  pub command_by-refuses :
      command_eq c.command command ≡ false
      → command_by actor codename pk key command rest db ≡ err Error.key_used_for_other_command
  unfolding command_by require_if_given or_replay replayed_command
  command_by-refuses other = ground arith

-- Nobody acts without the capability.
pub command_by-denied :
    (actor : Option User) (codename : String) (pk key : ℕ) (command : Command) (rest : Tx Message)
    (db : Db)
    → may actor codename ≡ false
    → command_by actor codename pk key command rest db ≡ err Error.no_capability
unfolding command_by require_if_given
command_by-denied actor codename pk key command rest db denied = ground arith
