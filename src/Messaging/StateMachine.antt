-- ===== src/Messaging/StateMachine.antt =====
-- docs/state-machine.md as a relation, and what one lifecycle command does to one message.
use first_brief.Prelude.{
  ℕ, ◌+◌, true, Option, none, some, List, [], ◌∷◌, ◌++◌, String, find, ◌≡◌, arith, if◌then◌else◌,
  ◌==◌,
}
use first_brief.Prelude.Tables.{lookup, lookup-adjust}
use first_brief.Messaging.Model.{Status, Command, Message, MessageRow, is_in}
use first_brief.Messaging.Transition.{move, has_key}
use first_brief.Messaging.Transition.Laws.{Moved, history_row, command_row}
use first_brief.Store.{Db}

-- The transition table, with the restoring of an archived message.
pub data Step : Status → Command → Status → Type 0 where
  approve : Step Status.draft Command.approve Status.approved_pending_release
  unapprove : Step Status.approved_pending_release Command.unapprove Status.draft
  release : Step Status.approved_pending_release Command.release Status.released_pending_effective
  release_at_once : Step Status.approved_pending_release Command.release Status.effective
  withdraw : Step Status.approved_pending_release Command.withdraw Status.withdrawn
  become_effective :
      Step Status.released_pending_effective Command.become_effective Status.effective
  withdraw_released : Step Status.released_pending_effective Command.withdraw Status.withdrawn
  cancel_released : Step Status.released_pending_effective Command.cancel Status.cancelled
  expire : Step Status.effective Command.expire Status.expired
  cancel : Step Status.effective Command.cancel Status.cancelled
  archive : Step Status.expired Command.archive Status.archived
  archive_cancelled : Step Status.cancelled Command.archive Status.archived
  archive_withdrawn : Step Status.withdrawn Command.archive Status.archived
  restore : Step Status.archived Command.restore Status.effective

-- One message took one step under the lock, and history, commands and the other rows agree.
pub record Effect (pk expected key : ℕ) (command : Command) (db : Db) (m : Message) (db' : Db)
    : Type 0 where
  pub from : MessageRow
  pub to : MessageRow
  pub actor_id : Option ℕ
  pub reason : String
  pub unused : find (has_key pk key) db.commands ≡ none
  pub found : lookup pk db.messages ≡ some from
  pub current : from.lock_version ≡ expected
  pub step : Step from.status command to.status
  pub bumped : to.lock_version ≡ from.lock_version + 1
  pub returned : m ≡ record { pk = pk; row = to }
  pub written :
      (j : ℕ) → lookup j db'.messages ≡ (if pk == j then some to else lookup j db.messages)
  pub history : db'.history ≡ db.history ++ history_row pk actor_id from to.status reason ∷ []
  pub commands : db'.commands ≡ db.commands ++ command_row pk key command from to.status ∷ []

module _ {pk : ℕ} {actor_id : Option ℕ} {expected key : ℕ} {command : Command}
    {allowed : List Status} {target : Status} {reason : String} {db : Db} {m : Message}
    {db' : Db} where
  pub Moved-Effect :
      Moved pk actor_id expected key command allowed target reason db m db'
      → ((s : Status) → is_in s allowed ≡ true → Step s command target)
      → Effect pk expected key command db m db'
  Moved-Effect h steps = record {
    from = h.from;
    to = move target h.from;
    actor_id = actor_id;
    reason = reason;
    unused = h.unused;
    found = h.found;
    current = h.current;
    step = steps h.from.status h.permitted;
    bumped = omega arith;
    returned = h.returned;
    written = λ j. ground (arith, lookup-adjust j pk (move target) db.messages);
    history = h.history;
    commands = h.commands;
  }
