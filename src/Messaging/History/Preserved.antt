-- ===== src/Messaging/History/Preserved.antt =====
-- Creating, revising and the nine lifecycle commands keep the history true.
use first_brief.Prelude.Tables.{lookup-append, lookup-adjust}
use first_brief.Messaging.Authoring.Writing.{renumbered}
use first_brief.Messaging.Authoring.Frame.{
  create_message-Created, revise_message-Revised, creation_row,
}
use first_brief.Messaging.Guarantees.{run-Outcome}
use first_brief.Errors.{ok}
use first_brief.Messaging.Authoring.{Draft, Content, create_message, revise_message}
use first_brief.Identity.Model.{User}
use first_brief.Messaging.Requests.{Request, run, command_of}
use first_brief.Store.{Env, Db}
use first_brief.Messaging.Model.{Command, Message}
use first_brief.Prelude.{inl, inr, ℕ, arith, ◌≡◌, String}
use first_brief.Messaging.History.{IsChain, IsRecorded, last_status-snoc}
use first_brief.Messaging.StateMachine.{Effect}
use first_brief.Messaging.Transition.Laws.{history_row}

Effect-IsRecorded :
    (pk expected key : ℕ) (command : Command) (db : Db) {m : Message} {db' : Db}
    → IsRecorded db
    → Effect pk expected key command db m db'
    → IsRecorded db'
Effect-IsRecorded pk expected key command db i h =
    let row = history_row pk h.actor_id h.from h.to.status h.reason in
    record {
      chain = IsChain.snoc row i.chain (ground (arith, i.last pk, h.found)) h.history;
      last =
          λ j. ground (arith, h.history, last_status-snoc j db.history row, i.last j, h.written j);
    }

-- Each of the nine lifecycle commands keeps the status history true: every entry starts from the
-- status that the entries before it left, and the last entry of a message is its status.
pub run-IsRecorded :
    (env : Env) (q : Request) (message : Message) (expected key : ℕ) (db : Db) {m : Message}
    {db' : Db}
    → IsRecorded db
    → run env q message expected key db ≡ ok (m, db')
    → IsRecorded db'
run-IsRecorded env q message expected key db i done =
    elim (run-Outcome env q message expected key db done) [
      | inl r ↦ rw r.unchanged i
      | inr h ↦ Effect-IsRecorded message.pk expected key (command_of q) db i h
    ]

-- Creating a message keeps the status history true: the first entry of the new message comes from
-- no status and ends in the status of the row that was inserted.
pub create-IsRecorded :
    (env : Env) (actor : User) (draft : Draft) (content : Content) (db : Db) {m : Message}
    {db' : Db}
    → IsRecorded db
    → create_message env actor draft content db ≡ ok (m, db')
    → IsRecorded db'
create-IsRecorded env actor draft content db {m} i done =
    let h = create_message-Created env actor draft content db done in
    let row = creation_row actor m in
    record {
      chain = IsChain.snoc row i.chain (ground (arith, i.last m.pk, h.fresh, h.returned)) h.history;
      last = λ j. ground (
        arith,
        h.history,
        last_status-snoc j db.history row,
        i.last j,
        h.messages,
        h.fresh,
        h.returned,
        lookup-append j m.pk m.row db.messages,
      );
    }

-- Revising a message, which changes its row and its versions but never its status, keeps the
-- status history true.
pub revise-IsRecorded :
    (env : Env) (actor : User) (pk expected : ℕ) (content : Content) (reason : String) (db : Db)
    {m : Message} {db' : Db}
    → IsRecorded db
    → revise_message env actor pk expected content reason db ≡ ok (m, db')
    → IsRecorded db'
revise-IsRecorded env actor pk expected content reason db i done =
    let h = revise_message-Revised env actor pk expected content reason db done in
    record {
      chain = rw h.history i.chain;
      last = λ j. ground (
        arith,
        h.history,
        i.last j,
        h.messages,
        lookup-adjust j pk (renumbered h.locked.row) db.messages,
      );
    }
