-- ===== src/Messaging/Guarantees.antt =====
-- What the lifecycle commands guarantee, over every command at once.
use first_brief.Messaging.Replay.{run-replays, run-denies}
use first_brief.Prelude.{
  ◌∷◌, [], ◌∙◌, Bool-cases, find-append_none, ℕ, none, find, ◌≡◌, ◌≢◌, ◌⊎◌, inl, inr, arith, some,
  find-append_none, true, refl,
}
use first_brief.Errors.{ok}
use first_brief.Messaging.Model.{Message, Command, LifecycleCommand, MessageRow, command_eq, Status}
use first_brief.Messaging.Requests.{Request, command_of, run, actor_of, capability_of}
use first_brief.Messaging.Transition.{has_key}
use first_brief.Messaging.Transition.Laws.{Replayed, command_row, may}
use first_brief.Messaging.StateMachine.{Effect}
use first_brief.Messaging.Effects.{
  release-Outcome, make_effective-Outcome, expire-Outcome, archive-Outcome, withdraw-Outcome,
  cancel-Outcome, unapprove-Outcome,
}
use first_brief.Messaging.Effects.Approving.{approve-Outcome}
use first_brief.Messaging.Effects.Restoring.{restore-Outcome}
use first_brief.Store.{Db, Env}

-- A lifecycle command that succeeds either was answered from an earlier use of its key, with
-- nothing written, or took its message one step along the transition table, from the expected lock
-- version to the next one, left every other message row alone, and added one history row and one
-- command row that record the step.
pub run-Outcome :
    (env : Env) (q : Request) (message : Message) (expected key : ℕ) (db : Db) {m : Message}
    {db' : Db}
    → run env q message expected key db ≡ ok (m, db')
    → Replayed message.pk key (command_of q) db m db'
      ⊎ Effect message.pk expected key (command_of q) db m db'
run-Outcome env (Request.approve actor why validity at) message expected key db done =
    approve-Outcome env actor message.pk expected why validity key at db done
run-Outcome env (Request.release actor at) message expected key db done =
    release-Outcome env message expected key db actor at done
run-Outcome env (Request.become_effective actor at) message expected key db done =
    make_effective-Outcome env message expected key db actor at done
run-Outcome env (Request.expire actor at) message expected key db done =
    expire-Outcome env message expected key db actor at done
run-Outcome env (Request.archive actor) message expected key db done =
    archive-Outcome env message expected key db actor done
run-Outcome env (Request.withdraw actor reason) message expected key db done =
    withdraw-Outcome env message expected key db actor reason done
run-Outcome env (Request.cancel actor reason) message expected key db done =
    cancel-Outcome env message expected key db actor reason done
run-Outcome env (Request.unapprove actor reason) message expected key db done =
    unapprove-Outcome env message expected key db actor reason done
run-Outcome env (Request.restore actor expiry_at reason) message expected key db done =
    restore-Outcome env actor message expected expiry_at reason key db done

-- Of two commands that saw the same version of a message only one takes effect: after one that ran
-- with a new key, any command that expects the same version, with any key that is not used either,
-- does not succeed.
pub second_command_fails :
    (env : Env) (q q' : Request) (message message' : Message) (expected key key' : ℕ) (db : Db)
    {m : Message} {db' : Db}
    → message'.pk ≡ message.pk
    → find (has_key message.pk key) db.commands ≡ none
    → run env q message expected key db ≡ ok (m, db')
    → find (has_key message.pk key') db'.commands ≡ none
    → (m' : Message) (db'' : Db) → run env q' message' expected key' db' ≢ ok (m', db'')
second_command_fails env q q' message message' expected key key' db same unused done unused' m' db''
      done' =
    elim (run-Outcome env q message expected key db done) [
      | inl r ↦ cc (r.found, unused)
      | inr h ↦ elim (run-Outcome env q' message' expected key' _ done') [
        | inl r' ↦ ground (arith, r'.found, same)
        | inr h' ↦
            ground (arith, h'.found, h'.current, same, h.written message.pk, h.bumped, h.current)
      ]
    ]

own_row :
    (pk key : ℕ) (command : Command) (from : MessageRow) (target : Status)
    → find (has_key pk key) (command_row pk key command from target ∷ [])
      ≡ some (command_row pk key command from target)
unfolding find
own_row pk key command from target = ground arith

known_after :
    (pk expected key : ℕ) (command : Command) (db : Db) {m : Message} {db' : Db}
    → Effect pk expected key command db m db'
    → (c : LifecycleCommand) × (find (has_key pk key) db'.commands ≡ some c) × (c.command ≡ command)
known_after pk expected key command db h =
    let row = command_row pk key command h.from h.to.status in
    (
      row,
      rw h.commands (
          find-append_none (has_key pk key) db.commands (row ∷ []) h.unused
          ∙ own_row pk key command h.from h.to.status),
      refl,
    )

command_eq_refl : (c : Command) → command_eq c c ≡ true
command_eq_refl c = ground arith

-- An actor whose command succeeds has the capability that it requires.
pub authorised :
    (env : Env) (q : Request) (message : Message) (expected key : ℕ) (db : Db) {m : Message}
    {db' : Db}
    → run env q message expected key db ≡ ok (m, db')
    → may (actor_of q) (capability_of q) ≡ true
authorised env q message expected key db done =
    elim (Bool-cases (may (actor_of q) (capability_of q))) [
      | inl granted ↦ granted
      | inr denied ↦ cc (done, run-denies env q message expected key db denied)
    ]

-- A command that succeeded can be sent again, at any later time and under any other policies: it
-- succeeds, returns the same message and writes nothing, whatever version the repeated call
-- expects and however old its instance is.
pub repeated_command :
    (env env' : Env) (q : Request) (message message' : Message) (expected expected' key : ℕ)
    (db : Db) {m : Message} {db' : Db}
    → message'.pk ≡ message.pk
    → run env q message expected key db ≡ ok (m, db')
    → run env' q message' expected' key db' ≡ ok (m, db')
repeated_command env env' q message message' expected expected' key db {m} {db'} same done =
    let may_act = authorised env q message expected key db done in
    elim (run-Outcome env q message expected key db done) [
      | inl r ↦
          run-replays env' q message' expected' key db' r.known r.row
            (cc (r.found, same, r.unchanged)) may_act r.same (cc (r.stored, same, r.unchanged))
          ∙ cc (same, r.returned)
      | inr h ↦
          let (c, found, same_command) = known_after message.pk expected key (command_of q) db h in
          run-replays env' q message' expected' key db' c h.to (cc (found, same)) may_act
            (rw same_command (command_eq_refl (command_of q)))
            (ground (arith, h.written message.pk, same))
          ∙ cc (same, h.returned)
    ]
