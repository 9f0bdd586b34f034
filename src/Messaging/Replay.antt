-- ===== src/Messaging/Replay.antt =====
-- Capabilities and idempotency keys, over every lifecycle command at once.
use first_brief.Identity.Access.{has_capability}
use first_brief.Identity.Model.{User}
use first_brief.Prelude.{ℕ, true, false, some, find, ◌≡◌, arith}
use first_brief.Prelude.Tables.{lookup}
use first_brief.Errors.{Error, ok, err}
use first_brief.Messaging.Model.{Message, MessageRow, LifecycleCommand, command_eq}
use first_brief.Messaging.Requests.{Request, command_of, actor_of, capability_of, run}
use first_brief.Messaging.Transition.{has_key}
use first_brief.Messaging.Transition.Laws.{
  may, command_by-replays, command_by-refuses, command_by-denied,
}
use first_brief.Messaging.Lifecycle.{
  approve_message, release_message, make_effective, expire_message, archive_message,
}
use first_brief.Messaging.Withdrawal.{
  withdraw_message, cancel_message, unapprove_message, restore_message,
}
use first_brief.Store.{Db, Env}

pub run-replays :
    (env : Env) (q : Request) (message : Message) (expected key : ℕ) (db : Db)
    (c : LifecycleCommand) (r : MessageRow)
    → find (has_key message.pk key) db.commands ≡ some c
    → may (actor_of q) (capability_of q) ≡ true
    → command_eq c.command (command_of q) ≡ true
    → lookup message.pk db.messages ≡ some r
    → run env q message expected key db ≡ ok (record { pk = message.pk; row = r }, db)
unfolding approve_message release_message make_effective expire_message archive_message
    withdraw_message cancel_message unapprove_message restore_message
run-replays env (Request.approve actor why validity at) message expected key db c r found may_act
      same stored =
    command_by-replays _ _ _ _ _ _ db c found may_act r same stored
run-replays env (Request.release actor at) message expected key db c r found may_act same stored =
    command_by-replays _ _ _ _ _ _ db c found may_act r same stored
run-replays env (Request.become_effective actor at) message expected key db c r found may_act same
      stored =
    command_by-replays _ _ _ _ _ _ db c found may_act r same stored
run-replays env (Request.expire actor at) message expected key db c r found may_act same stored =
    command_by-replays _ _ _ _ _ _ db c found may_act r same stored
run-replays env (Request.archive actor) message expected key db c r found may_act same stored =
    command_by-replays _ _ _ _ _ _ db c found may_act r same stored
run-replays env (Request.withdraw actor reason) message expected key db c r found may_act same
      stored =
    command_by-replays _ _ _ _ _ _ db c found may_act r same stored
run-replays env (Request.cancel actor reason) message expected key db c r found may_act same
      stored =
    command_by-replays _ _ _ _ _ _ db c found may_act r same stored
run-replays env (Request.unapprove actor reason) message expected key db c r found may_act same
      stored =
    command_by-replays _ _ _ _ _ _ db c found may_act r same stored
run-replays env (Request.restore actor expiry_at reason) message expected key db c r found may_act
      same stored =
    command_by-replays _ _ _ _ _ _ db c found may_act r same stored

-- An authorised command whose key was used for another command of the same message fails with the
-- error for that, whatever else it asks for.
pub run-refuses_other_command :
    (env : Env) (q : Request) (message : Message) (expected key : ℕ) (db : Db)
    (c : LifecycleCommand)
    → find (has_key message.pk key) db.commands ≡ some c
    → may (actor_of q) (capability_of q) ≡ true
    → command_eq c.command (command_of q) ≡ false
    → run env q message expected key db ≡ err Error.key_used_for_other_command
unfolding approve_message release_message make_effective expire_message archive_message
    withdraw_message cancel_message unapprove_message restore_message
run-refuses_other_command env (Request.approve actor why validity at) message expected key db c
      found may_act other =
    command_by-refuses _ _ _ _ _ _ db c found may_act other
run-refuses_other_command env (Request.release actor at) message expected key db c found may_act
      other =
    command_by-refuses _ _ _ _ _ _ db c found may_act other
run-refuses_other_command env (Request.become_effective actor at) message expected key db c found
      may_act other =
    command_by-refuses _ _ _ _ _ _ db c found may_act other
run-refuses_other_command env (Request.expire actor at) message expected key db c found may_act
      other =
    command_by-refuses _ _ _ _ _ _ db c found may_act other
run-refuses_other_command env (Request.archive actor) message expected key db c found may_act
      other =
    command_by-refuses _ _ _ _ _ _ db c found may_act other
run-refuses_other_command env (Request.withdraw actor reason) message expected key db c found
      may_act other =
    command_by-refuses _ _ _ _ _ _ db c found may_act other
run-refuses_other_command env (Request.cancel actor reason) message expected key db c found may_act
      other =
    command_by-refuses _ _ _ _ _ _ db c found may_act other
run-refuses_other_command env (Request.unapprove actor reason) message expected key db c found
      may_act other =
    command_by-refuses _ _ _ _ _ _ db c found may_act other
run-refuses_other_command env (Request.restore actor expiry_at reason) message expected key db c
      found may_act other =
    command_by-refuses _ _ _ _ _ _ db c found may_act other

pub run-denies :
    (env : Env) (q : Request) (message : Message) (expected key : ℕ) (db : Db)
    → may (actor_of q) (capability_of q) ≡ false
    → run env q message expected key db ≡ err Error.no_capability
unfolding approve_message release_message make_effective expire_message archive_message
    withdraw_message cancel_message unapprove_message restore_message
run-denies env (Request.approve actor why validity at) message expected key db denied =
    command_by-denied _ _ _ _ _ _ db denied
run-denies env (Request.release actor at) message expected key db denied =
    command_by-denied _ _ _ _ _ _ db denied
run-denies env (Request.become_effective actor at) message expected key db denied =
    command_by-denied _ _ _ _ _ _ db denied
run-denies env (Request.expire actor at) message expected key db denied =
    command_by-denied _ _ _ _ _ _ db denied
run-denies env (Request.archive actor) message expected key db denied =
    command_by-denied _ _ _ _ _ _ db denied
run-denies env (Request.withdraw actor reason) message expected key db denied =
    command_by-denied _ _ _ _ _ _ db denied
run-denies env (Request.cancel actor reason) message expected key db denied =
    command_by-denied _ _ _ _ _ _ db denied
run-denies env (Request.unapprove actor reason) message expected key db denied =
    command_by-denied _ _ _ _ _ _ db denied
run-denies env (Request.restore actor expiry_at reason) message expected key db denied =
    command_by-denied _ _ _ _ _ _ db denied

-- An actor without the capability that a command requires is refused with the error for that,
-- whatever the message, the key and the expected version are.
pub run-denied :
    (env : Env) (q : Request) (message : Message) (expected key : ℕ) (db : Db) {actor : User}
    → actor_of q ≡ some actor
    → has_capability actor (capability_of q) ≡ false
    → run env q message expected key db ≡ err Error.no_capability
run-denied env q message expected key db {actor} by lacks =
    run-denies env q message expected key db (ground (arith, by, lacks))
