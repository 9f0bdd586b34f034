-- ===== src/Messaging/Requests.antt =====
-- The lifecycle commands as one type of requests, and the service that each of them calls.
use first_brief.Prelude.{ℕ, Option, some, String}
use first_brief.Identity.Model.{User}
use first_brief.Identity.Access.{approve_messages, manage_messages}
use first_brief.Messaging.Model.{Command, Message}
use first_brief.Messaging.Lifecycle.{
  approve_message, release_message, make_effective, expire_message, archive_message,
}
use first_brief.Messaging.Withdrawal.{
  withdraw_message, cancel_message, unapprove_message, restore_message,
}
use first_brief.Store.{Env, Tx}

pub data Request : Type 0 where
  approve : User → String → String → Option ℕ → Request
  release : Option User → Option ℕ → Request
  become_effective : Option User → Option ℕ → Request
  expire : Option User → Option ℕ → Request
  archive : Option User → Request
  withdraw : User → String → Request
  cancel : User → String → Request
  unapprove : User → String → Request
  restore : User → Option ℕ → String → Request

abbrev pub command_of : Request → Command
command_of (Request.approve _ _ _ _) = Command.approve
command_of (Request.release _ _) = Command.release
command_of (Request.become_effective _ _) = Command.become_effective
command_of (Request.expire _ _) = Command.expire
command_of (Request.archive _) = Command.archive
command_of (Request.withdraw _ _) = Command.withdraw
command_of (Request.cancel _ _) = Command.cancel
command_of (Request.unapprove _ _) = Command.unapprove
command_of (Request.restore _ _ _) = Command.restore

-- `message` is the caller's instance, `expected` the version that it saw, `key` the idempotency key.
abbrev pub run : Env → Request → Message → ℕ → ℕ → Tx Message
run env (Request.approve actor why validity at) message expected key =
    approve_message env actor message.pk expected why validity key at
run env (Request.release actor at) message expected key =
    release_message env actor message expected key at
run env (Request.become_effective actor at) message expected key =
    make_effective env actor message expected key at
run env (Request.expire actor at) message expected key =
    expire_message env actor message expected key at
run env (Request.archive actor) message expected key =
    archive_message env actor message expected key
run env (Request.withdraw actor reason) message expected key =
    withdraw_message env actor message expected reason key
run env (Request.cancel actor reason) message expected key =
    cancel_message env actor message expected reason key
run env (Request.unapprove actor reason) message expected key =
    unapprove_message env actor message expected reason key
run env (Request.restore actor expiry_at reason) message expected key =
    restore_message env actor message expected expiry_at reason key

-- Who asks, with `none` for the scheduler, and the capability that the command requires.
abbrev pub actor_of : Request → Option User
actor_of (Request.approve actor _ _ _) = some actor
actor_of (Request.release actor _) = actor
actor_of (Request.become_effective actor _) = actor
actor_of (Request.expire actor _) = actor
actor_of (Request.archive actor) = actor
actor_of (Request.withdraw actor _) = some actor
actor_of (Request.cancel actor _) = some actor
actor_of (Request.unapprove actor _) = some actor
actor_of (Request.restore actor _ _) = some actor

abbrev pub capability_of : Request → String
capability_of (Request.approve _ _ _ _) = approve_messages
capability_of (Request.unapprove _ _) = approve_messages
capability_of _ = manage_messages
