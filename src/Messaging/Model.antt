-- ===== src/Messaging/Model.antt =====
-- firstbrief/messaging/models.py: the rows of the message aggregate. Times are microseconds since
-- the epoch; texts are strings; keys are numbers.
use first_brief.Prelude.{
  ℕ, Bool, true, ◌≡◌, ◌⊎◌, arith, false, ◌||◌, ◌==◌, Option, List, [], ◌∷◌, String,
}

pub data Kind : Type 0 where
  botd instruction : Kind

pub data Status : Type 0 where
  draft approved_pending_release released_pending_effective effective expired : Status
  archived withdrawn cancelled : Status

-- The slugs that `LifecycleCommand.command` holds.
pub data Command : Type 0 where
  approve release become_effective expire archive withdraw cancel unapprove restore : Command

pub data Right : Type 0 where
  prohibited allowed mandatory : Right

pub data FileRole : Type 0 where
  display print : FileRole

abbrev status_code : Status → ℕ
status_code Status.draft = 0
status_code Status.approved_pending_release = 1
status_code Status.released_pending_effective = 2
status_code Status.effective = 3
status_code Status.expired = 4
status_code Status.archived = 5
status_code Status.withdrawn = 6
status_code Status.cancelled = 7

-- The values that the audit log shows.
abbrev pub status_slug : Status → String
status_slug Status.draft = "draft"
status_slug Status.approved_pending_release = "approved_pending_release"
status_slug Status.released_pending_effective = "released_pending_effective"
status_slug Status.effective = "effective"
status_slug Status.expired = "expired"
status_slug Status.archived = "archived"
status_slug Status.withdrawn = "withdrawn"
status_slug Status.cancelled = "cancelled"

abbrev pub kind_slug : Kind → String
kind_slug Kind.botd = "botd"
kind_slug Kind.instruction = "instruction"

abbrev pub status_eq : Status → Status → Bool
status_eq a b = status_code a == status_code b

-- `status in {…}`
abbrev pub is_in : Status → List Status → Bool
is_in s [] = false
is_in s (t ∷ ts) = status_eq s t || is_in s ts

-- A state of a set with one or two members is one of them.
pub is_in-one : (s t : Status) → is_in s (t ∷ []) ≡ true → s ≡ t
is_in-one s t h = ground arith

pub is_in-two : (s t u : Status) → is_in s (t ∷ u ∷ []) ≡ true → (s ≡ t) ⊎ (s ≡ u)
is_in-two s t u h = ground arith

abbrev command_code : Command → ℕ
command_code Command.approve = 0
command_code Command.release = 1
command_code Command.become_effective = 2
command_code Command.expire = 3
command_code Command.archive = 4
command_code Command.withdraw = 5
command_code Command.cancel = 6
command_code Command.unapprove = 7
command_code Command.restore = 8

abbrev pub command_eq : Command → Command → Bool
command_eq a b = command_code a == command_code b

-- The audit action `f"message.{command}"`.
abbrev pub command_action : Command → String
command_action Command.approve = "message.approved"
command_action Command.release = "message.released"
command_action Command.become_effective = "message.effective"
command_action Command.expire = "message.expired"
command_action Command.archive = "message.archived"
command_action Command.withdraw = "message.withdrawn"
command_action Command.cancel = "message.cancelled"
command_action Command.unapprove = "message.unapproved"
command_action Command.restore = "message.restored"

-- The columns of a message.
pub record MessageRow : Type 0 where
  pub message_id : String
  pub kind : Kind
  pub message_type_id : ℕ
  pub subtype_id : Option ℕ
  pub originator_id : ℕ
  pub approvers : List ℕ
  pub status : Status
  pub lock_version : ℕ
  pub current_version_number : ℕ
  pub archive_on_expiry : Bool
  pub supersedes_id : Option ℕ
  pub updated_at : ℕ
  pub purged_at : Option ℕ

-- A model instance: the primary key and the columns as they were when the row was read.
pub record Message : Type 0 where
  pub pk : ℕ
  pub row : MessageRow
  pub open row use *

pub record MessageVersion : Type 0 where
  pub message_pk : ℕ
  pub version_number : ℕ
  pub title : String
  pub summary : String
  pub text_content : String
  pub searchable_content : String
  pub release_at : ℕ
  pub effective_at : Option ℕ
  pub expiry_at : ℕ
  pub created_by : ℕ

pub record MessageAudienceRight : Type 0 where
  pub message_pk : ℕ
  pub message_group_id : ℕ
  pub right : Right

pub record Approval : Type 0 where
  pub message_pk : ℕ
  pub version_number : ℕ
  pub actor_id : ℕ
  pub justification : String
  pub validity_justification : String

-- `from_status` is `none` for the empty text of a new message.
pub record MessageStatusHistory : Type 0 where
  pub message_pk : ℕ
  pub from_status : Option Status
  pub to_status : Status
  pub actor_id : Option ℕ
  pub reason : String
  pub aggregate_version : ℕ

pub record LifecycleCommand : Type 0 where
  pub message_pk : ℕ
  pub idempotency_key : ℕ
  pub command : Command
  pub resulting_status : Status
  pub aggregate_version : ℕ

-- A file of a version; only the role takes part in the lifecycle.
pub record FileAsset : Type 0 where
  pub message_pk : ℕ
  pub version_number : ℕ
  pub role : FileRole
