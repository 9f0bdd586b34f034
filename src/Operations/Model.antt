-- ===== src/Operations/Model.antt =====
-- firstbrief/operations/models.py: receipts, viewing sessions, reading positions and the access log. The
-- rows of reading refer to messages and users by key; a `Viewed` message carries the annotation
-- `audience_mandatory` of the query that found it.
use first_brief.Prelude.{ℕ, Bool, Option, List, String}
use first_brief.Notifications.Model.{NotificationJob}
use first_brief.Prelude.Tables.{Table}
use first_brief.Assurance.Model.{AuditEvent, Detail}

pub record OperationalPolicy : Type 0 where
  pub pre_effective_hours : ℕ
  pub pre_effective_colour : String
  pub idle_timeout_seconds : ℕ

pub record DashboardPreference : Type 0 where
  pub show_forthcoming : Bool
  pub show_botd : Bool
  pub show_approvals : Bool
  pub show_returned_drafts : Bool
  pub show_notification_failures : Bool
  pub show_expiring_instructions : Bool
  pub show_recently_opened : Bool
  pub item_limit : ℕ
  pub expiring_within_days : ℕ

-- Integers of forms, which may be negative.
pub data ℤ : Type 0 where
  pos negsuc : ℕ → ℤ

pub record Viewed : Type 0 where
  pub pk : ℕ
  pub current_version_number : ℕ
  pub audience_mandatory : Bool

pub record MessageReceipt : Type 0 where
  pub user_pk : ℕ
  pub message_pk : ℕ
  pub first_read_at : Option ℕ
  pub cleared_at : Option ℕ
  pub cumulative_view_seconds : ℕ
  pub printed_at : Option ℕ
  pub emailed_at : Option ℕ
  pub last_accessed_at : Option ℕ

-- `version_number` is that of the version of the session, if it has one.
pub record MessageViewSession : Type 0 where
  pub user_pk : ℕ
  pub message_pk : ℕ
  pub version_number : Option ℕ
  pub mandatory_at_open : Bool
  pub browser_session_key : String
  pub opened_at : ℕ
  pub closed_at : Option ℕ
  pub active_seconds : ℕ

pub record ReadingPosition : Type 0 where
  pub user_pk : ℕ
  pub message_pk : ℕ
  pub version_number : ℕ
  pub page : ℕ
  pub total_pages : ℕ

pub data EventType : Type 0 where
  opened acknowledged cleared read printed emailed feedback : EventType

pub record MessageAccessEvent : Type 0 where
  pub user_pk : ℕ
  pub message_pk : ℕ
  pub event_type : EventType
  pub browser_session_key : String
  pub duration_seconds : ℕ
  pub metadata : Detail

-- The tables that reading writes. They are those of the whole database: the notifications and the log
-- are the same as those of the message services.
pub record Readings : Type 0 where
  pub receipts : List MessageReceipt
  pub sessions : Table MessageViewSession
  pub positions : List ReadingPosition
  pub events : List MessageAccessEvent
  pub notifications : List NotificationJob
  pub audit : List AuditEvent
