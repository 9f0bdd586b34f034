-- ===== src/Notifications/Model.antt =====
-- firstbrief/notifications/models.py: the policy, the lifecycle jobs, the outbox and the email jobs.
-- A deduplication key is an f-string of a fixed prefix and of keys that contain no colon; the model
-- keeps its parts, so that two keys are equal exactly when their parts are.
use first_brief.Prelude.{ℕ, Option, List, String}
use first_brief.Errors.{Error}

pub data Anchor : Type 0 where
  now release effective : Anchor

-- A wall-clock time in some zone: the day, and the microseconds since its midnight.
pub record LocalTime : Type 0 where
  pub day : ℕ
  pub time : ℕ

-- A time zone: `astimezone(zone)` and its way back, `datetime.combine(...).astimezone(UTC)`.
pub record Zone : Type 0 where
  pub to_local : ℕ → LocalTime
  pub to_instant : LocalTime → ℕ

-- The offsets are signed minutes in the source: `later` minutes are added, `earlier` subtracted.
pub record Offset : Type 0 where
  pub later : ℕ
  pub earlier : ℕ

pub record NotificationPolicy : Type 0 where
  pub creation_anchor : Anchor
  pub creation_offset_minutes : Offset
  pub approval_anchor : Anchor
  pub approval_offset_minutes : Offset
  pub quiet_hours_start : Option ℕ
  pub quiet_hours_end : Option ℕ
  pub timezone_name : String
  pub maximum_attempts : ℕ
  pub retry_delay_minutes : ℕ
  pub archive_retention_days : ℕ

-- What a lifecycle job does when it is due.
pub data Transition : Type 0 where
  release effective expire archive retention_review unapproved_alert : Transition

abbrev pub transition_code : Transition → ℕ
transition_code Transition.release = 0
transition_code Transition.effective = 1
transition_code Transition.expire = 2
transition_code Transition.archive = 3
transition_code Transition.retention_review = 4
transition_code Transition.unapproved_alert = 5

pub data JobStatus : Type 0 where
  pending completed skipped dead cancelled : JobStatus

abbrev pub job_status_code : JobStatus → ℕ
job_status_code JobStatus.pending = 0
job_status_code JobStatus.completed = 1
job_status_code JobStatus.skipped = 2
job_status_code JobStatus.dead = 3
job_status_code JobStatus.cancelled = 4

-- The key `lifecycle:{message}:{version}:{transition}` is the first three columns. `last_error` is
-- `none` for the empty text.
pub record LifecycleJob : Type 0 where
  pub message_pk : ℕ
  pub version_number : ℕ
  pub transition : Transition
  pub due_at : ℕ
  pub status : JobStatus
  pub attempts : ℕ
  pub last_error : Option Error
  pub completed_at : Option ℕ

pub data Topic : Type 0 where
  message_created message_approved unapproved_effective : Topic

abbrev pub topic_code : Topic → ℕ
topic_code Topic.message_created = 0
topic_code Topic.message_approved = 1
topic_code Topic.unapproved_effective = 2

pub data OutboxStatus : Type 0 where
  pending processing published dead : OutboxStatus

abbrev pub outbox_status_code : OutboxStatus → ℕ
outbox_status_code OutboxStatus.pending = 0
outbox_status_code OutboxStatus.processing = 1
outbox_status_code OutboxStatus.published = 2
outbox_status_code OutboxStatus.dead = 3

-- The key `{topic}:{message}:{version}` is the first three columns.
pub record OutboxEvent : Type 0 where
  pub topic : Topic
  pub message_pk : ℕ
  pub version_number : ℕ
  pub recipients : List String
  pub available_at : ℕ
  pub status : OutboxStatus
  pub attempts : ℕ
  pub last_error : Option Error
  pub processed_at : Option ℕ

pub data NotificationKind : Type 0 where
  created approved unapproved_effective manual_resend message_to_self feedback : NotificationKind

pub data NotificationStatus : Type 0 where
  pending sent dead cancelled : NotificationStatus

abbrev pub notification_status_code : NotificationStatus → ℕ
notification_status_code NotificationStatus.pending = 0
notification_status_code NotificationStatus.sent = 1
notification_status_code NotificationStatus.dead = 2
notification_status_code NotificationStatus.cancelled = 3

-- `notification:{outbox key}`, or a key that ends in a fresh UUID.
pub data NotificationKey : Type 0 where
  of_outbox : Topic → ℕ → ℕ → NotificationKey
  unique : ℕ → NotificationKey

pub record NotificationJob : Type 0 where
  pub message_pk : ℕ
  pub kind : NotificationKind
  pub recipients : List String
  pub subject : String
  pub body : String
  pub deduplication_key : NotificationKey
  pub scheduled_at : ℕ
  pub next_attempt_at : ℕ
  pub status : NotificationStatus
  pub attempts : ℕ
  pub last_error : Option Error
  pub sent_at : Option ℕ
