-- ===== src/Operations/Actions.antt =====
-- `record_print`, `email_message_to_self` and `submit_feedback` of
-- firstbrief/operations/services.py.
pub mod Laws
use first_brief.Prelude.{
  ℕ, ◌+◌, ◌-◌, ◌/◌, String, Bool, true, false, not, ◌&&◌, ◌||◌, Option, none, some, List, [], ◌∷◌,
  ◌++◌, if◌then◌else◌, any, length, str_eq, update_where, has_text,
}
use first_brief.Assurance.Model.{Datum, Detail}
use first_brief.Notifications.QuietHours.{apply_quiet_hours}
use first_brief.Operations.Listing.{version_in}
use first_brief.Store.{Db}
use first_brief.Errors.{Result, err, Error, ok}
use first_brief.Notifications.Model.{
  NotificationKind, NotificationJob, NotificationKey, NotificationStatus,
}
use first_brief.Operations.Reading.{is_receipt, with_receipt, subject_of}
use first_brief.Identity.Access.{manage_messages}
use first_brief.Messaging.Model.{Message, MessageVersion}
use first_brief.Assurance.Audit.{record_event}
use first_brief.Identity.Model.{Role, User}
use first_brief.Notifications.Recipients.{insert_sorted}
use first_brief.Operations.Access.{Desk}
use first_brief.Operations.Model.{EventType, MessageReceipt, MessageAccessEvent, Readings}

-- The slugs of the event types of this file.
abbrev slug_of : EventType → String
slug_of EventType.printed = "message.printed"
slug_of EventType.emailed = "message.emailed"
slug_of EventType.feedback = "message.feedback"
slug_of EventType.opened = "message.opened"
slug_of EventType.acknowledged = "message.acknowledged"
slug_of EventType.cleared = "message.cleared"
slug_of EventType.read = "message.read"

-- The receipt after an action.
abbrev pub stamped : ℕ → EventType → MessageReceipt → MessageReceipt
stamped now EventType.printed r = record r { last_accessed_at = some now; printed_at = some now }
stamped now EventType.emailed r = record r { last_accessed_at = some now; emailed_at = some now }
stamped now _ r = record r { last_accessed_at = some now }

abbrev action_event : ℕ → ℕ → EventType → String → Detail → MessageAccessEvent
action_event actor pk type browser metadata = record {
  user_pk = actor;
  message_pk = pk;
  event_type = type;
  browser_session_key = browser;
  duration_seconds = 0;
  metadata = metadata;
}

-- `_record_action`
unfoldable pub record_action : Desk → User → Message → EventType → String → Readings → Readings
record_action desk actor message type browser rs = record rs {
  receipts =
      update_where (is_receipt actor.pk message.pk) (stamped desk.now type)
        (with_receipt actor.pk message.pk rs.receipts);
  events = rs.events ++ action_event actor.pk message.pk type browser [] ∷ [];
  audit =
      record_event desk.context (slug_of type) (some actor.pk) (subject_of message.pk) [] [] ""
        rs.audit;
}

unfoldable pub record_print : Desk → User → Message → String → Readings → Readings
unfolding record_action
record_print desk actor message browser rs =
    record_action desk actor message EventType.printed browser rs

-- `sorted({value.casefold() for value in recipients if value})`
unfoldable pub addressed : (String → String) → List String → List String
unfolding insert_sorted
addressed casefold [] = []
addressed casefold (value ∷ values) =
    let rest = addressed casefold values in
    if str_eq value "" then rest else insert_sorted (casefold value) rest

-- `NotificationJob.objects.create(…)` for a time of delivery.
abbrev pub queued_job :
    Desk
    → Message
    → NotificationKind
    → List String
    → String
    → String
    → List NotificationJob
    → ℕ
    → NotificationJob
queued_job desk message kind recipients subject body jobs scheduled = record {
  message_pk = message.pk;
  kind = kind;
  recipients = addressed desk.casefold recipients;
  subject = subject;
  body = body;
  deduplication_key = NotificationKey.unique (desk.fresh_key jobs);
  scheduled_at = scheduled;
  next_attempt_at = scheduled;
  status = NotificationStatus.pending;
  attempts = 0;
  last_error = none;
  sent_at = none;
}

-- `_queue_user_notification`
unfoldable pub queue_user_notification :
    Desk
    → Message
    → NotificationKind
    → List String
    → String
    → String
    → Readings
    → Result (NotificationJob × Readings)
unfolding addressed
queue_user_notification desk message kind recipients subject body rs =
    elim (apply_quiet_hours desk.env desk.now) [
      | err e ↦ err e
      | ok scheduled ↦
          let job =
            queued_job desk message kind recipients subject body rs.notifications scheduled in
          ok (job, record rs { notifications = rs.notifications ++ job ∷ [] })
    ]

unfoldable pub mail_version :
    Desk
    → User
    → Message
    → String
    → String
    → Option MessageVersion
    → Readings
    → Result (NotificationJob × Readings)
unfolding queue_user_notification record_action
mail_version desk actor message browser url none rs = err Error.does_not_exist
mail_version desk actor message browser url (some version) rs =
    let (subject, body) = desk.self_mail message version url in
    elim (queue_user_notification desk message NotificationKind.message_to_self (actor.email ∷ [])
      subject body rs) [
        | err e ↦ err e
        | ok (job, rs') ↦ ok (job, record_action desk actor message EventType.emailed browser rs')
      ]

unfoldable pub email_message_to_self :
    Desk → User → Message → String → String → Db → Readings → Result (NotificationJob × Readings)
unfolding mail_version
email_message_to_self desk actor message browser url db rs =
    if str_eq actor.email ""
    then err Error.no_email_address
    else mail_version desk actor message browser url (version_in db.versions message) rs

-- `roles__capabilities__codename=…`, of active and inactive roles
abbrev role_has : String → List Role → Bool
role_has codename roles = any (λ role. has_text codename role.capabilities) roles

abbrev takes_feedback : User → Bool
takes_feedback user =
    (user.is_superuser
      || has_text manage_messages user.direct_capabilities
      || role_has manage_messages user.roles)
    && not (str_eq user.email "")

unfoldable pub emails_of : List User → List String
emails_of [] = []
emails_of (user ∷ users) =
    let rest = emails_of users in if takes_feedback user then user.email ∷ rest else rest

unfoldable pub feedback_recipients : Desk → Message → List String
unfolding emails_of
feedback_recipients desk message =
    let originator = desk.user_email message.originator_id in
    if str_eq originator "" then emails_of desk.users else emails_of desk.users ++ originator ∷ []

unfoldable pub send_feedback :
    Desk
    → User
    → Message
    → List String
    → String
    → String
    → String
    → Option MessageVersion
    → Readings
    → Result (NotificationJob × Readings)
unfolding queue_user_notification
send_feedback desk actor message recipients subject body browser none rs = err Error.does_not_exist
send_feedback desk actor message recipients subject body browser (some version) rs =
    let (mail_subject, mail_body) = desk.feedback_mail message version actor subject body in
    elim (queue_user_notification desk message NotificationKind.feedback recipients mail_subject
      mail_body rs) [
        | err e ↦ err e
        | ok (job, rs') ↦ ok (
          job,
          record rs' {
            events =
                rs'.events
                ++ action_event actor.pk message.pk EventType.feedback browser
                    (("subject", Datum.text subject) ∷ [])
                  ∷ [];
            audit =
                record_event desk.context "message.feedback" (some actor.pk) (subject_of message.pk)
                  [] (("notification_job", Datum.number (length rs'.notifications)) ∷ []) ""
                  rs'.audit;
          },
        )
      ]

abbrev has_nobody : List String → Bool
has_nobody [] = true
has_nobody (r ∷ rs) = false

unfoldable pub submit_feedback :
    Desk
    → User
    → Message
    → String
    → String
    → String
    → Db
    → Readings
    → Result (NotificationJob × Readings)
unfolding send_feedback feedback_recipients
submit_feedback desk actor message subject body browser db rs =
    let recipients = feedback_recipients desk message in
    if has_nobody recipients
    then err Error.no_feedback_recipient
    else send_feedback desk actor message recipients subject body browser
        (version_in db.versions message) rs
