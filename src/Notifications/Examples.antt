-- ===== src/Notifications/Examples.antt =====
-- The theorems about the workers, applied to small databases.
use first_brief.Notifications.QuietHours.{apply_quiet_hours}
use first_brief.Prelude.Tables.{lookup}
use first_brief.Prelude.{none, some, [], ◌∷◌, refl, arith}
use first_brief.Messaging.Scenarios.{desk, office}
use first_brief.Notifications.Model.{
  JobStatus, Transition, OutboxStatus, Topic, NotificationKind, NotificationKey, NotificationStatus,
}
use first_brief.Notifications.DueJobs.{process_due_lifecycle}
use first_brief.Notifications.DueJobs.Progress.{Kept, process_due_lifecycle-total}
use first_brief.Notifications.Outbox.{process_outbox}
use first_brief.Notifications.Outbox.Progress.{Queued, process_outbox-total}
use first_brief.Notifications.Delivery.{deliver_notifications}
use first_brief.Notifications.Delivery.Quiet.{Postponed, deliver_notifications-quiet}
use first_brief.Store.{Db, Env}
use first_brief.Store.Laws.{Finishes}

abbrev expiring : Db
expiring = record office {
  jobs =
      record {
        message_pk = 1;
        version_number = 1;
        transition = Transition.expire;
        due_at = 5000;
        status = JobStatus.pending;
        attempts = 0;
        last_error = none;
        completed_at = none;
      }
      ∷ [];
}

process_due_lifecycle-total_example :
    Finishes (process_due_lifecycle desk (some 6000) 100 expiring) (λ _. Kept expiring)
unfolding lookup
process_due_lifecycle-total_example =
    process_due_lifecycle-total desk (some 6000) 100 expiring (refl, tt) ((λ due. ground arith), tt)

abbrev announcing : Db
announcing = record office {
  outbox =
      record {
        topic = Topic.message_approved;
        message_pk = 1;
        version_number = 1;
        recipients = "a@example.org" ∷ [];
        available_at = 900;
        status = OutboxStatus.pending;
        attempts = 0;
        last_error = none;
        processed_at = none;
      }
      ∷ [];
}

process_outbox-total_example :
    Finishes (process_outbox desk none 100 announcing) (λ _. Queued announcing)
process_outbox-total_example =
    process_outbox-total desk none 100 announcing ((λ due. ground arith), tt)

-- A desk that is quiet from time 500 to time 2000 of each day.
abbrev quiet_desk : Env
quiet_desk = record desk {
  notification_policy = record desk.notification_policy {
    quiet_hours_start = some 500;
    quiet_hours_end = some 2000;
  };
  zone_info =
      λ _. some (record { to_local = λ t. record { day = 0; time = t }; to_instant = λ l. l.time });
}

abbrev posting : Db
posting = record office {
  notifications =
      record {
        message_pk = 1;
        kind = NotificationKind.approved;
        recipients = "a@example.org" ∷ [];
        subject = "subject";
        body = "body";
        deduplication_key = NotificationKey.unique 3;
        scheduled_at = 900;
        next_attempt_at = 900;
        status = NotificationStatus.pending;
        attempts = 0;
        last_error = none;
        sent_at = none;
      }
      ∷ [];
}

deliver_notifications-quiet_example :
    Finishes (deliver_notifications quiet_desk none 100 posting) (Postponed posting)
unfolding apply_quiet_hours
deliver_notifications-quiet_example =
    deliver_notifications-quiet quiet_desk none 100 2000 posting refl (ground arith)
