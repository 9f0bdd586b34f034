-- ===== src/Notifications/Outbox.antt =====
-- `process_outbox` of firstbrief/notifications/services.py: outbox events become notification jobs.
pub mod Progress
use first_brief.Prelude.{
  ℕ, ◌+◌, Bool, false, ◌&&◌, Option, none, some, List, [], ◌∷◌, ◌++◌, String, any, update_where,
  leb, ◌==◌, if◌then◌else◌, or_else,
}
use first_brief.Errors.{Error, Result, ok, err}
use first_brief.Messaging.Model.{Message}
use first_brief.Notifications.Model.{
  OutboxEvent, OutboxStatus, outbox_status_code, Topic, topic_code, NotificationJob,
  NotificationKind, NotificationStatus, NotificationKey,
}
use first_brief.Notifications.Queue.{due, retry_at}
use first_brief.Notifications.Recipients.{deduplicated_recipients}
use first_brief.Notifications.Schedule.{same_event}
use first_brief.Store.{Env, Db, Tx, ◌>>=◌, pure, gets, modify, get_message, current_version}

abbrev pub kind_of : Topic → NotificationKind
kind_of Topic.message_created = NotificationKind.created
kind_of Topic.message_approved = NotificationKind.approved
kind_of Topic.unapproved_effective = NotificationKind.unapproved_effective

-- The keys of two notifications that come from the outbox.
abbrev pub has_outbox_key : OutboxEvent → NotificationKey → Bool
has_outbox_key e (NotificationKey.of_outbox topic pk number) =
    topic_code e.topic == topic_code topic && e.message_pk == pk && e.version_number == number
has_outbox_key e (NotificationKey.unique u) = false

-- `NotificationJob.objects.get_or_create(deduplication_key=…, defaults=…)`
unfoldable pub put_notification :
    OutboxEvent → List String → ℕ → String → String → List NotificationJob → List NotificationJob
put_notification e recipients current subject body jobs =
    if any (λ j. has_outbox_key e j.deduplication_key) jobs
    then jobs
    else jobs
      ++ record {
        message_pk = e.message_pk;
        kind = kind_of e.topic;
        recipients = recipients;
        subject = subject;
        body = body;
        deduplication_key = NotificationKey.of_outbox e.topic e.message_pk e.version_number;
        scheduled_at = e.available_at;
        next_attempt_at = current;
        status = NotificationStatus.pending;
        attempts = 0;
        last_error = none;
        sent_at = none;
      }
        ∷ []

abbrev pub lift : {A : Type 0} → Result A → Tx A
lift (ok a) db = ok (a, db)
lift (err e) db = err e

-- `if recipients:` and the copy of the templates
unfoldable pub notify : Env → ℕ → OutboxEvent → Message → List String → Tx (Unit {0})
unfolding put_notification
notify env current e message [] = pure tt
notify env current e message (r ∷ rs) = do
  version ← current_version message
  (subject, body) ← lift (env.render e.topic message version)
  modify (λ db. record db {
    notifications = put_notification e (r ∷ rs) current subject body db.notifications;
  })

-- The body of the `try`.
unfoldable pub publish : Env → ℕ → OutboxEvent → Tx (Unit {0})
unfolding notify
publish env current e = do
  message ← get_message e.message_pk
  notify env current e message (deduplicated_recipients env.normalise e.recipients)

abbrev pub same_row : OutboxEvent → OutboxEvent → Bool
same_row e = same_event e.topic e.message_pk e.version_number

abbrev pub published : ℕ → OutboxEvent → OutboxEvent
published current e = record e {
  status = OutboxStatus.published;
  processed_at = some current;
  last_error = none;
}

-- The event after a failed attempt, with the time of the next one.
abbrev pub refused : Env → ℕ → OutboxEvent → Error → OutboxEvent
refused env next e error = record e {
  last_error = some error;
  status =
      if leb env.notification_policy.maximum_attempts e.attempts
      then OutboxStatus.dead
      else OutboxStatus.pending;
  available_at = next;
}

-- `event.save`: each save writes some of the columns that an event may change.
abbrev pub save_event : OutboxEvent → Db → Db
save_event e db = record db { outbox = update_where (same_row e) (λ _. e) db.outbox }

-- The end of the `try`; an overflow in the handler leaves the worker.
unfoldable pub finish_event : Env → ℕ → OutboxEvent → Db → Result (Unit {0} × Db) → Result (ℕ × Db)
unfolding retry_at
finish_event env current e before (ok (u, db)) = ok (1, save_event (published current e) db)
finish_event env current e before (err x) = elim (retry_at env current e.attempts) [
  | err y ↦ err y
  | ok next ↦ ok (0, save_event (refused env next e x) before)
]

-- The event while an attempt runs.
abbrev pub in_process : OutboxEvent → OutboxEvent
in_process event = record event { status = OutboxStatus.processing; attempts = event.attempts + 1 }

unfoldable pub process_event : Env → ℕ → OutboxEvent → Tx ℕ
unfolding publish finish_event
process_event env current event db =
    let e = in_process event in
    let taken = save_event e db in finish_event env current e taken (publish env current e taken)

unfoldable pub process_events : Env → ℕ → List (ℕ × OutboxEvent) → Tx ℕ
unfolding process_event
process_events env current [] = pure 0
process_events env current ((number, event) ∷ rest) = do
  n ← process_event env current event
  m ← process_events env current rest
  pure (n + m)

abbrev pub is_available : ℕ → OutboxEvent → Bool
is_available current e = outbox_status_code e.status == 0 && leb e.available_at current

unfoldable pub process_outbox : Env → Option ℕ → ℕ → Tx ℕ
unfolding due process_events
process_outbox env now limit = do
  let current = or_else now env.now
  events ← gets (λ db. due (is_available current) (λ e. e.available_at) limit db.outbox)
  process_events env current events
