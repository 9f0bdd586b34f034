-- ===== src/Notifications/Delivery.antt =====
-- `deliver_notifications` and `manual_resend` of firstbrief/notifications/services.py. What the mail
-- server was given is kept as the audit events `notification.sent`.
pub mod Quiet
use first_brief.Prelude.{
  ℕ, ◌+◌, ◌-◌, Bool, ◌&&◌, Option, none, some, List, [], ◌∷◌, ◌++◌, String, length, leb, ltb, ◌==◌,
  if◌then◌else◌, or_else,
}
use first_brief.Errors.{Error, Result, ok, err}
use first_brief.Assurance.Model.{Datum}
use first_brief.Identity.Model.{User}
use first_brief.Identity.Access.{manage_messages}
use first_brief.Notifications.Model.{
  NotificationJob, NotificationKind, NotificationStatus, NotificationKey, notification_status_code,
}
use first_brief.Notifications.Queue.{due, retry_at}
use first_brief.Notifications.QuietHours.{apply_quiet_hours}
use first_brief.Store.{
  Env, Db, Tx, ◌>>=◌, ◌>>◌, pure, gets, modify, require_capability, get_message, audit_message,
}

-- The row with a primary key, its place in the order of insertion, is replaced.
unfoldable pub replace_at : ℕ → NotificationJob → List NotificationJob → List NotificationJob
replace_at number job [] = []
replace_at number job (x ∷ xs) =
    if number == 1 then job ∷ xs else x ∷ replace_at (number - 1) job xs

-- `job.save(update_fields=(…))`
abbrev pub save_notification : ℕ → NotificationJob → Db → Db
save_notification number job db = record db {
  notifications = replace_at number job db.notifications;
}

abbrev pub sent : ℕ → NotificationJob → NotificationJob
sent current job = record job {
  status = NotificationStatus.sent;
  sent_at = some current;
  last_error = none;
}

-- The job after an exception, with the time of the next attempt.
abbrev pub unsent : Env → ℕ → NotificationJob → Error → NotificationJob
unsent env next job error = record job {
  last_error = some error;
  status =
      if leb env.notification_policy.maximum_attempts job.attempts
      then NotificationStatus.dead
      else NotificationStatus.pending;
  next_attempt_at = next;
}

-- `record_event("notification.…", subject=job.message, …)`
unfoldable pub audit_notification :
    Env → String → Option ℕ → NotificationJob → List (String × Datum) → Tx (Unit {0})
unfolding get_message audit_message
audit_notification env action actor job after = do
  message ← get_message job.message_pk
  audit_message env action actor message [] after ""

-- The handler of the exceptions, with the number of mails that this turn has sent; an overflow leaves
-- the worker.
unfoldable pub put_off : Env → ℕ → ℕ → ℕ → NotificationJob → Error → Tx ℕ
unfolding retry_at replace_at
put_off env current number count job error db = elim (retry_at env current job.attempts) [
  | err x ↦ err x
  | ok next ↦ ok (count, save_notification number (unsent env next job error) db)
]

-- The end of the `try` behind `send_mail`: the mail is counted and stamped before its audit event is
-- written, also where that fails.
unfoldable pub finish_delivery :
    Env → ℕ → ℕ → NotificationJob → Db → Result (Unit {0} × Db) → Result (ℕ × Db)
unfolding replace_at put_off
finish_delivery env current number job before (ok (u, db)) =
    ok (1, save_notification number (sent current job) db)
finish_delivery env current number job before (err e) =
    put_off env current number 1 (sent current job) e before

-- The `try` and its handler.
unfoldable pub send : Env → ℕ → ℕ → NotificationJob → Tx ℕ
unfolding audit_notification finish_delivery put_off
send env current number job db = elim (env.send_mail job.subject job.body job.recipients) [
  | err e ↦ put_off env current number 0 job e db
  | ok u ↦
      finish_delivery env current number job db
        (audit_notification env "notification.sent" none job (("job", Datum.number number) ∷ []) db)
]

-- One turn of the loop, with the time at which delivery is allowed.
unfoldable pub deliver_at : Env → ℕ → ℕ → NotificationJob → ℕ → Tx ℕ
unfolding send replace_at
deliver_at env current number job allowed_at db =
    if ltb current allowed_at
    then ok (0, save_notification number (record job { next_attempt_at = allowed_at }) db)
    else send env current number (record job { attempts = job.attempts + 1 }) db

unfoldable pub deliver : Env → ℕ → ℕ → NotificationJob → Tx ℕ
unfolding deliver_at
deliver env current number job db = elim (apply_quiet_hours env current) [
  | err e ↦ err e
  | ok allowed_at ↦ deliver_at env current number job allowed_at db
]

unfoldable pub deliver_all : Env → ℕ → List (ℕ × NotificationJob) → Tx ℕ
unfolding deliver
deliver_all env current [] = pure 0
deliver_all env current ((number, job) ∷ rest) = do
  n ← deliver env current number job
  m ← deliver_all env current rest
  pure (n + m)

abbrev pub is_due : ℕ → NotificationJob → Bool
is_due current j = notification_status_code j.status == 0 && leb j.next_attempt_at current

unfoldable pub deliver_notifications : Env → Option ℕ → ℕ → Tx ℕ
unfolding due deliver_all
deliver_notifications env now limit = do
  let current = or_else now env.now
  jobs ← gets (λ db. due (is_due current) (λ j. j.next_attempt_at) limit db.notifications)
  deliver_all env current jobs

abbrev pub resent : Env → ℕ → ℕ → NotificationJob → NotificationJob
resent env current key job = record {
  message_pk = job.message_pk;
  kind = NotificationKind.manual_resend;
  recipients = job.recipients;
  subject = job.subject;
  body = job.body;
  deduplication_key = NotificationKey.unique key;
  scheduled_at = current;
  next_attempt_at = current;
  status = NotificationStatus.pending;
  attempts = 0;
  last_error = none;
  sent_at = none;
}

-- `number` is the primary key of the job that is sent again.
unfoldable pub manual_resend : Env → User → ℕ → NotificationJob → Option ℕ → Tx NotificationJob
unfolding require_capability audit_notification
manual_resend env actor number job now = do
  require_capability actor manage_messages
  key ← gets env.fresh_uuid
  let new = resent env (or_else now env.now) key job
  modify (λ db. record db { notifications = db.notifications ++ new ∷ [] })
  place ← gets (λ db. length db.notifications)
  audit_notification env "notification.manual_resend" (some actor.pk) new
      (("source_job", Datum.number number) ∷ ("new_job", Datum.number place) ∷ [])
  pure new
