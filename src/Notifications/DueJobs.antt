-- ===== src/Notifications/DueJobs.antt =====
-- `process_due_lifecycle` of firstbrief/notifications/services.py: the jobs that are due drive the
-- lifecycle commands, as the scheduler and with a key of their own.
pub mod Progress
use first_brief.Prelude.{
  ℕ, ◌+◌, Bool, true, false, ◌&&◌, Option, none, some, List, [], ◌∷◌, update_where, leb, ◌==◌,
  if◌then◌else◌, or_else,
}
use first_brief.Errors.{Error, Result, ok, err}
use first_brief.Assurance.Model.{Datum}
use first_brief.Messaging.Model.{Status, Message, status_eq}
use first_brief.Messaging.Lifecycle.{
  release_message, make_effective, expire_message, archive_message,
}
use first_brief.Notifications.Model.{LifecycleJob, JobStatus, Transition, Topic}
use first_brief.Notifications.Queue.{due, retry_at}
use first_brief.Notifications.Recipients.{unapproved_recipients}
use first_brief.Notifications.Schedule.{is_pending, same_job, enqueue_outbox}
use first_brief.Store.{Env, Db, Tx, ◌>>=◌, ◌>>◌, pure, gets, modify, get_message, audit_message}

-- The command runs if the message is in the state for it; otherwise the job is skipped.
abbrev pub when : Bool → Tx Message → Tx JobStatus
when true command = do command; pure JobStatus.completed
when false command = pure JobStatus.skipped

abbrev pub when_done : Bool → Tx (Unit {0}) → Tx JobStatus
when_done true action = do action; pure JobStatus.completed
when_done false action = pure JobStatus.skipped

-- The branch of a job's transition, under the key `_lifecycle_idempotency_key(job)`.
unfoldable pub run_transition : Env → ℕ → ℕ → Message → ℕ → Transition → Tx JobStatus
run_transition env current key message number Transition.release =
    when (status_eq message.status Status.approved_pending_release)
      (release_message env none message message.lock_version key (some current))
run_transition env current key message number Transition.effective =
    when (status_eq message.status Status.released_pending_effective)
      (make_effective env none message message.lock_version key (some current))
run_transition env current key message number Transition.expire =
    when (status_eq message.status Status.effective)
      (expire_message env none message message.lock_version key (some current))
run_transition env current key message number Transition.archive =
    when (status_eq message.status Status.expired && message.archive_on_expiry)
      (archive_message env none message message.lock_version key)
run_transition env current key message number Transition.retention_review =
    when_done (status_eq message.status Status.archived) (
      audit_message env "message.retention_review_due" none message []
        (("retention_job", Datum.number number) ∷ []) "")
run_transition env current key message number Transition.unapproved_alert =
    when_done (status_eq message.status Status.draft) (
      modify (λ db. record db {
        outbox =
            enqueue_outbox Topic.unapproved_effective message (unapproved_recipients env) current
              db.outbox;
      }))

-- The body of the `try`.
unfoldable pub run_job : Env → ℕ → ℕ → LifecycleJob → Message → Tx JobStatus
unfolding run_transition
run_job env current number job message =
    let key = env.lifecycle_uuid job.message_pk job.version_number job.transition in
    if job.version_number == message.current_version_number
    then run_transition env current key message number job.transition
    else pure JobStatus.cancelled

-- The job after an attempt that succeeded, and after one that raised.
abbrev pub settled : ℕ → LifecycleJob → JobStatus → LifecycleJob
settled current job status = record job {
  status = status;
  completed_at = some current;
  last_error = none;
}

-- The job after a failed attempt, with the time of the next one.
abbrev pub failed : Env → ℕ → LifecycleJob → Error → LifecycleJob
failed env next job error = record job {
  last_error = some error;
  status =
      if leb env.notification_policy.maximum_attempts job.attempts
      then JobStatus.dead
      else JobStatus.pending;
  due_at = next;
}

-- `job.save(update_fields=(…))`
abbrev pub save_job : LifecycleJob → Db → Db
save_job job db = record db {
  jobs =
      update_where (same_job job)
        (λ row. record row {
          status = job.status;
          attempts = job.attempts;
          last_error = job.last_error;
          completed_at = job.completed_at;
          due_at = job.due_at;
        })
        db.jobs;
}

-- The end of the `try`: what a failed attempt wrote is rolled back to its savepoint. An overflow in the
-- handler leaves the worker.
unfoldable pub finish_job : Env → ℕ → LifecycleJob → Db → Result (JobStatus × Db) → Result (ℕ × Db)
unfolding retry_at
finish_job env current job before (ok (status, db)) =
    ok (1, save_job (settled current job status) db)
finish_job env current job before (err e) = elim (retry_at env current job.attempts) [
  | err x ↦ err x
  | ok next ↦ ok (0, save_job (failed env next job e) before)
]

-- One turn of the loop; the result counts the completed jobs.
unfoldable pub process_job : Env → ℕ → ℕ → LifecycleJob → Tx ℕ
unfolding get_message run_job finish_job
process_job env current number job = do
  message ← get_message job.message_pk
  let tried = record job { attempts = job.attempts + 1 }
  λ db. finish_job env current tried db (run_job env current number tried message db)

unfoldable pub process_jobs : Env → ℕ → List (ℕ × LifecycleJob) → Tx ℕ
unfolding process_job
process_jobs env current [] = pure 0
process_jobs env current ((number, job) ∷ rest) = do
  n ← process_job env current number job
  m ← process_jobs env current rest
  pure (n + m)

unfoldable pub process_due_lifecycle : Env → Option ℕ → ℕ → Tx ℕ
unfolding due process_jobs
process_due_lifecycle env now limit = do
  let current = or_else now env.now
  jobs ← gets (λ db. due (λ j. is_pending j && leb j.due_at current) (λ j. j.due_at) limit db.jobs)
  process_jobs env current jobs
