-- ===== src/Notifications/Schedule.antt =====
-- `schedule_message_lifecycle`, `_enqueue_outbox` and the two `register_…` functions of
-- firstbrief/notifications/services.py: what a message has lying ahead.
use first_brief.Prelude.{
  ℕ, ◌+◌, ◌*◌, Bool, ◌&&◌, not, Option, none, some, List, [], ◌∷◌, ◌++◌, String, any, update_where,
  ◌==◌, if◌then◌else◌,
}
use first_brief.Errors.{Result, ok, err}
use first_brief.Messaging.Model.{Message, MessageVersion}
use first_brief.Notifications.Model.{
  Anchor, Offset, LifecycleJob, Transition, transition_code, JobStatus, job_status_code,
  OutboxEvent, OutboxStatus, Topic, topic_code,
}
use first_brief.Notifications.QuietHours.{day, notification_time}
use first_brief.Notifications.Recipients.{creation_recipients, approval_recipients}
use first_brief.Store.{Env, Tx, ◌>>=◌, ◌>>◌, pure, modify, current_version}

abbrev pub is_pending : LifecycleJob → Bool
is_pending j = job_status_code j.status == 0

-- `filter(message=…, status=PENDING).exclude(version_number=…)`
abbrev pub is_outdated : ℕ → ℕ → LifecycleJob → Bool
is_outdated pk number j = j.message_pk == pk && is_pending j && not (j.version_number == number)

abbrev pub cancelled : LifecycleJob → LifecycleJob
cancelled j = record j { status = JobStatus.cancelled }

planned : ℕ → ℕ → Transition → Option ℕ → List LifecycleJob
planned pk number transition none = []
planned pk number transition (some due_at) =
    record {
      message_pk = pk;
      version_number = number;
      transition = transition;
      due_at = due_at;
      status = JobStatus.pending;
      attempts = 0;
      last_error = none;
      completed_at = none;
    }
    ∷ []

-- The specifications that have a due time, as rows.
unfoldable pub planned_jobs : ℕ → Message → MessageVersion → List LifecycleJob
unfolding planned
planned_jobs retention_days message v =
    let plan = planned message.pk v.version_number in
    plan Transition.release (some v.release_at)
    ++ (plan Transition.effective v.effective_at
        ++ (plan Transition.expire (some v.expiry_at)
            ++ (plan Transition.archive
                  (if message.archive_on_expiry then some v.expiry_at else none)
                ++ (plan Transition.retention_review (some (v.expiry_at + retention_days * day))
                    ++ plan Transition.unapproved_alert v.effective_at))))

abbrev pub same_job : LifecycleJob → LifecycleJob → Bool
same_job a b =
    a.message_pk == b.message_pk
    && a.version_number == b.version_number
    && transition_code a.transition == transition_code b.transition

-- `LifecycleJob.objects.update_or_create(deduplication_key=…, defaults=…)`
unfoldable pub put_job : LifecycleJob → List LifecycleJob → List LifecycleJob
put_job job jobs =
    if any (same_job job) jobs
    then update_where (same_job job) (λ _. job) jobs
    else jobs ++ job ∷ []

unfoldable pub put_jobs : List LifecycleJob → List LifecycleJob → List LifecycleJob
put_jobs [] jobs = jobs
put_jobs (new ∷ rest) jobs = put_jobs rest (put_job new jobs)

unfoldable pub schedule_message_lifecycle : Env → Message → Tx (List LifecycleJob)
schedule_message_lifecycle env message = do
  version ← current_version message
  modify (λ db. record db {
    jobs = update_where (is_outdated message.pk version.version_number) cancelled db.jobs;
  })
  let new = planned_jobs env.notification_policy.archive_retention_days message version
  modify (λ db. record db { jobs = put_jobs new db.jobs })
  pure new

abbrev pub same_event : Topic → ℕ → ℕ → OutboxEvent → Bool
same_event topic pk number e =
    topic_code e.topic == topic_code topic && e.message_pk == pk && e.version_number == number

-- `_enqueue_outbox`
unfoldable pub enqueue_outbox :
    Topic → Message → List String → ℕ → List OutboxEvent → List OutboxEvent
enqueue_outbox topic message recipients available_at outbox =
    if any (same_event topic message.pk message.current_version_number) outbox
    then outbox
    else outbox
      ++ record {
        topic = topic;
        message_pk = message.pk;
        version_number = message.current_version_number;
        recipients = recipients;
        available_at = available_at;
        status = OutboxStatus.pending;
        attempts = 0;
        last_error = none;
        processed_at = none;
      }
        ∷ []

abbrev lift : {A : Type 0} → Result A → Tx A
lift (ok a) db = ok (a, db)
lift (err e) db = err e

register : Env → Topic → Anchor → Offset → List String → Message → ℕ → Tx (Unit {0})
register env topic anchor offset recipients message event_time = do
  schedule_message_lifecycle env message
  version ← current_version message
  available_at ← lift (notification_time env version event_time anchor offset)
  modify
      (λ db. record db { outbox = enqueue_outbox topic message recipients available_at db.outbox })

unfoldable pub register_message_created : Env → Message → ℕ → Tx (Unit {0})
unfolding register
register_message_created env message event_time =
    register env Topic.message_created env.notification_policy.creation_anchor
      env.notification_policy.creation_offset_minutes (creation_recipients env message) message
      event_time

unfoldable pub register_message_approved : Env → Message → ℕ → Tx (Unit {0})
unfolding register
register_message_approved env message event_time =
    register env Topic.message_approved env.notification_policy.approval_anchor
      env.notification_policy.approval_offset_minutes (approval_recipients env message) message
      event_time
