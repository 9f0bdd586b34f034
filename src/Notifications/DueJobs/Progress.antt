-- ===== src/Notifications/DueJobs/Progress.antt =====
-- The worker of lifecycle jobs gets through all due jobs, whatever the single jobs run into, and what it
-- does keeps the status history true.
use first_brief.Notifications.Queue.{due}
use first_brief.Notifications.Schedule.{is_pending}
use first_brief.Prelude.{
  ◌&&◌, leb, All-both, ℕ, Bool, true, false, Option, none, some, List, [], ◌∷◌, ◌≡◌, inl, inr, refl,
  arith, is_some, All, or_else, ◌==◌, Bool-cases, Option-cases, All-map, ◌+◌, ◌∙◌,
}
use first_brief.Prelude.Tables.{lookup}
use first_brief.Errors.{Result, ok, err}
use first_brief.Messaging.Model.{Message}
use first_brief.Messaging.Requests.{Request, run}
use first_brief.Messaging.Guarantees.{run-Outcome}
use first_brief.Messaging.History.{IsRecorded}
use first_brief.Messaging.History.Preserved.{run-IsRecorded}
use first_brief.Notifications.Model.{LifecycleJob, JobStatus, Transition}
use first_brief.Notifications.DueJobs.{
  save_job, failed, when, run_transition, run_job, finish_job, process_job, process_jobs,
  process_due_lifecycle,
}
use first_brief.Notifications.Queue.Laws.{All-due_passed, HasNextAttempt, retry_at-ok, All-due}
use first_brief.Store.{Db, Env, Tx, get_message, audit_message}
use first_brief.Store.Laws.{then-ok, bind-run, get-found, Finishes}

-- Whether the message that a row refers to exists.
abbrev pub HasMessage : Db → ℕ → Type 0
HasMessage db pk = is_some (lookup pk db.messages) ≡ true

-- From one database to the next no message is lost and the history stays true.
pub record Kept (db db' : Db) : Type 0 where
  pub found : (pk : ℕ) → HasMessage db pk → HasMessage db' pk
  pub recorded : IsRecorded db → IsRecorded db'

Kept-refl : (db : Db) → Kept db db
Kept-refl db = record { found = λ pk h. h; recorded = λ i. i }

Kept-trans : {d₀ d₁ d₂ : Db} → Kept d₀ d₁ → Kept d₁ d₂ → Kept d₀ d₂
Kept-trans k l = record {
  found = λ pk h. l.found pk (k.found pk h);
  recorded = λ i. l.recorded (k.recorded i);
}

same_tables-Kept :
    (db : Db) {db' : Db} → db'.history ≡ db.history → db'.messages ≡ db.messages → Kept db db'
same_tables-Kept db history messages = record {
  found = λ pk h. rw messages h;
  recorded =
      λ i. record { chain = rw history i.chain; last = λ pk. rw history (rw messages (i.last pk)) };
}

run-Kept :
    (env : Env) (q : Request) (message : Message) (expected key : ℕ) (db : Db) {m : Message}
    {db' : Db}
    → run env q message expected key db ≡ ok (m, db')
    → Kept db db'
run-Kept env q message expected key db done = record {
  found = λ pk h. elim (run-Outcome env q message expected key db done) [
    | inl r ↦ rw r.unchanged h
    | inr e ↦ ground (arith, e.written pk)
  ];
  recorded = λ i. run-IsRecorded env q message expected key db i done;
}

module _ (db : Db) {s : JobStatus} {db' : Db} where
  when-Kept :
      (test : Bool) (command : Tx Message)
      → ((m : Message) (d : Db) → command db ≡ ok (m, d) → Kept db d)
      → when test command db ≡ ok (s, db')
      → Kept db db'
  when-Kept false command keeps done = let same : db' ≡ db = ground arith in rw same (Kept-refl db)
  when-Kept true command keeps done =
      let (m, d, p, r) = then-ok command _ db done in
      let same : db' ≡ d = ground arith in rw same (keeps m d p)

run_transition-Kept :
    (env : Env) (current key : ℕ) (message : Message) (number : ℕ) (t : Transition) (db : Db)
    {s : JobStatus} {db' : Db}
    → run_transition env current key message number t db ≡ ok (s, db')
    → Kept db db'
unfolding run_transition audit_message
run_transition-Kept env current key message number Transition.release db done =
    when-Kept db _ _ (λ m d. run-Kept env (Request.release none (some current)) message _ key db)
      done
run_transition-Kept env current key message number Transition.effective db done =
    when-Kept db _ _
      (λ m d. run-Kept env (Request.become_effective none (some current)) message _ key db) done
run_transition-Kept env current key message number Transition.expire db done =
    when-Kept db _ _ (λ m d. run-Kept env (Request.expire none (some current)) message _ key db)
      done
run_transition-Kept env current key message number Transition.archive db done =
    when-Kept db _ _ (λ m d. run-Kept env (Request.archive none) message _ key db) done
run_transition-Kept env current key message number Transition.retention_review db done =
    same_tables-Kept db (ground arith) (ground arith)
run_transition-Kept env current key message number Transition.unapproved_alert db done =
    same_tables-Kept db (ground arith) (ground arith)

run_job-Kept :
    (env : Env) (current number : ℕ) (job : LifecycleJob) (message : Message) (db : Db)
    {s : JobStatus} {db' : Db}
    → run_job env current number job message db ≡ ok (s, db')
    → Kept db db'
unfolding run_job
run_job-Kept env current number job message db done =
    elim (Bool-cases (job.version_number == message.current_version_number)) [
      | inl same ↦
          run_transition-Kept env current _ message number job.transition db (rw same at done)
      | inr outdated ↦ same_tables-Kept db (ground arith) (ground arith)
    ]

abbrev tried : LifecycleJob → LifecycleJob
tried job = record job { attempts = job.attempts + 1 }

finish_job-total :
    (env : Env) (current : ℕ) (job : LifecycleJob) (db : Db) (r : Result (JobStatus × Db))
    → HasNextAttempt env current job.attempts
    → ((s : JobStatus) (d : Db) → r ≡ ok (s, d) → Kept db d)
    → (n : ℕ) × (db' : Db) × (finish_job env current (tried job) db r ≡ ok (n, db')) × Kept db db'
unfolding finish_job
finish_job-total env current job db (ok (status, d)) fits keeps =
    (_, _, refl, Kept-trans (keeps status d refl) (same_tables-Kept d refl refl))
finish_job-total env current job db (err e) fits keeps =
    let (next, e') = retry_at-ok env current job.attempts fits in
    (
      0,
      save_job (failed env next (tried job) e) db,
      ground (arith, e'),
      same_tables-Kept db refl refl,
    )

-- One turn of the loop always ends, with the failed command rolled back or the finished one kept.
process_job-total :
    (env : Env) (current number : ℕ) (job : LifecycleJob) (db : Db)
    → HasMessage db job.message_pk
    → HasNextAttempt env current job.attempts
    → (n : ℕ) × (db' : Db) × (process_job env current number job db ≡ ok (n, db')) × Kept db db'
unfolding process_job get_message
process_job-total env current number job db present fits =
    elim (Option-cases (lookup job.message_pk db.messages)) [
      | inl missing ↦ cc (present, missing)
      | inr (row, found) ↦
          let message : Message = record { pk = job.message_pk; row = row } in
          let (n, d, e, k) =
            finish_job-total env current job db (run_job env current number (tried job) message db)
              fits (λ s d. run_job-Kept env current number (tried job) message db) in
          (
            n,
            d,
            bind-run (get_message job.message_pk) _ db (get-found job.message_pk db found) ∙ e,
            k,
          )
    ]

process_jobs-total :
    (env : Env) (current : ℕ) (jobs : List (ℕ × LifecycleJob)) (db : Db)
    → All (λ x. HasMessage db x.1.message_pk × HasNextAttempt env current x.1.attempts) jobs
    → (n : ℕ) × (db' : Db) × (process_jobs env current jobs db ≡ ok (n, db')) × Kept db db'
unfolding process_jobs
process_jobs-total env current [] db h = (0, db, refl, Kept-refl db)
process_jobs-total env current ((number, job) ∷ rest) db ((p, f), ps) =
    let (n, d, e, k) = process_job-total env current number job db p f in
    let (m, d', e', k') =
      process_jobs-total env current rest d
        (All-map (λ x h. (k.found x.1.message_pk h.0, h.1)) rest ps) in
    (
      n + m,
      d',
      bind-run (process_job env current number job) _ db e
          ∙ bind-run (process_jobs env current rest) _ d e',
      Kept-trans k k',
    )

-- Where every lifecycle job refers to a message that exists and the next attempt of every job that
-- is due, should this one fail, lies within the calendar, the worker always returns, whatever the
-- commands of single jobs raise; the messages that existed still exist, and a status history that
-- was true stays true.
pub process_due_lifecycle-total :
    (env : Env) (now : Option ℕ) (limit : ℕ) (db : Db)
    → All (λ j. HasMessage db j.message_pk) db.jobs
    → All
        (λ j.
          (is_pending j && leb j.due_at (or_else now env.now)) ≡ true
          → HasNextAttempt env (or_else now env.now) j.attempts)
        db.jobs
    → Finishes (process_due_lifecycle env now limit db) (λ _. Kept db)
unfolding process_due_lifecycle
process_due_lifecycle-total env now limit db h fits =
    let current = or_else now env.now in
    let jobs = due (λ j. is_pending j && leb j.due_at current) (λ j. j.due_at) limit db.jobs in
    process_jobs-total env current jobs db (
      All-both (λ x. HasMessage db x.1.message_pk × HasNextAttempt env current x.1.attempts)
        (λ x present fit. (present, fit)) jobs
        (All-due (λ j. HasMessage db j.message_pk) _ (λ j. j.due_at) limit db.jobs h)
        (All-due_passed (λ j. HasNextAttempt env current j.attempts) _ (λ j. j.due_at) limit db.jobs
          fits))
