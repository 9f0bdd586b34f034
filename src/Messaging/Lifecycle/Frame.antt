-- ===== src/Messaging/Lifecycle/Frame.antt =====
-- What the steps around a transition leave alone: scheduling and registering write only jobs and the
-- outbox, the checks of an approval only versions and approvals.
use first_brief.Prelude.{ℕ, List, String, ◌≡◌, arith}
use first_brief.Errors.{ok}
use first_brief.Identity.Model.{User}
use first_brief.Messaging.Model.{Message, MessageVersion}
use first_brief.Messaging.Lifecycle.{bring_forward, approve_checked}
use first_brief.Messaging.Validation.{version_full_clean}
use first_brief.Notifications.Model.{LifecycleJob}
use first_brief.Notifications.Schedule.{
  schedule_message_lifecycle, register_message_created, register_message_approved,
}
use first_brief.Store.{Db, Env, current_version}

module _ (env : Env) (message : Message) (db : Db) {db' : Db} where
  pub schedule_frame :
      {jobs : List LifecycleJob}
      → schedule_message_lifecycle env message db ≡ ok (jobs, db')
      → db' ≡ record db { jobs = db'.jobs }
  unfolding schedule_message_lifecycle current_version
  schedule_frame done = ground arith

module _ (env : Env) (message : Message) (event_time : ℕ) (db : Db) {db' : Db} {u : Unit {0}} where
  pub created_frame :
      register_message_created env message event_time db ≡ ok (u, db')
      → db' ≡ record db { jobs = db'.jobs; outbox = db'.outbox }
  unfolding register_message_created schedule_message_lifecycle current_version
  created_frame done = ground arith

  pub approved_frame :
      register_message_approved env message event_time db ≡ ok (u, db')
      → db' ≡ record db { jobs = db'.jobs; outbox = db'.outbox }
  unfolding register_message_approved schedule_message_lifecycle current_version
  approved_frame done = ground arith

module _ (env : Env) (db : Db) {db' : Db} where
  pub bring_forward_frame :
      (now : ℕ) (locked : Message) (v : MessageVersion) {v' : MessageVersion}
      → bring_forward env now locked v db ≡ ok (v', db')
      → db' ≡ record db { versions = db'.versions }
  unfolding bring_forward version_full_clean
  bring_forward_frame now locked v done = ground arith

  pub approve_checked_frame :
      (actor : User) (locked : Message) (justification validity_justification : String) (now : ℕ)
      {u : Unit {0}}
      → approve_checked env actor locked justification validity_justification now db ≡ ok (u, db')
      → db' ≡ record db { versions = db'.versions; approvals = db'.approvals }
  unfolding approve_checked current_version bring_forward version_full_clean
  approve_checked_frame actor locked justification validity_justification now done = ground arith
