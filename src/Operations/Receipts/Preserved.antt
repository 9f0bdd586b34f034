-- ===== src/Operations/Receipts/Preserved.antt =====
-- Every way to read, print or mail a message keeps one receipt for each reader and message.
use first_brief.Operations.Listing.{version_in}
use first_brief.Prelude.Tables.{lookup}
use first_brief.Notifications.QuietHours.{apply_quiet_hours}
use first_brief.Store.{Db}
use first_brief.Operations.Reading.Laws.{close_message_view-Closing}
use first_brief.Notifications.Model.{NotificationKind, NotificationJob}
use first_brief.Messaging.Model.{Message, MessageVersion}
use first_brief.Identity.Model.{User}
use first_brief.Operations.Receipts.{call, IsUnique, touched-IsUnique, stamped-keeps, Call}
use first_brief.Operations.Reading.{
  save_reading_position, position_in, open_message_view, write_view, close_message_view,
  open_session, read_receipt,
}
use first_brief.Operations.Model.{Viewed, ℤ, EventType, Readings, ReadingPosition}
use first_brief.Operations.Actions.{
  record_action, queue_user_notification, mail_version, send_feedback, record_print,
  submit_feedback, email_message_to_self, stamped, feedback_recipients,
}
use first_brief.Operations.Access.{Desk}
use first_brief.Prelude.{
  ℕ, String, ◌≡◌, refl, inl, inr, Bool, Option, none, some, List, [], ◌∷◌, arith, Option-cases,
}
use first_brief.Errors.{ok, Result-cases}

module _ (desk : Desk) where
  record_action-IsUnique :
      (actor : User) (message : Message) (type : EventType) (browser : String) (rs : Readings)
      → IsUnique rs.receipts
      → IsUnique (record_action desk actor message type browser rs).receipts
  unfolding record_action
  record_action-IsUnique actor message type browser rs one =
      touched-IsUnique actor.pk message.pk (stamped desk.now type) (stamped-keeps desk.now type)
        rs.receipts one

  -- A queued notification leaves the receipts alone.
  queue-receipts :
      (message : Message) (kind : NotificationKind) (recipients : List String)
      (subject body : String) (rs : Readings) {job : NotificationJob} {rs' : Readings}
      → queue_user_notification desk message kind recipients subject body rs ≡ ok (job, rs')
      → rs'.receipts ≡ rs.receipts
  unfolding queue_user_notification
  queue-receipts message kind recipients subject body rs done =
      elim (Result-cases (apply_quiet_hours desk.env desk.now)) [
        | inl (scheduled, e) ↦ ground arith
        | inr (e, failed) ↦ ground arith
      ]

  mail_version-IsUnique :
      (actor : User) (message : Message) (browser url : String) (v : Option MessageVersion)
      (rs : Readings) {job : NotificationJob} {rs' : Readings}
      → mail_version desk actor message browser url v rs ≡ ok (job, rs')
      → IsUnique rs.receipts
      → IsUnique rs'.receipts
  unfolding mail_version
  mail_version-IsUnique actor message browser url none rs done one = ground arith
  mail_version-IsUnique actor message browser url (some v) rs {job} {rs'} done one =
      let (subject, body) = desk.self_mail message v url in
      elim (Result-cases (
        queue_user_notification desk message NotificationKind.message_to_self (actor.email ∷ [])
          subject body rs)) [
            | inr (e, failed) ↦ ground arith
            | inl ((j, queued), ran) ↦
                let same : rs' ≡ record_action desk actor message EventType.emailed browser queued =
                  ground arith in
                let before =
                  queue-receipts message NotificationKind.message_to_self (actor.email ∷ []) subject
                    body rs {job = j} {rs' = queued} ran in
                rw same (
                  record_action-IsUnique actor message EventType.emailed browser queued
                    (rw before one))
          ]

  send_feedback-receipts :
      (actor : User) (message : Message) (recipients : List String) (subject body browser : String)
      (v : Option MessageVersion) (rs : Readings) {job : NotificationJob} {rs' : Readings}
      → send_feedback desk actor message recipients subject body browser v rs ≡ ok (job, rs')
      → rs'.receipts ≡ rs.receipts
  unfolding send_feedback
  send_feedback-receipts actor message recipients subject body browser none rs done = ground arith
  send_feedback-receipts actor message recipients subject body browser (some v) rs done =
      let (mail_subject, mail_body) = desk.feedback_mail message v actor subject body in
      elim (Result-cases (
        queue_user_notification desk message NotificationKind.feedback recipients mail_subject
          mail_body rs)) [
            | inr (e, failed) ↦ ground arith
            | inl ((j, queued), ran) ↦ ground (
              arith,
              queue-receipts message NotificationKind.feedback recipients mail_subject mail_body rs
                  {job = j} {rs' = queued} ran,
            )
          ]

  close-IsUnique :
      (actor : ℕ) (message : Viewed) (pk : ℕ) (active : ℤ) (clear changed : Bool) (rs : Readings)
      {rs' : Readings}
      → close_message_view desk.context actor message pk active clear changed rs ≡ ok rs'
      → IsUnique rs.receipts
      → IsUnique rs'.receipts
  close-IsUnique actor message pk active clear changed rs done one =
      let h =
        close_message_view-Closing desk.context actor message pk active clear changed rs done in
      rw h.receipts (
        touched-IsUnique actor message.pk (read_receipt desk.now clear h.seconds)
          (λ r. (refl, refl)) rs.receipts one)

  position-receipts :
      (actor : ℕ) (message : Viewed) (pk : ℕ) (page total : ℤ) (rs : Readings) {p : ReadingPosition}
      {rs' : Readings}
      → save_reading_position actor message pk page total rs ≡ ok (p, rs')
      → rs'.receipts ≡ rs.receipts
  unfolding save_reading_position position_in
  position-receipts actor message pk page total rs {p} {rs'} done =
      elim (Option-cases (open_session actor message.pk (lookup pk rs.sessions))) [
        | inl missing ↦ ground arith
        | inr (s, found) ↦ at_version s.version_number (ground arith)
      ]
    where
      at_version :
          (number : Option ℕ)
          → position_in actor message.pk number page total rs ≡ ok (p, rs')
          → rs'.receipts ≡ rs.receipts
      at_version none done = ground arith
      at_version (some n) done = ground arith

  -- Opening, closing, saving a position, printing, mailing and feedback, where they succeed, keep at
  -- most one receipt for each reader and message.
  pub call-IsUnique :
      (db : Db) (c : Call) (rs : Readings) {rs' : Readings}
      → call desk db c rs ≡ ok rs'
      → IsUnique rs.receipts
      → IsUnique rs'.receipts
  unfolding call open_message_view write_view record_print submit_feedback email_message_to_self
      save_reading_position
  call-IsUnique db (Call.view actor message browser pk) rs {rs'} done one =
      let same : rs' ≡ write_view desk.context actor message browser pk rs = ground arith in
      rw same (
        touched-IsUnique actor message.pk (λ r. record r { last_accessed_at = some desk.now })
          (λ r. (refl, refl)) rs.receipts one)
  call-IsUnique db (Call.close actor message pk active clear changed) rs done one =
      close-IsUnique actor message pk active clear changed rs done one
  call-IsUnique db (Call.print actor message browser) rs {rs'} done one =
      let same : rs' ≡ record_action desk actor message EventType.printed browser rs =
        ground arith in
      rw same (record_action-IsUnique actor message EventType.printed browser rs one)
  call-IsUnique db (Call.position actor message pk page total) rs {rs'} done one =
      elim (Result-cases (save_reading_position actor message pk page total rs)) [
        | inr (e, failed) ↦ ground arith
        | inl ((p, next), ran) ↦
            let same : rs'.receipts ≡ rs.receipts =
              ground (arith, position-receipts actor message pk page total rs ran) in
            rw same one
      ]
  call-IsUnique db (Call.mail actor message browser url) rs {rs'} done one =
      elim (Result-cases (email_message_to_self desk actor message browser url db rs)) [
        | inr (e, failed) ↦ ground arith
        | inl ((job, next), ran) ↦
            let same : rs' ≡ next = ground arith in
            rw same (
              mail_version-IsUnique actor message browser url (version_in db.versions message) rs
                {job = job} {rs' = next} (ground arith) one)
      ]
  call-IsUnique db (Call.feedback actor message subject body browser) rs {rs'} done one =
      elim (Result-cases (submit_feedback desk actor message subject body browser db rs)) [
        | inr (e, failed) ↦ ground arith
        | inl ((job, next), ran) ↦
            let same : rs'.receipts ≡ rs.receipts = ground (
              arith,
              send_feedback-receipts actor message (feedback_recipients desk message) subject body
                  browser (version_in db.versions message) rs {job = job} {rs' = next}
                  (ground arith),
            ) in
            rw same one
      ]
