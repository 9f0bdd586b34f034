-- ===== src/Operations/Actions/Laws.antt =====
-- Who gets the mail of a reader's actions.
use first_brief.Operations.Listing.{version_in}
use first_brief.Notifications.QuietHours.{apply_quiet_hours}
use first_brief.Operations.Model.{Readings, EventType}
use first_brief.Store.{Db}
use first_brief.Notifications.Model.{NotificationJob, NotificationKind}
use first_brief.Messaging.Model.{Message, MessageVersion}
use first_brief.Identity.Model.{User}
use first_brief.Operations.Actions.{
  stamped, addressed, emails_of, feedback_recipients, send_feedback, submit_feedback, has_nobody,
  queue_user_notification, mail_version, email_message_to_self, takes_feedback, record_action,
  queued_job,
}
use first_brief.Notifications.Recipients.{insert_sorted}
use first_brief.Operations.Access.{Desk}
use first_brief.Operations.Reading.Touched.{with_receipt-Touched}
use first_brief.Operations.Receipts.{stamped-keeps}
use first_brief.Operations.Reading.{is_receipt, new_receipt}
use first_brief.Assurance.Audit.{record_event}
use first_brief.Prelude.{
  ◌&&◌, ◌==◌, find, filter, or_else, String, ◌≡◌, refl, ◌∙◌, ◌≢◌, inl, inr, false, Option, none,
  some, List, [], ◌∷◌, ◌++◌, arith, All, str_eq, Bool-cases, ℕ,
}
use first_brief.Errors.{ok, Result-cases}

-- What mailing a message to oneself writes.
pub record Mailed (desk : Desk) (actor : User) (message : Message) (browser : String)
    (job : NotificationJob) (rs rs' : Readings) : Type 0 where
  pub has_address : str_eq actor.email "" ≡ false
  pub recipients : job.recipients ≡ desk.casefold actor.email ∷ []
  pub on_time : apply_quiet_hours desk.env desk.now ≡ ok job.next_attempt_at
  pub about : job.message_pk ≡ message.pk
  pub queued : rs'.notifications ≡ rs.notifications ++ job ∷ []
  pub receipt :
      find (is_receipt actor.pk message.pk) rs'.receipts
      ≡ some
          (record (or_else
            (find (is_receipt actor.pk message.pk) rs.receipts)
            (new_receipt actor.pk message.pk)) {
              last_accessed_at = some desk.now;
              emailed_at = some desk.now;
            })
  pub others :
      (u p : ℕ)
      → (u == actor.pk && p == message.pk) ≡ false
      → filter (is_receipt u p) rs'.receipts ≡ filter (is_receipt u p) rs.receipts
  pub events :
      rs'.events
      ≡ rs.events
        ++ record {
          user_pk = actor.pk;
          message_pk = message.pk;
          event_type = EventType.emailed;
          browser_session_key = browser;
          duration_seconds = 0;
          metadata = [];
        }
          ∷ []
  pub audit :
      rs'.audit
      ≡ record_event desk.context "message.emailed"
          (some actor.pk)
          (some (record { class_name = "Message"; key = message.pk }))
          []
          []
          ""
          rs.audit
  pub sessions : rs'.sessions ≡ rs.sessions
  pub positions : rs'.positions ≡ rs.positions

module _ (desk : Desk) (actor : User) (message : Message) where
  -- The job that is queued, at the end of the table.
  queue-parts :
      (kind : NotificationKind) (recipients : List String) (subject body : String) (rs : Readings)
      {job : NotificationJob} {rs' : Readings}
      → queue_user_notification desk message kind recipients subject body rs ≡ ok (job, rs')
      → (apply_quiet_hours desk.env desk.now ≡ ok job.next_attempt_at)
        × (job.recipients ≡ addressed desk.casefold recipients)
        × (job.message_pk ≡ message.pk)
        × (rs' ≡ record rs { notifications = rs.notifications ++ job ∷ [] })
  unfolding queue_user_notification
  queue-parts kind recipients subject body rs {job} {rs'} done =
      elim (Result-cases (apply_quiet_hours desk.env desk.now)) [
        | inr (e, failed) ↦ ground arith
        | inl (scheduled, e) ↦
            let same : job
                ≡ queued_job desk message kind recipients subject body rs.notifications scheduled =
              ground arith in
            (rw same e, rw same refl, rw same refl, ground arith)
      ]

  emailed_by :
      (browser : String) (job : NotificationJob) (rs : Readings)
      → str_eq actor.email "" ≡ false
      → job.recipients ≡ desk.casefold actor.email ∷ []
      → apply_quiet_hours desk.env desk.now ≡ ok job.next_attempt_at
      → job.message_pk ≡ message.pk
      → Mailed desk actor message browser job rs (
          record_action desk actor message EventType.emailed browser
            (record rs { notifications = rs.notifications ++ job ∷ [] }))
  unfolding record_action
  emailed_by browser job rs known whom when which =
      let t =
        with_receipt-Touched actor.pk message.pk (stamped desk.now EventType.emailed)
          (stamped-keeps desk.now EventType.emailed) rs.receipts in
      record {
        has_address = known;
        recipients = whom;
        on_time = when;
        about = which;
        queued = refl;
        receipt = t.own;
        others = t.others;
        events = refl;
        audit = refl;
        sessions = refl;
        positions = refl;
      }

  mail_version-Mailed :
      (browser url : String) (v : Option MessageVersion) (rs : Readings) {job : NotificationJob}
      {rs' : Readings}
      → str_eq actor.email "" ≡ false
      → mail_version desk actor message browser url v rs ≡ ok (job, rs')
      → Mailed desk actor message browser job rs rs'
  unfolding mail_version addressed insert_sorted
  mail_version-Mailed browser url none rs known done = ground arith
  mail_version-Mailed browser url (some v) rs {job} {rs'} known done =
      let (subject, body) = desk.self_mail message v url in
      elim (Result-cases (
        queue_user_notification desk message NotificationKind.message_to_self (actor.email ∷ [])
          subject body rs)) [
            | inr (e, failed) ↦ ground arith
            | inl ((j, queued), ran) ↦
                let (when, whom, which, all_of) =
                  queue-parts NotificationKind.message_to_self (actor.email ∷ []) subject body rs
                    {job = j} {rs' = queued} ran in
                let same : job ≡ j = ground arith in
                let only : addressed desk.casefold (actor.email ∷ [])
                    ≡ desk.casefold actor.email ∷ [] =
                  ground (arith, known) in
                let next = record rs { notifications = rs.notifications ++ j ∷ [] } in
                let written : rs'
                    ≡ record_action desk actor message EventType.emailed browser next =
                  ground (arith, all_of) in
                rw same (rw written (emailed_by browser j rs known (whom ∙ only) when which))
          ]

  -- Mailing a message to oneself, where it succeeds, had an address: it queues one notification
  -- about the message, to that address alone, for the time that the quiet hours allow, adds one
  -- access event and the audit event of the mailing, and stamps the receipt of that reader and
  -- message, which is created where there is none, with the time of the mailing; other receipts, the
  -- sessions and the reading positions stay as they were.
  pub email_message_to_self-Mailed :
      (browser url : String) (db : Db) (rs : Readings) {job : NotificationJob} {rs' : Readings}
      → email_message_to_self desk actor message browser url db rs ≡ ok (job, rs')
      → Mailed desk actor message browser job rs rs'
  unfolding email_message_to_self
  email_message_to_self-Mailed browser url db rs {job} {rs'} done =
      elim (Bool-cases (str_eq actor.email "")) [
        | inl unknown ↦ ground arith
        | inr known ↦
            mail_version-Mailed browser url (version_in db.versions message) rs {job = job}
              {rs' = rs'} known (ground arith)
      ]

insert_sorted-Filled : (s : String) (ts : List String) → insert_sorted s ts ≢ []
unfolding insert_sorted
insert_sorted-Filled s [] same = ground arith
insert_sorted-Filled s (t ∷ ts) same = ground arith

abbrev Filled : List String → Type 0
Filled = All (λ s. str_eq s "" ≡ false)

addressed-Filled :
    (casefold : String → String) (values : List String)
    → Filled values
    → has_nobody values ≡ false
    → addressed casefold values ≢ []
unfolding addressed
addressed-Filled casefold [] given some_one same = ground arith
addressed-Filled casefold (v ∷ values) (given, rest) some_one same =
    insert_sorted-Filled (casefold v) (addressed casefold values) (ground (arith, given, same))

emails_of-Filled : (users : List User) → Filled (emails_of users)
unfolding emails_of
emails_of-Filled [] = tt
emails_of-Filled (user ∷ users) = elim (Bool-cases (takes_feedback user)) [
  | inl kept ↦ rw kept (ground (arith, kept), emails_of-Filled users)
  | inr left_out ↦ rw left_out (emails_of-Filled users)
]

Filled-snoc :
    (ss : List String) (t : String) → Filled ss → str_eq t "" ≡ false → Filled (ss ++ t ∷ [])
Filled-snoc [] t h p = (p, tt)
Filled-snoc (s ∷ ss) t (h, hs) p = (h, Filled-snoc ss t hs p)

recipients-Filled : (desk : Desk) (message : Message) → Filled (feedback_recipients desk message)
unfolding feedback_recipients
recipients-Filled desk message =
    elim (Bool-cases (str_eq (desk.user_email message.originator_id) "")) [
      | inl unknown ↦ rw unknown (emails_of-Filled desk.users)
      | inr known ↦
          rw known (Filled-snoc (emails_of desk.users) _ (emails_of-Filled desk.users) known)
    ]

send_feedback-recipients :
    (desk : Desk) (actor : User) (message : Message) (to : List String)
    (subject body browser : String) (v : Option MessageVersion) (rs : Readings)
    {job : NotificationJob} {rs' : Readings}
    → send_feedback desk actor message to subject body browser v rs ≡ ok (job, rs')
    → job.recipients ≡ addressed desk.casefold to
unfolding send_feedback
send_feedback-recipients desk actor message to subject body browser none rs done = ground arith
send_feedback-recipients desk actor message to subject body browser (some v) rs done =
    let (mail_subject, mail_body) = desk.feedback_mail message v actor subject body in
    elim (Result-cases (
      queue_user_notification desk message NotificationKind.feedback to mail_subject mail_body
        rs)) [
          | inr (e, failed) ↦ ground arith
          | inl ((j, queued), ran) ↦ ground (
            arith,
            (queue-parts desk actor message NotificationKind.feedback to mail_subject mail_body rs
                {job = j} {rs' = queued} ran).1,
          )
        ]

-- Feedback that is accepted is queued for at least one recipient.
pub submit_feedback-reaches :
    (desk : Desk) (actor : User) (message : Message) (subject body browser : String) (db : Db)
    (rs : Readings) {job : NotificationJob} {rs' : Readings}
    → submit_feedback desk actor message subject body browser db rs ≡ ok (job, rs')
    → job.recipients ≢ []
unfolding submit_feedback
submit_feedback-reaches desk actor message subject body browser db rs {job} {rs'} done =
    elim (Bool-cases (has_nobody (feedback_recipients desk message))) [
      | inl nobody ↦ ground arith
      | inr somebody ↦
          let to = feedback_recipients desk message in
          let same =
            send_feedback-recipients desk actor message to subject body browser
              (version_in db.versions message) rs {job = job} {rs' = rs'} (ground arith) in
          rw same (addressed-Filled desk.casefold to (recipients-Filled desk message) somebody)
    ]
