-- ===== src/Operations/Dashboard/Managing.antt =====
-- The attention items of those who manage messages, of `dashboard_data` in
-- firstbrief/operations/services.py.
use first_brief.Prelude.{
  ℕ, ◌+◌, ◌*◌, String, Bool, true, not, ◌&&◌, ◌||◌, Option, none, some, List, [], ◌∷◌, ◌++◌, map,
  if◌then◌else◌, ltb, leb, ◌==◌, any, filter, find, take, str_eq, contains, is_some, some_and,
}
use first_brief.Prelude.Sorting.{sort_by}
use first_brief.Operations.Listing.{version_in}
use first_brief.Operations.Model.{DashboardPreference}
use first_brief.Errors.{Result, ok, err}
use first_brief.Identity.Access.{
  has_capability, see_all_pmg, create_messages, approve_messages, manage_messages,
}
use first_brief.Notifications.Queue.{numbered}
use first_brief.Notifications.Model.{NotificationJob, notification_status_code, NotificationStatus}
use first_brief.Operations.Dashboard.Attention.{
  add_message_item, AttentionItem, Reason, Category, rank_of, Board, kind_eq,
}
use first_brief.Operations.Access.{Desk, all_messages, at_site}
use first_brief.Identity.Model.{User}
use first_brief.Messaging.Model.{
  MessageStatusHistory, Message, status_eq, Status, MessageVersion, Kind,
}
use first_brief.Store.{Env, Db}

-- `management_scope`
unfoldable pub management_scope : Env → User → Db → List Message
management_scope env user db =
    if user.is_superuser || has_capability user see_all_pmg
    then all_messages db.messages
    else elim user.site_id [
      | none ↦ []
      | some site ↦ filter (λ m. at_site env site db.rights m.pk) (all_messages db.messages)
    ]

-- Sent back from approval to draft.
abbrev is_return : ℕ → MessageStatusHistory → Bool
is_return pk h =
    h.message_pk == pk
    && some_and h.from_status (λ s. status_eq s Status.approved_pending_release)
    && status_eq h.to_status Status.draft

-- The last one, by time; rows stand in the order of time.
unfoldable pub last_return : ℕ → List MessageStatusHistory → Option MessageStatusHistory
last_return pk [] = none
last_return pk (h ∷ hs) = elim (last_return pk hs) [
  | some later ↦ some later
  | none ↦ if is_return pk h then some h else none
]

abbrev is_returned : User → Db → Message → Bool
is_returned user db m =
    m.originator_id == user.pk
    && status_eq m.status Status.draft
    && is_some (last_return m.pk db.history)

abbrev pub return_reason : Option MessageStatusHistory → Reason
return_reason none = Reason.sent_back ""
return_reason (some h) = Reason.sent_back h.reason

abbrev pub return_time : Desk → Message → Option MessageStatusHistory → ℕ
return_time desk m none = m.updated_at
return_time desk m (some h) = desk.occurred_at h

-- One message item for each message of a list.
unfoldable pub add_items :
    Category
    → List MessageVersion
    → (Message → Reason)
    → (Message → MessageVersion → ℕ)
    → String
    → List Message
    → Board
    → Result Board
unfolding add_message_item
add_items category versions reason due_at label [] b = ok b
add_items category versions reason due_at label (m ∷ ms) b =
    elim (add_message_item category m (version_in versions m) (reason m) (due_at m) true label b) [
      | err e ↦ err e
      | ok next ↦ add_items category versions reason due_at label ms next
    ]

unfoldable pub returned_messages : Desk → User → DashboardPreference → Db → List Message
unfolding management_scope last_return
returned_messages desk user preferences db =
    if preferences.show_returned_drafts
      && (has_capability user create_messages || has_capability user manage_messages)
    then filter (is_returned user db) (management_scope desk.env user db)
    else []

unfoldable pub awaiting_approval :
    Desk → User → DashboardPreference → List Message → Db → List Message
unfolding management_scope
awaiting_approval desk user preferences returned db =
    if preferences.show_approvals && has_capability user approve_messages
    then filter
        (λ m.
          contains user.pk m.approvers
          && status_eq m.status Status.draft
          && not (any (λ n. n.pk == m.pk) returned))
        (management_scope desk.env user db)
    else []

abbrev day : ℕ
day = 86400000000

unfoldable pub expiring_messages : Desk → User → DashboardPreference → Db → List Message
unfolding management_scope
expiring_messages desk user preferences db =
    if preferences.show_expiring_instructions && has_capability user manage_messages
    then filter
        (λ m.
          kind_eq m.kind Kind.instruction
          && status_eq m.status Status.effective
          && some_and (version_in db.versions m) (λ v.
            ltb desk.now v.expiry_at
            && leb v.expiry_at (desk.now + preferences.expiring_within_days * day)))
        (management_scope desk.env user db)
    else []

-- A dead notification with its primary key and the message that it is about.
abbrev FailedJob : Type 0
FailedJob = ℕ × NotificationJob × Message

-- The dead jobs about messages of the scope.
unfoldable pub dead_jobs : List Message → List (ℕ × NotificationJob) → List FailedJob
dead_jobs scope [] = []
dead_jobs scope ((pk, job) ∷ jobs) =
    let rest = dead_jobs scope jobs in
    elim (find (λ m. m.pk == job.message_pk) scope) [
      | none ↦ rest
      | some m ↦
          if notification_status_code job.status == notification_status_code NotificationStatus.dead
          then (pk, job, m) ∷ rest
          else rest
    ]

-- `order_by("next_attempt_at", "message__message_id", "pk")`
abbrev job_before : Desk → FailedJob → FailedJob → Bool
job_before desk x y =
    ltb x.1.next_attempt_at y.1.next_attempt_at
    || (x.1.next_attempt_at == y.1.next_attempt_at
        && (desk.text_before x.2.message_id y.2.message_id
            || (str_eq x.2.message_id y.2.message_id && leb x.0 y.0)))

abbrev job_item : FailedJob → AttentionItem
job_item x = record {
  category = Category.notification;
  pk = x.0;
  urgency_rank = rank_of Category.notification;
  title = x.1.subject;
  reference = x.2.message_id;
  reason = Reason.delivery_failed;
  due_at = x.1.next_attempt_at;
  action_label = "Review delivery";
  management = true;
}

-- The items of failed deliveries.
unfoldable pub failed_jobs : Desk → User → DashboardPreference → Db → List AttentionItem
unfolding management_scope dead_jobs numbered
failed_jobs desk user preferences db =
    if preferences.show_notification_failures && has_capability user manage_messages
    then map job_item (
        take 25 (
          sort_by (job_before desk)
            (dead_jobs (management_scope desk.env user db) (numbered 1 db.notifications))))
    else []

-- All items of this part, in the order of the source.
unfoldable pub managing_items : Desk → User → DashboardPreference → Db → Board → Result Board
unfolding add_items returned_messages awaiting_approval expiring_messages failed_jobs
managing_items desk user preferences db b =
    let returned = returned_messages desk user preferences db in
    elim (add_items Category.returned db.versions (λ m. return_reason (last_return m.pk db.history))
      (λ m v. return_time desk m (last_return m.pk db.history)) "Review draft" returned b) [
        | err e ↦ err e
        | ok b1 ↦
            elim (add_items Category.approval db.versions (λ m. Reason.to_approve)
              (λ m v. v.release_at) "Review approval"
              (awaiting_approval desk user preferences returned db) b1) [
                | err e ↦ err e
                | ok b2 ↦
                    add_items Category.expiring db.versions
                      (λ m. Reason.expiring_within preferences.expiring_within_days)
                      (λ m v. v.expiry_at) "Review instruction"
                      (expiring_messages desk user preferences db)
                      (record b2 {
                        attention = b2.attention ++ failed_jobs desk user preferences db;
                      })
              ]
      ]
