-- ===== src/Operations/DeskExamples.antt =====
-- The theorems about lists, access and the actions of readers, applied to one effective message.
use first_brief.Operations.Receipts.Preserved.{call-IsUnique}
use first_brief.Prelude.{
  any_char, text_length, ◌+◌, ◌≡◌, refl, ◌≢◌, true, false, none, List, [], ◌∷◌, arith, any, filter,
  find, length, contains, has_text,
}
use first_brief.Identity.Access.{role_grants, role_opens, has_capability}
use first_brief.Operations.Dashboard.Urgent.{dashboard-counts, names_overdue, dashboard-overdue}
use first_brief.Operations.Dashboard.{Dashboard, dashboard_data, dashboard_of}
use first_brief.Notifications.QuietHours.{apply_quiet_hours}
use first_brief.Prelude.Sorting.{sort_by}
use first_brief.Operations.Access.{operational_messages, Desk, Annotated, accessible_message}
use first_brief.Messaging.Model.{Right}
use first_brief.Assurance.Model.{AuditEvent}
use first_brief.Operations.Listing.Laws.{Split, message_rows-Split}
use first_brief.Operations.Policy.{update_policy}
use first_brief.Operations.Actions.Laws.{
  Mailed, submit_feedback-reaches, email_message_to_self-Mailed,
}
use first_brief.Operations.Actions.{
  email_message_to_self, submit_feedback, record_print, queued_job,
}
use first_brief.Notifications.Model.{NotificationJob, NotificationKind}
use first_brief.Operations.Receipts.{Call, call, IsUnique}
use first_brief.Operations.Listing.{ListRow, message_rows, list_row, is_unread, receipt_of}
use first_brief.Operations.Access.Laws.{Opened, accessible_message-Opened}
use first_brief.Operations.Model.{Readings, DashboardPreference}
use first_brief.Store.{Db}
use first_brief.Identity.Model.{User}
use first_brief.Messaging.Scenarios.{desk, manager, live, office, first_version}
use first_brief.Errors.{ok, Result, Gives, err}

abbrev pub counter : Desk
counter = record {
  env = desk;
  policy = record {
    pre_effective_hours = 24;
    pre_effective_colour = "#6f42c1";
    idle_timeout_seconds = 60;
  };
  users = manager ∷ [];
  casefold = λ s. s;
  text_before = λ s t. false;
  self_mail = λ m v url. ("subject", url);
  feedback_mail = λ m v u subject body. (subject, body);
  fresh_key = λ jobs. length jobs;
  occurred_at = λ h. 0;
}

-- A controller of one group at the site of the message.
abbrev pub controller : User
controller = record manager {
  pk = 9;
  is_superuser = false;
  roles = record { is_active = true; capabilities = []; message_types = 1 ∷ [] } ∷ [];
  message_groups = 3 ∷ [];
}

abbrev pub tower : Db
tower = record office {
  rights = record { message_pk = 1; message_group_id = 3; right = Right.mandatory } ∷ [];
}

abbrev nothing_read : Readings
nothing_read = record {
  receipts = [];
  sessions = [];
  positions = [];
  events = [];
  notifications = [];
  audit = [];
}

abbrev notice : Annotated
notice = record {
  message = live;
  audience_prohibited = false;
  audience_allowed = true;
  audience_mandatory = true;
}

opening_runs : accessible_message counter controller 1 tower ≡ ok notice
unfolding accessible_message find filter role_opens contains any
opening_runs = refl

accessible_message-Opened_example : Opened controller 1 tower notice
accessible_message-Opened_example =
    accessible_message-Opened counter controller 1 tower opening_runs

abbrev listing : Result (List ListRow)
listing = message_rows counter controller "all" "effective" [] tower

abbrev listed : List ListRow
listed = list_row 1000 notice none first_version ∷ []

listing_runs : listing ≡ ok listed
unfolding message_rows operational_messages filter role_opens contains any find sort_by
listing_runs = refl

message_rows-Split_example :
    Gives (message_rows counter controller "mandatory" "effective" [] tower) (λ m.
      Gives (message_rows counter controller "other" "effective" [] tower) (λ o. Split m o listed))
message_rows-Split_example =
    message_rows-Split counter controller "all" "effective" [] tower refl refl listing_runs

abbrev printing : Call
printing = Call.print controller live "b"

call-IsUnique_example : IsUnique (record_print counter controller live "b" nothing_read).receipts
unfolding call IsUnique filter
call-IsUnique_example =
    call-IsUnique counter tower printing nothing_read refl (λ user pk. ground arith)

abbrev mailing : Result (NotificationJob × Readings)
mailing = email_message_to_self counter controller live "b" "https://brief/1" tower nothing_read

abbrev job_of : Result (NotificationJob × Readings) → NotificationJob × Readings
job_of (ok x) = x
job_of (err e) = (queued_job counter live NotificationKind.feedback [] "" "" [] 0, nothing_read)

mailing_runs : mailing ≡ ok ((job_of mailing).0, (job_of mailing).1)
unfolding email_message_to_self find apply_quiet_hours
mailing_runs = refl

email_message_to_self-Mailed_example :
    Mailed counter controller live "b" (job_of mailing).0 nothing_read (job_of mailing).1
email_message_to_self-Mailed_example =
    email_message_to_self-Mailed counter controller live "b" "https://brief/1" tower nothing_read
      mailing_runs

abbrev answering : Result (NotificationJob × Readings)
answering = submit_feedback counter controller live "Typo" "Line 2" "b" tower nothing_read

answering_runs : answering ≡ ok ((job_of answering).0, (job_of answering).1)
unfolding submit_feedback find apply_quiet_hours
answering_runs = refl

submit_feedback-reaches_example : (job_of answering).0.recipients ≢ []
submit_feedback-reaches_example =
    submit_feedback-reaches counter controller live "Typo" "Line 2" "b" tower nothing_read
      answering_runs

-- A test: a valid policy of a manager is stored.
abbrev policy_log : List AuditEvent
policy_log = elim (update_policy desk.context manager counter.policy []) [
  | ok (p, log) ↦ log
  | err e ↦ []
]

setting_runs :
    update_policy desk.context manager counter.policy [] ≡ ok (counter.policy, policy_log)
unfolding update_policy has_capability text_length any_char
setting_runs = refl

abbrev choices : DashboardPreference
choices = record {
  show_forthcoming = true;
  show_botd = true;
  show_approvals = true;
  show_returned_drafts = true;
  show_notification_failures = true;
  show_expiring_instructions = true;
  show_recently_opened = true;
  item_limit = 10;
  expiring_within_days = 7;
}

abbrev start_page : Result Dashboard
start_page = dashboard_data counter controller choices 400 [] tower

abbrev empty_page : Dashboard
empty_page = dashboard_of counter controller choices 400 [] tower [] []

abbrev page : Dashboard
page = elim start_page [ ok d ↦ d | err e ↦ empty_page ]

start_page_runs : start_page ≡ ok page
unfolding dashboard_data operational_messages filter role_opens contains any find has_capability
    has_text role_grants
start_page_runs = refl

dashboard-counts_example :
    page.mandatory_unread + page.other_unread
    ≡ length (
        filter
          (λ a. is_unread (receipt_of 9 [] a.message.pk))
          (operational_messages counter controller tower))
dashboard-counts_example = dashboard-counts counter controller choices 400 [] tower start_page_runs

dashboard-overdue_example : any (names_overdue 1) page.attention_items ≡ true
unfolding find dashboard_data operational_messages filter role_opens contains any has_capability
    has_text role_grants sort_by
dashboard-overdue_example =
    dashboard-overdue counter controller choices 400 1 [] tower opening_runs refl start_page_runs
      refl
