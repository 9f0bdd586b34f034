-- ===== src/Messaging/Scenarios.antt =====
-- Runs of the message services on a small database: an effective message that is cancelled, an author
-- who creates a message, and a manager who revises one.
use first_brief.Prelude.{true, false, none, some, List, [], ◌∷◌, ◌≡◌, refl, ◌++◌, find, is_blank}
use first_brief.Errors.{ok}
use first_brief.Configuration.{ContentType}
use first_brief.Identity.Model.{User}
use first_brief.Messaging.Model.{
  Kind, Status, Command, Message, MessageRow, MessageVersion, MessageStatusHistory,
}
use first_brief.Messaging.Requests.{Request, run}
use first_brief.Messaging.Transition.{
  move, command_by, or_replay, replayed_command, transition, perform, lock_message, update_locked,
  record_transition,
}
use first_brief.Messaging.Transition.Laws.{history_row, command_row}
use first_brief.Notifications.Model.{Anchor}
use first_brief.Assurance.Model.{Datum}
use first_brief.Messaging.Withdrawal.{cancel_message}
use first_brief.Identity.Access.{has_capability}
use first_brief.Assurance.Audit.{record_event}
use first_brief.Prelude.Tables.{lookup, adjust}
use first_brief.Store.{Db, Env, require_if_given, require_capability, get_message, audit_message}

abbrev pub desk : Env
desk = record {
  context = record { now = 1000; correlation_id = "c1" };
  message_type = λ _. record {
    default_content_type = ContentType.text;
    requires_approval = true;
    has_subtypes = false;
    has_effective_date = false;
  };
  message_subtype = λ _. none;
  message_group = λ _. some (record { primary_group_id = 1; primary_site_id = 1 });
  user_email = λ _. "a@example.org";
  identity_policy = record {
    max_failed_logins = 5;
    lockout_minutes = 15;
    password_expiry_days = 90;
    password_min_length = 12;
    password_max_length = 64;
    approval_notification_email = "";
    policy_notification_email = "";
  };
  notification_policy = record {
    creation_anchor = Anchor.now;
    creation_offset_minutes = record { later = 0; earlier = 0 };
    approval_anchor = Anchor.now;
    approval_offset_minutes = record { later = 0; earlier = 0 };
    quiet_hours_start = none;
    quiet_hours_end = none;
    timezone_name = "Europe/London";
    maximum_attempts = 3;
    retry_delay_minutes = 5;
    archive_retention_days = 30;
  };
  retention_policy = record {
    archived_months = 12;
    expired_months = 12;
    require_second_approver = true;
  };
  message_fields = λ _ _. true;
  version_fields = λ _ _. true;
  lifecycle_uuid = λ pk number _. pk;
  normalise = λ s. s;
  zone_info = λ _. none;
  render = λ _ _ _. ok ("subject", "body");
  send_mail = λ _ _ _. ok tt;
  fresh_uuid = λ _. 50;
  sha256 = λ _. "digest";
}

abbrev pub manager : User
manager = record {
  pk = 7;
  is_authenticated = true;
  is_active = true;
  is_superuser = true;
  email = "m@example.org";
  site_id = some 1;
  roles = [];
  direct_capabilities = [];
  message_groups = [];
  default_message_group_id = none;
}

abbrev pub reader : User
reader = record manager { pk = 8; is_superuser = false }

abbrev pub live_row : MessageRow
live_row = record {
  message_id = "B-1";
  kind = Kind.botd;
  message_type_id = 1;
  subtype_id = none;
  originator_id = 7;
  approvers = [];
  status = Status.effective;
  lock_version = 4;
  current_version_number = 1;
  archive_on_expiry = true;
  supersedes_id = none;
  updated_at = 0;
  purged_at = none;
}

abbrev pub live : Message
live = record { pk = 1; row = live_row }

abbrev pub first_version : MessageVersion
first_version = record {
  message_pk = 1;
  version_number = 1;
  title = "Runway works";
  summary = "";
  text_content = "North side closed.";
  searchable_content = "North side closed.";
  release_at = 500;
  effective_at = none;
  expiry_at = 5000;
  created_by = 7;
}

abbrev pub live_history : List MessageStatusHistory
live_history =
    record {
      message_pk = 1;
      from_status = none;
      to_status = Status.effective;
      actor_id = some 7;
      reason = "Message created.";
      aggregate_version = 1;
    }
    ∷ []

abbrev pub office : Db
office = record {
  messages = (1, live_row) ∷ [];
  versions = first_version ∷ [];
  rights = [];
  approvals = [];
  history = live_history;
  commands = [];
  files = [];
  jobs = [];
  outbox = [];
  notifications = [];
  audit = [];
  legal_holds = [];
  purge_runs = [];
}

abbrev pub cancelling : Request
cancelling = Request.cancel manager "Works finished."

abbrev pub cancelled_live : Message
cancelled_live = record { pk = 1; row = move Status.cancelled live_row }

abbrev pub after_cancelling : Db
after_cancelling = record office {
  messages = (1, move Status.cancelled live_row) ∷ [];
  history = live_history ++ history_row 1 (some 7) live_row Status.cancelled "Works finished." ∷ [];
  commands = command_row 1 90 Command.cancel live_row Status.cancelled ∷ [];
  audit =
      record {
        actor_id = some 7;
        action = "message.cancelled";
        object_type = "Message";
        object_id = some 1;
        occurred_at = 1000;
        correlation_id = "c1";
        reason = "Works finished.";
        before = ("status", Datum.text "effective") ∷ ("lock_version", Datum.number 4) ∷ [];
        after = ("status", Datum.text "cancelled") ∷ ("lock_version", Datum.number 5) ∷ [];
      }
      ∷ [];
}

pub cancelling_runs : run desk cancelling live 4 90 office ≡ ok (cancelled_live, after_cancelling)
unfolding cancel_message command_by require_if_given require_capability has_capability or_replay
    replayed_command find transition perform lock_message get_message lookup update_locked adjust
    record_transition audit_message record_event is_blank
cancelling_runs = refl
