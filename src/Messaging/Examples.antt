-- ===== src/Messaging/Examples.antt =====
-- The theorems about the message services, applied to the runs of Scenarios.
use first_brief.Messaging.Withdrawal.{restore_message, add_restored_version, save_message}
use first_brief.Prelude.{
  false, none, [], ◌∷◌, ◌≡◌, ◌≢◌, ◌⊎◌, refl, find, arith, is_blank, any, has_text, some, ◌+◌,
}
use first_brief.Errors.{Error, Result, ok, err}
use first_brief.Messaging.Model.{Command, Message, Kind, Status}
use first_brief.Messaging.Effects.Unplanned.{restore_plans_nothing}
use first_brief.Messaging.Requests.{Request, run}
use first_brief.Messaging.Scenarios.{
  desk, manager, reader, live, live_row, office, cancelling, cancelled_live, after_cancelling,
  cancelling_runs,
}
use first_brief.Messaging.Transition.{
  lock_message, update_locked, command_by, or_replay, replayed_command, transition, perform,
  record_transition,
}
use first_brief.Messaging.Transition.Laws.{Replayed, command_row}
use first_brief.Messaging.StateMachine.{Effect}
use first_brief.Messaging.Guarantees.{run-Outcome, second_command_fails, repeated_command}
use first_brief.Messaging.Replay.{run-refuses_other_command, run-denied}
use first_brief.Messaging.History.{IsRecorded, IsChain, last_status}
use first_brief.Messaging.History.Preserved.{run-IsRecorded, create-IsRecorded, revise-IsRecorded}
use first_brief.Messaging.Authoring.{
  Content, Draft, create_message, revise_message, insert_message, insert_version, insert_rights,
  record_creation, replace_rights, bump_version, write_revision,
}
use first_brief.Messaging.Authoring.Frame.{
  Created, Revised, create_message-Created, revise_message-Revised,
}
use first_brief.Messaging.Validation.{
  message_clean, message_full_clean, version_full_clean, version_clean, validate_future_dates,
}
use first_brief.Messaging.Rights.{validate_rights}
use first_brief.Notifications.Schedule.{register_message_created, schedule_message_lifecycle}
use first_brief.Notifications.QuietHours.{notification_time, apply_quiet_hours}
use first_brief.Identity.Access.{has_capability, role_grants}
use first_brief.Assurance.Audit.{record_event}
use first_brief.Prelude.Tables.{lookup, adjust}
use first_brief.Store.{
  Db, require_capability, get_message, current_version, audit_message, require_if_given,
  update_message, Env,
}

run-Outcome_example :
    Replayed 1 90 Command.cancel office cancelled_live after_cancelling
    ⊎ Effect 1 4 90 Command.cancel office cancelled_live after_cancelling
run-Outcome_example = run-Outcome desk cancelling live 4 90 office cancelling_runs

second_command_fails_example :
    run desk cancelling live 4 91 after_cancelling ≢ ok (cancelled_live, after_cancelling)
unfolding find
second_command_fails_example =
    second_command_fails desk cancelling cancelling live live 4 90 91 office refl refl
      cancelling_runs refl cancelled_live after_cancelling

-- The desk ten days later.
abbrev ten_days_later : Env
ten_days_later = record desk { context = record desk.context { now = desk.now + 864000000000 } }

repeated_command_example :
    run ten_days_later cancelling live 4 90 after_cancelling ≡ ok (cancelled_live, after_cancelling)
repeated_command_example =
    repeated_command desk ten_days_later cancelling live live 4 4 90 office refl cancelling_runs

run-refuses_other_command_example :
    run desk (Request.archive none) cancelled_live 5 90 after_cancelling
    ≡ err Error.key_used_for_other_command
unfolding find
run-refuses_other_command_example =
    run-refuses_other_command desk (Request.archive none) cancelled_live 5 90 after_cancelling
      (command_row 1 90 Command.cancel live_row cancelled_live.status) refl refl refl

run-denied_example :
    run desk (Request.cancel reader "No longer needed.") live 4 90 office ≡ err Error.no_capability
unfolding has_capability has_text role_grants
run-denied_example =
    run-denied desk (Request.cancel reader "No longer needed.") live 4 90 office refl refl

office-IsRecorded : IsRecorded office
unfolding last_status lookup
office-IsRecorded = record {
  chain = IsChain.snoc _ IsChain.nil refl refl;
  last = λ pk. ground arith;
}

run-IsRecorded_example : IsRecorded after_cancelling
run-IsRecorded_example =
    run-IsRecorded desk cancelling live 4 90 office office-IsRecorded cancelling_runs

abbrev made : Result (Message × Db) → Db
made (ok (m, db)) = db
made (err e) = office

abbrev works : Content
works = record {
  title = "Runway works";
  summary = "";
  text_content = "South side closed.";
  release_at = 2000;
  effective_at = none;
  expiry_at = 9000;
  group_rights = (3, "mandatory") ∷ [];
}

abbrev second_draft : Draft
second_draft = record {
  pk = 2;
  message_id = "B-2";
  kind = Kind.botd;
  message_type_id = 1;
  subtype_id = none;
  archive_on_expiry = false;
  approvers = [];
}

abbrev made_message : Result (Message × Db) → Message
made_message (ok (m, db)) = m
made_message (err e) = live

abbrev creating : Result (Message × Db)
creating = create_message desk manager second_draft works office

abbrev after_creating : Db
after_creating = made creating

abbrev created_one : Message
created_one = made_message creating

creating_runs : creating ≡ ok (created_one, after_creating)
unfolding create_message require_capability has_capability validate_future_dates message_full_clean
    insert_message lookup version_full_clean version_clean insert_version validate_rights
    insert_rights record_creation audit_message record_event register_message_created is_blank any
    message_clean schedule_message_lifecycle current_version find notification_time
    apply_quiet_hours
creating_runs = refl

create_message-Created_example :
    Created desk manager second_draft works office created_one after_creating
create_message-Created_example =
    create_message-Created desk manager second_draft works office creating_runs

create-IsRecorded_example : IsRecorded after_creating
create-IsRecorded_example =
    create-IsRecorded desk manager second_draft works office office-IsRecorded creating_runs

abbrev correction : Content
correction = record works { release_at = 500 }

abbrev revising : Result (Message × Db)
revising = revise_message desk manager 1 4 correction "South side." office

abbrev after_revising : Db
after_revising = made revising

abbrev revised_one : Message
revised_one = made_message revising

revising_runs : revising ≡ ok (revised_one, after_revising)
unfolding revise_message require_capability has_capability lock_message get_message lookup
    current_version write_revision version_full_clean version_clean insert_version validate_rights
    replace_rights bump_version update_locked adjust audit_message record_event
    schedule_message_lifecycle is_blank find any
revising_runs = refl

revise_message-Revised_example : Revised manager 1 4 correction office revised_one after_revising
revise_message-Revised_example =
    revise_message-Revised desk manager 1 4 correction "South side." office revising_runs

revise-IsRecorded_example : IsRecorded after_revising
revise-IsRecorded_example =
    revise-IsRecorded desk manager 1 4 correction "South side." office office-IsRecorded
      revising_runs

abbrev shelved : Db
shelved = record office { messages = (1, record live_row { status = Status.archived }) ∷ [] }

abbrev restoring : Result (Message × Db)
restoring = restore_message desk manager live 4 (some 9000) "Needed again." 91 shelved

restoring_runs : restoring ≡ ok (made_message restoring, made restoring)
unfolding restore_message add_restored_version save_message command_by require_if_given
    require_capability has_capability or_replay replayed_command find transition perform
    lock_message get_message lookup update_locked adjust record_transition audit_message
    record_event is_blank current_version version_full_clean version_clean update_message
restoring_runs = refl

restore_plans_nothing_example : (made restoring).jobs ≡ shelved.jobs
restore_plans_nothing_example =
    restore_plans_nothing desk manager live 4 (some 9000) "Needed again." 91 shelved restoring_runs
