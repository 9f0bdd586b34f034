-- ===== src/Lib.antt =====
-- FirstBrief, a briefing system for operational staff: messages are drafted, approved, released,
-- become effective, expire and are archived; readers have to read what their groups must know; jobs
-- move the messages on and send notifications; everything is audited. This library models the
-- services of firstbrief/ (Django) as functions and states what they guarantee.
--
-- The state. `Store.Db` holds the tables that the services write, as association lists by primary key
-- or as lists in the order of insertion; `Store.Env` holds what they read (the clock, the taxonomy,
-- the policies) and the code outside the repository that they call, as parameters: Django's validation
-- of single columns and of uniqueness, `uuid5`, the IANA time zones, the templates, the mail
-- server. A service is a function `Env → … → Tx A`, where `Tx A = Db → Result (A × Db)`: an exception
-- is an error without a database, since `transaction.atomic` rolls the writes back. Services run one after the other, as
-- `select_for_update` makes those of one message do; interleavings are sequences of calls with stale
-- instances, which is why a command takes the caller's instance and the version that the caller saw.
--
-- The files and their sources:
--   Prelude and its children: tests on native numbers, lists, text, sorting and tables.
--   Errors: the exceptions of all services.
--   Configuration: firstbrief/configuration/models.py (message types, groups and subtypes).
--   Identity/Model, Identity/Access: firstbrief/identity/models.py and services.py (`has_capability`,
--     `require_capability`, `visible_users_for`, `can_access_message_type`).
--   Assurance/Model, Assurance/Audit: firstbrief/assurance/models.py and `record_event` of
--     firstbrief/assurance/services.py.
--   Assurance/Retention, Retention/Purge: `retention_candidates`, `preview_purge` and
--     `approve_and_execute_purge` of firstbrief/assurance/services.py, and proofs about them.
--   Identity/Login, Login/Laws, Guard, Lockout: `LocalAccountBackend.authenticate` of
--     firstbrief/identity/backends.py, as a function of the accounts, the cache and the log. It is not
--     a transaction, so an outcome has a state also where a call outside raises.
--   Identity/Passwords, Passwords/Laws: firstbrief/identity/validators.py, and
--     `generate_compliant_password` and `reset_local_password` of firstbrief/identity/services.py.
--   Messaging/Model, Validation: firstbrief/messaging/models.py (rows, `clean`).
--   Messaging/Rights, Transition, Authoring, Lifecycle, Withdrawal: firstbrief/messaging/services.py.
--     `_replayed_command` is `replayed_command`, `_lock_message` is `lock_message`, `_transition` is
--     `transition`, with `perform` for the part behind its replay; `command_by` is the beginning that
--     the lifecycle commands share. The other functions keep their names.
--   Messaging/Requests, StateMachine: the nine lifecycle commands as one type of requests, and the
--     table of docs/state-machine.md as a relation, with the restoring that the code adds.
--   Messaging/Effects, Guarantees, Replay, History: proofs about all commands at once.
--   Notifications/Model, Recipients, QuietHours, Schedule: firstbrief/notifications/models.py and the
--     parts of services.py that plan lifecycle jobs and outbox events.
--   Notifications/Queue, DueJobs, Outbox, Delivery: the workers `process_due_lifecycle`,
--     `process_outbox` and `deliver_notifications`, and `manual_resend`, of the same file; their
--     children hold the proofs. An exception inside a worker's `try` is rolled back to its savepoint.
--   Operations/Model, Reading: firstbrief/operations/models.py, and `open_message_view`,
--     `close_message_view` and `save_reading_position` of firstbrief/operations/services.py, on the
--     tables of their own (`Readings`); Reading/Touched and Reading/Laws hold the proofs.
--   Operations/Access, Listing, Actions, Policy: the queries of the messages that a reader may see, the
--     lists made of them, printing, mail and feedback, and `update_policy`, of the same file;
--     Receipts takes all that writes receipts together.
--   Operations/Dashboard, Dashboard/Attention, Managing: `dashboard_data` of the same file; Attention has
--     the items of a reader, Managing those of the people who manage messages.
--   SapImport/Model, Parsing, Staging, Committing: firstbrief/sapimport/models.py and services.py, on
--     tables of their own (`Imports`); what Python and Django do with bytes and csv is in
--     `Surroundings`.
--   Retrieval/Maintenance: `permitted_maintenance_actions` of firstbrief/retrieval/services.py;
--     Maintenance/Complete compares it with the lifecycle commands. Retrieval/Search: the search and
--     the rows of both pages, of the same file; the times of its dates are those that `_day_start` and
--     `_day_end` make.
--   Reporting/Runs: `ReportRun` of firstbrief/reporting/models.py and its operations in services.py; the
--     builders of the single reports are a parameter.
--   Messaging/Scenarios and the files Examples: runs on small databases.
--
-- Bounds. Times are natural numbers of microseconds since the epoch; a notification's offset is signed
-- in the source and here a pair of minutes to add and to subtract, so times before the epoch are cut
-- off at 0, and the end of the year 9999 is the last time of a next attempt: `retry_at` raises where
-- the doubled delay leads behind it. Lock versions and version numbers are unbounded here and 32-bit columns in the database.
-- All recursion is structural; the hundred rounds in which a password is drawn are the source's own
-- bound.
--
-- Not modelled: views, forms, admin pages and urls (HTTP), the rows of the single reports, file
-- storage and virus scanning, settings and migrations.
pub mod Prelude
pub mod Errors
pub mod Configuration
pub mod Identity
pub mod Messaging
pub mod Assurance
pub mod Store
pub mod Notifications
pub mod Operations
pub mod SapImport
pub mod Retrieval
pub mod Reporting
