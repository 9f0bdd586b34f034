-- ===== src/Operations/Reading.antt =====
-- `open_message_view`, `close_message_view` and `save_reading_position` of
-- firstbrief/operations/services.py.
pub mod Touched
pub mod Laws
use first_brief.Store.{is_version}
use first_brief.Messaging.Model.{MessageVersion}
use first_brief.Prelude.{
  find, ℕ, ◌+◌, ◌-◌, ◌/◌, min, max, String, Bool, true, false, not, ◌&&◌, Option, none, some, List,
  [], ◌∷◌, ◌++◌, if◌then◌else◌, ◌==◌, any, is_some, or_else, update_where,
}
use first_brief.Prelude.Tables.{lookup, adjust}
use first_brief.Errors.{Error, Result, ok, err}
use first_brief.Assurance.Model.{AuditEvent, Datum, Detail}
use first_brief.Assurance.Audit.{Context, record_event, Subject}
use first_brief.Operations.Model.{
  ℤ, Viewed, MessageReceipt, MessageViewSession, ReadingPosition, EventType, MessageAccessEvent,
  Readings,
}

abbrev pub is_receipt : ℕ → ℕ → MessageReceipt → Bool
is_receipt user pk r = r.user_pk == user && r.message_pk == pk

-- The columns' defaults.
abbrev pub new_receipt : ℕ → ℕ → MessageReceipt
new_receipt user pk = record {
  user_pk = user;
  message_pk = pk;
  first_read_at = none;
  cleared_at = none;
  cumulative_view_seconds = 0;
  printed_at = none;
  emailed_at = none;
  last_accessed_at = none;
}

-- `MessageReceipt.objects.get_or_create(user=actor, message=message)`, the table that it leaves
unfoldable pub with_receipt : ℕ → ℕ → List MessageReceipt → List MessageReceipt
with_receipt user pk receipts =
    if any (is_receipt user pk) receipts then receipts else receipts ++ new_receipt user pk ∷ []

abbrev pub subject_of : ℕ → Option Subject
subject_of pk = some (record { class_name = "Message"; key = pk })

-- What opening a view writes; `session_pk` is the fresh `uuid4` of the session.
unfoldable pub write_view : Context → ℕ → Viewed → String → ℕ → Readings → Readings
unfolding with_receipt
write_view c actor message browser session_pk rs = record rs {
  receipts =
      update_where (is_receipt actor message.pk) (λ r. record r { last_accessed_at = some c.now })
        (with_receipt actor message.pk rs.receipts);
  sessions =
      rs.sessions
      ++ (
        session_pk,
        record {
          user_pk = actor;
          message_pk = message.pk;
          version_number = some message.current_version_number;
          mandatory_at_open = message.audience_mandatory;
          browser_session_key = browser;
          opened_at = c.now;
          closed_at = none;
          active_seconds = 0;
        },
      )
        ∷ [];
  events =
      rs.events
      ++ record {
        user_pk = actor;
        message_pk = message.pk;
        event_type = EventType.opened;
        browser_session_key = browser;
        duration_seconds = 0;
        metadata = ("version_number", Datum.number message.current_version_number) ∷ [];
      }
        ∷ [];
  audit = record_event c "message.opened" (some actor) (subject_of message.pk) [] [] "" rs.audit;
}

-- `message.current_version` raises where the version is missing, and the transaction is rolled back.
unfoldable pub open_message_view :
    Context → ℕ → Viewed → String → ℕ → List MessageVersion → Readings → Result Readings
unfolding write_view
open_message_view c actor message browser session_pk versions rs =
    if is_some (find (is_version message.pk message.current_version_number) versions)
    then ok (write_view c actor message browser session_pk rs)
    else err Error.does_not_exist

-- `get(pk=…, user=actor, message=message, closed_at__isnull=True)`
abbrev pub is_open : ℕ → ℕ → MessageViewSession → Bool
is_open user pk s = s.user_pk == user && s.message_pk == pk && not (is_some s.closed_at)

unfoldable pub open_session : ℕ → ℕ → Option MessageViewSession → Option MessageViewSession
open_session user pk none = none
open_session user pk (some s) = if is_open user pk s then some s else none

-- `max(value, 0)`
abbrev pub at_least_zero : ℤ → ℕ
at_least_zero (ℤ.pos n) = n
at_least_zero (ℤ.negsuc n) = 0

-- `max(0, int((now - opened_at).total_seconds()) + 5)`, where `int` cuts off towards 0
abbrev pub elapsed : ℕ → ℕ → ℕ
elapsed now opened_at = (now - opened_at) / 1000000 + 5 - (opened_at - now) / 1000000

abbrev pub credited : ℕ → MessageViewSession → ℤ → ℕ
credited now s active_seconds =
    min (at_least_zero active_seconds) (min (elapsed now s.opened_at) 14400)

-- The receipt after a view that was closed.
abbrev pub read_receipt : ℕ → Bool → ℕ → MessageReceipt → MessageReceipt
read_receipt now clear seconds r = record r {
  first_read_at = (if is_some r.first_read_at then r.first_read_at else some now);
  cleared_at = (if clear then some now else r.cleared_at);
  cumulative_view_seconds = r.cumulative_view_seconds + seconds;
  last_accessed_at = some now;
}

access_event : ℕ → ℕ → MessageViewSession → EventType → ℕ → Detail → MessageAccessEvent
access_event actor pk s type seconds metadata = record {
  user_pk = actor;
  message_pk = pk;
  event_type = type;
  browser_session_key = s.browser_session_key;
  duration_seconds = seconds;
  metadata = metadata;
}

-- The access events of a view that was closed.
closing_events : ℕ → ℕ → MessageViewSession → Bool → Bool → ℕ → ℕ → List MessageAccessEvent
unfolding access_event
closing_events actor pk s clear lifecycle_changed seconds number =
    let version : Detail = ("version_number", Datum.number number) ∷ [] in
    let last =
      access_event actor pk s (if clear then EventType.cleared else EventType.read) seconds
        (version ++ ("lifecycle_changed_while_open", Datum.flag lifecycle_changed) ∷ []) in
    if clear
    then access_event actor pk s EventType.acknowledged seconds version ∷ last ∷ []
    else last ∷ []

acknowledge : Context → ℕ → ℕ → Bool → ℕ → ℕ → List AuditEvent → List AuditEvent
acknowledge c actor pk true seconds number log =
    record_event c "message.acknowledged" (some actor) (subject_of pk) []
      (("version_number", Datum.number number) ∷ ("viewing_seconds", Datum.number seconds) ∷ []) ""
      log
acknowledge c actor pk false seconds number log = log

closing_detail : Bool → Bool → ℕ → ℕ → Detail
closing_detail clear lifecycle_changed seconds number =
    ("viewing_seconds", Datum.number seconds)
    ∷ ("acknowledged", Datum.flag clear)
    ∷ ("version_number", Datum.number number)
    ∷ ("lifecycle_changed_while_open", Datum.flag lifecycle_changed)
    ∷ []

unfoldable pub write_close :
    Context → ℕ → Viewed → ℕ → MessageViewSession → ℕ → Bool → Bool → Readings → Readings
unfolding closing_events acknowledge closing_detail with_receipt
write_close c actor message session_pk s seconds clear lifecycle_changed rs =
    let number = or_else s.version_number message.current_version_number in
    record rs {
      sessions =
          adjust session_pk (λ row. record row { active_seconds = seconds; closed_at = some c.now })
            rs.sessions;
      receipts =
          update_where (is_receipt actor message.pk) (read_receipt c.now clear seconds)
            (with_receipt actor message.pk rs.receipts);
      events =
          rs.events ++ closing_events actor message.pk s clear lifecycle_changed seconds number;
      audit =
          record_event c (if clear then "message.cleared" else "message.read") (some actor)
            (subject_of message.pk) [] (closing_detail clear lifecycle_changed seconds number) ""
            (acknowledge c actor message.pk clear seconds number rs.audit);
    }

unfoldable pub close_message_view :
    Context → ℕ → Viewed → ℕ → ℤ → Bool → Bool → Readings → Result Readings
unfolding open_session write_close
close_message_view c actor message session_pk active_seconds clear lifecycle_changed rs =
    elim (open_session actor message.pk (lookup session_pk rs.sessions)) [
      | none ↦ err Error.session_not_active
      | some s ↦
          if clear && not message.audience_mandatory
          then err Error.not_mandatory
          else ok (
              write_close c actor message session_pk s (credited c.now s active_seconds) clear
                lifecycle_changed rs)
    ]

abbrev pub is_position : ReadingPosition → ReadingPosition → Bool
is_position p q =
    p.user_pk == q.user_pk && p.message_pk == q.message_pk && p.version_number == q.version_number

-- `ReadingPosition.objects.update_or_create(…)`
unfoldable pub put_position : ReadingPosition → List ReadingPosition → List ReadingPosition
put_position p positions =
    if any (is_position p) positions
    then update_where (is_position p) (λ _. p) positions
    else positions ++ p ∷ []

-- `min(max(total_pages, 1), 5000)` and `min(max(page, 1), total_pages)`
abbrev pub clamped : ℤ → ℕ → ℕ
clamped value limit = min (max (at_least_zero value) 1) limit

unfoldable pub position_in :
    ℕ → ℕ → Option ℕ → ℤ → ℤ → Readings → Result (ReadingPosition × Readings)
unfolding put_position
position_in actor pk none page total_pages rs = err Error.session_without_version
position_in actor pk (some number) page total_pages rs =
    let p : ReadingPosition = record {
      user_pk = actor;
      message_pk = pk;
      version_number = number;
      page = clamped page (clamped total_pages 5000);
      total_pages = clamped total_pages 5000;
    } in
    ok (p, record rs { positions = put_position p rs.positions })

unfoldable pub save_reading_position :
    ℕ → Viewed → ℕ → ℤ → ℤ → Readings → Result (ReadingPosition × Readings)
unfolding position_in open_session
save_reading_position actor message session_pk page total_pages rs =
    elim (open_session actor message.pk (lookup session_pk rs.sessions)) [
      | none ↦ err Error.session_unavailable
      | some s ↦ position_in actor message.pk s.version_number page total_pages rs
    ]
