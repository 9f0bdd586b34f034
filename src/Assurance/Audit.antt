-- ===== src/Assurance/Audit.antt =====
-- `record_event` of firstbrief/assurance/services.py. The model manager has no `update` and no
-- `delete`, so the log is a list that only grows.
use first_brief.Prelude.{ℕ, Option, none, some, List, [], ◌∷◌, ◌++◌, String}
use first_brief.Assurance.Model.{AuditEvent, Detail}

-- What the request and the clock add to an event.
pub record Context : Type 0 where
  pub now : ℕ
  pub correlation_id : String

-- The object that an event is about: its class name and its primary key.
pub record Subject : Type 0 where
  pub class_name : String
  pub key : ℕ

subject_type : Option Subject → String
subject_type none = "system"
subject_type (some s) = s.class_name

subject_key : Option Subject → Option ℕ
subject_key none = none
subject_key (some s) = some s.key

unfoldable pub record_event :
    Context
    → String
    → Option ℕ
    → Option Subject
    → Detail
    → Detail
    → String
    → List AuditEvent
    → List AuditEvent
unfolding subject_type subject_key
record_event c action actor subject before after reason log =
    log
    ++ record {
      actor_id = actor;
      action = action;
      object_type = subject_type subject;
      object_id = subject_key subject;
      occurred_at = c.now;
      correlation_id = c.correlation_id;
      reason = reason;
      before = before;
      after = after;
    }
      ∷ []
