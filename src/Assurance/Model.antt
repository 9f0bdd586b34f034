-- ===== src/Assurance/Model.antt =====
-- firstbrief/assurance/models.py: audit events, the retention policy, legal holds and purge runs.
use first_brief.Prelude.{ℕ, Bool, Option, List, String}

-- A value of the JSON columns `before` and `after`.
pub data Datum : Type 0 where
  text : String → Datum
  number : ℕ → Datum
  flag : Bool → Datum

abbrev pub Detail : Type 0
Detail = List (String × Datum)

pub record AuditEvent : Type 0 where
  pub actor_id : Option ℕ
  pub action : String
  pub object_type : String
  pub object_id : Option ℕ
  pub occurred_at : ℕ
  pub correlation_id : String
  pub reason : String
  pub before : Detail
  pub after : Detail

pub record RetentionPolicy : Type 0 where
  pub archived_months : ℕ
  pub expired_months : ℕ
  pub require_second_approver : Bool

pub record LegalHold : Type 0 where
  pub message_pk : ℕ
  pub active : Bool

pub data PurgeStatus : Type 0 where
  preview approved complete : PurgeStatus

pub record PurgeRun : Type 0 where
  pub status : PurgeStatus
  pub candidates : List ℕ
  pub requested_by_id : ℕ
  pub approved_by_id : Option ℕ
  pub completed_at : Option ℕ
  pub evidence_sha256 : String
