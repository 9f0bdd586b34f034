-- ===== src/SapImport/Model.antt =====
-- firstbrief/sapimport/models.py, the users and the change records that an import writes, and the code
-- outside the repository that it calls.
use first_brief.Prelude.{ℕ, Bool, Option, List, String}
use first_brief.Prelude.Tables.{Table}
use first_brief.Errors.{Error}
use first_brief.Assurance.Model.{AuditEvent}
use first_brief.Assurance.Audit.{Context}

-- The columns of a row, stripped; the model has a field for each of the nine columns.
pub record Values : Type 0 where
  pub schema_version : String
  pub action : String
  pub user_id : String
  pub first_name : String
  pub last_name : String
  pub email : String
  pub site_code : String
  pub group_codes : String
  pub include_in_reports : String

pub record ParsedRow : Type 0 where
  pub row_number : ℕ
  pub values : Values

pub data BatchStatus : Type 0 where
  staged rejected committed : BatchStatus

-- `error` is `none` for the empty text.
pub record ImportBatch : Type 0 where
  pub filename : String
  pub content_sha256 : String
  pub staged_content : String
  pub status : BatchStatus
  pub error : Option Error
  pub staged_by : ℕ
  pub committed_at : Option ℕ

pub record ImportChange : Type 0 where
  pub pk : ℕ
  pub batch_pk : ℕ
  pub row_number : ℕ
  pub site_code : String
  pub action : String
  pub user_id : String
  pub payload : Values
  pub selected : Bool
  pub applied : Bool
  pub outcome : String

-- The columns of a user that an import writes.
pub record ImportedUser : Type 0 where
  pub username : String
  pub first_name : String
  pub last_name : String
  pub email : String
  pub site_code : String
  pub include_in_reports : Bool
  pub imported_from_sap : Bool
  pub is_active : Bool
  pub local_auth_enabled : Bool
  pub message_groups : List String

pub record ImportChangeRecord : Type 0 where
  pub batch_reference : ℕ
  pub site_code : String
  pub change_type : String
  pub object_type : String
  pub object_id : String
  pub summary : String
  pub occurred_at : ℕ

pub record Imports : Type 0 where
  pub batches : Table ImportBatch
  pub changes : List ImportChange
  pub users : List ImportedUser
  pub records : List ImportChangeRecord
  pub audit : List AuditEvent

-- A row of a text. One with more cells than columns gives a list under the key `None`, which has no
-- `strip`.
pub data CsvRow : Type 0 where
  cells : Values → CsvRow
  overlong : CsvRow

-- What the `csv` module makes of a text: the field names, `none` where already the first line is
-- malformed and `csv.Error` is raised, and the rows up to a malformed one.
pub record Csv : Type 0 where
  pub fieldnames : Option (List String)
  pub rows : List CsvRow
  pub malformed : Bool

-- Sites and groups are keyed by their codes. `byte_length`, `has_nul`, `decode`, `encode`, `digest`
-- (SHA-256), `read_csv`, `strip`, `lower` and `base_name` (the name behind the last slash or backslash,
-- cut off) are Python's; a group with `group_site` is an active group of that site.
pub record Surroundings (Bytes : Type 0) : Type 0 where
  pub context : Context
  pub open context use *
  pub byte_length : Bytes → ℕ
  pub has_nul : Bytes → Bool
  pub decode : Bytes → Option String
  pub encode : String → Bytes
  pub digest : Bytes → String
  pub read_csv : String → Csv
  pub strip : String → String
  pub lower : String → String
  pub split_codes : String → List String
  pub base_name : String → String
  pub site_exists : String → Bool
  pub site_is_active : String → Bool
  pub group_is_active : String → String → Bool
  pub group_of_site : String → String → Bool
  pub fresh_batch : Imports → ℕ
