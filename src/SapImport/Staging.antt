-- ===== src/SapImport/Staging.antt =====
-- `stage_import` of firstbrief/sapimport/services.py.
pub mod Laws
use first_brief.Prelude.{
  ℕ, suc, ◌+◌, Bool, true, false, none, some, List, [], ◌∷◌, ◌++◌, String, length, if◌then◌else◌,
}
use first_brief.Errors.{Error, Result, ok, err}
use first_brief.Assurance.Model.{Datum, Detail}
use first_brief.Assurance.Audit.{record_event}
use first_brief.Identity.Model.{User}
use first_brief.Identity.Access.{has_capability, manage_sap_imports}
use first_brief.SapImport.Model.{
  ParsedRow, BatchStatus, ImportBatch, ImportChange, Imports, Surroundings,
}
use first_brief.SapImport.Parsing.{parse_csv}

-- Whether `except ValidationError` catches an error of the parser.
abbrev pub is_validation : Error → Bool
is_validation Error.attribute_error = false
is_validation Error.malformed_header = false
is_validation _ = true

module _ {Bytes : Type 0} (x : Surroundings Bytes) where
  unfoldable pub audit_batch : String → ℕ → ℕ → Detail → Imports → Imports
  audit_batch action actor pk after s = record s {
    audit =
        record_event x.context action (some actor)
          (some (record { class_name = "ImportBatch"; key = pk })) [] after "" s.audit;
  }

  abbrev rejected_batch : User → String → Bytes → Error → ImportBatch
  rejected_batch actor filename content e = record {
    filename = x.base_name filename;
    content_sha256 = x.digest content;
    staged_content = "";
    status = BatchStatus.rejected;
    error = some e;
    staged_by = actor.pk;
    committed_at = none;
  }

  abbrev pub staged_batch : User → String → String → ImportBatch
  staged_batch actor filename text = record {
    filename = x.base_name filename;
    content_sha256 = x.digest (x.encode text);
    staged_content = text;
    status = BatchStatus.staged;
    error = none;
    staged_by = actor.pk;
    committed_at = none;
  }

  -- `bulk_create` of the changes, with the primary keys from the next one on.
  unfoldable pub changes_of : ℕ → ℕ → List ParsedRow → List ImportChange
  changes_of batch_pk pk [] = []
  changes_of batch_pk pk (row ∷ rows) =
      record {
        pk = pk;
        batch_pk = batch_pk;
        row_number = row.row_number;
        site_code = row.values.site_code;
        action = row.values.action;
        user_id = row.values.user_id;
        payload = row.values;
        selected = true;
        applied = false;
        outcome = "";
      }
      ∷ changes_of batch_pk (suc pk) rows

  unfoldable pub add_batch : ℕ → ImportBatch → List ImportChange → Imports → Imports
  add_batch pk batch changes s = record s {
    batches = s.batches ++ (pk, batch) ∷ [];
    changes = s.changes ++ changes;
  }

  unfoldable pub stage_parsed :
      User → String → Bytes → Result (String × List ParsedRow) → Imports → Result (ℕ × Imports)
  unfolding audit_batch changes_of add_batch
  stage_parsed actor filename content (err e) s =
      let pk = x.fresh_batch s in
      if is_validation e
      then ok (
        pk,
        audit_batch "sap_import.rejected" actor.pk pk []
            (add_batch pk (rejected_batch actor filename content e) [] s),
      )
      else err e
  stage_parsed actor filename content (ok (text, rows)) s =
      let pk = x.fresh_batch s in
      ok (
        pk,
        audit_batch "sap_import.staged" actor.pk pk (("rows", Datum.number (length rows)) ∷ []) (
            add_batch pk (staged_batch actor filename text)
              (changes_of pk (suc (length s.changes)) rows) s),
      )

  unfoldable pub stage_import : User → String → Bytes → Imports → Result (ℕ × Imports)
  unfolding stage_parsed
  stage_import actor filename content s =
      if has_capability actor manage_sap_imports
      then stage_parsed actor filename content (parse_csv x content) s
      else err Error.no_capability
