-- ===== src/Reporting/Runs.antt =====
-- `ReportRun` of firstbrief/reporting/models.py, and `build_report`, `serialise_criteria`,
-- `create_report_run`, `execute_queued_report`, `accessible_run` and `safe_csv_value` of
-- firstbrief/reporting/services.py.
pub mod Laws
use first_brief.Prelude.{
  ℕ, ◌+◌, ◌-◌, ◌*◌, ◌/◌, String, Bool, false, not, ◌&&◌, Option, none, some, List, [], ◌∷◌, ◌++◌,
  if◌then◌else◌, ltb, ◌==◌, length, contains,
}
use first_brief.Identity.Access.{has_capability}
use first_brief.Assurance.Model.{AuditEvent, Datum}
use first_brief.Identity.Model.{User}
use first_brief.Assurance.Audit.{Context, record_event}
use first_brief.Prelude.Tables.{Table, adjust, lookup}
use first_brief.Errors.{Error, Result, err, ok}
use Prim.Native.Char.{code}
use Prim.Native.String.{◌++◌ as text_append}

-- A value of the criteria; `other` is one that only `str` can write.
pub data Value : Type 0 where
  day atom other : String → Value
  sequence : List String → Value

abbrev pub CriteriaOf : Type 0
CriteriaOf = List (String × Value)

-- The cells of the rows are texts here.
pub record ReportResult : Type 0 where
  pub columns : List String
  pub rows : List (List String)

pub data RunStatus : Type 0 where
  queued running complete failed : RunStatus

pub record ReportRun : Type 0 where
  pub actor_pk : ℕ
  pub report_code : String
  pub catalogue_version : ℕ
  pub criteria : CriteriaOf
  pub columns : List String
  pub rows : List (List String)
  pub status : RunStatus
  pub row_count : ℕ
  pub error : Option Error
  pub started_at : Option ℕ
  pub completed_at : Option ℕ

-- `tasks` are the runs that were handed to the queue.
pub record Runs : Type 0 where
  pub runs : Table ReportRun
  pub tasks : List ℕ
  pub audit : List AuditEvent

-- `builders` are `REPORT_BUILDERS`, by the codes of the catalogue; `fresh_run` is `uuid4`, and `user_of`
-- reads the actor of a run.
pub record Office : Type 0 where
  pub context : Context
  pub open context use *
  pub catalogue_version : ℕ
  pub builders : String → Option (User → CriteriaOf → Result ReportResult)
  pub fresh_run : Runs → ℕ
  pub user_of : ℕ → User

-- A run that was asked for, and the state, also where an exception leaves it changed.
pub record Ended : Type 0 where
  pub result : Result ℕ
  pub state : Runs

abbrev pub view_reports : String
view_reports = "view-reports"

-- `len(result.rows) > MAX_SNAPSHOT_ROWS`
unfoldable pub limited : Result ReportResult → Result ReportResult
limited (err e) = err e
limited (ok r) = if ltb 10000 (length r.rows) then err Error.too_many_rows else ok r

unfoldable pub build_report : Office → User → String → CriteriaOf → Result ReportResult
unfolding limited
build_report o actor report_code criteria =
    if has_capability actor view_reports
    then elim (o.builders report_code) [
      | none ↦ err Error.unknown_report
      | some build ↦ limited (build actor criteria)
    ]
    else err Error.no_capability

unfoldable pub serialise : Value → Value
serialise (Value.day s) = Value.atom s
serialise (Value.atom s) = Value.atom s
serialise (Value.other s) = Value.atom s
serialise (Value.sequence ss) = Value.sequence ss

unfoldable pub serialise_criteria : CriteriaOf → CriteriaOf
unfolding serialise
serialise_criteria [] = []
serialise_criteria ((key, v) ∷ c) = (key, serialise v) ∷ serialise_criteria c

abbrev pub queued_run : Office → User → String → CriteriaOf → ReportRun
queued_run o actor report_code criteria = record {
  actor_pk = actor.pk;
  report_code = report_code;
  catalogue_version = o.catalogue_version;
  criteria = criteria;
  columns = [];
  rows = [];
  status = RunStatus.queued;
  row_count = 0;
  error = none;
  started_at = none;
  completed_at = none;
}

abbrev pub complete_run : Office → User → String → CriteriaOf → ReportResult → ReportRun
complete_run o actor report_code criteria r = record (queued_run o actor report_code criteria) {
  columns = r.columns;
  rows = r.rows;
  status = RunStatus.complete;
  row_count = length r.rows;
  started_at = some o.now;
  completed_at = some o.now;
}

unfoldable pub audit_report : Office → ℕ → ℕ → ℕ → List AuditEvent → List AuditEvent
audit_report o actor pk rows log =
    record_event o.context "report.generated" (some actor)
      (some (record { class_name = "ReportRun"; key = pk })) [] (("rows", Datum.number rows) ∷ [])
      "" log

abbrev pub add_run : ℕ → ReportRun → Runs → Runs
add_run pk run s = record s { runs = s.runs ++ (pk, run) ∷ [] }

-- The branch of `force_async`, with what `on_commit` does.
abbrev pub queue_run : Office → User → String → CriteriaOf → Runs → Runs
queue_run o actor report_code criteria s =
    let pk = o.fresh_run s in
    record (add_run pk (queued_run o actor report_code criteria) s) { tasks = s.tasks ++ pk ∷ [] }

-- The run of a report that was built.
unfoldable pub store_run :
    Office → User → String → CriteriaOf → Result ReportResult → Runs → Result (ℕ × Runs)
unfolding audit_report serialise_criteria
store_run o actor report_code criteria (err e) s = err e
store_run o actor report_code criteria (ok r) s =
    let pk = o.fresh_run s in
    if ltb 500 (length r.rows)
    then ok (pk, queue_run o actor report_code (serialise_criteria criteria) s)
    else ok (
      pk,
      record (add_run pk (complete_run o actor report_code criteria r) s) {
        audit = audit_report o actor.pk pk (length r.rows) s.audit;
      },
    )

unfoldable pub create_report_run :
    Office → User → String → CriteriaOf → Bool → Runs → Result (ℕ × Runs)
unfolding store_run build_report serialise_criteria
create_report_run o actor report_code criteria force_async s =
    let clean = serialise_criteria criteria in
    if has_capability actor view_reports
    then if force_async
      then ok (o.fresh_run s, queue_run o actor report_code clean s)
      else store_run o actor report_code clean (build_report o actor report_code clean) s
    else err Error.no_capability

abbrev pub start_run : Office → ReportRun → ReportRun
start_run o r = record r { status = RunStatus.running; started_at = some o.now }

abbrev pub fail_run : Office → Error → ReportRun → ReportRun
fail_run o e r = record r { status = RunStatus.failed; error = some e; completed_at = some o.now }

abbrev pub finish_run : Office → ReportResult → ReportRun → ReportRun
finish_run o result r = record r {
  columns = result.columns;
  rows = result.rows;
  row_count = length result.rows;
  status = RunStatus.complete;
  completed_at = some o.now;
}

-- `save` of a run.
abbrev pub save_run : ℕ → (ReportRun → ReportRun) → Runs → Runs
save_run pk f s = record s { runs = adjust pk f s.runs }

-- The end of a run, after the report was built or not.
unfoldable pub end_run : Office → ℕ → ReportRun → Result ReportResult → Runs → Ended
unfolding audit_report
end_run o pk run (err e) s = record { result = err e; state = save_run pk (fail_run o e) s }
end_run o pk run (ok r) s = record {
  result = ok pk;
  state = record (save_run pk (finish_run o r) s) {
    audit = audit_report o run.actor_pk pk (length r.rows) s.audit;
  };
}

-- Not a transaction: an exception leaves what was saved before.
unfoldable pub execute_queued_report : Office → ℕ → ReportRun → Runs → Ended
unfolding end_run build_report
execute_queued_report o pk run s =
    end_run o pk run (build_report o (o.user_of run.actor_pk) run.report_code run.criteria)
      (save_run pk (start_run o) s)

unfoldable pub accessible_run : User → ℕ → Runs → Result ReportRun
accessible_run actor pk s = elim (lookup pk s.runs) [
  | none ↦ err Error.report_unavailable
  | some run ↦
      if not (run.actor_pk == actor.pk) && not actor.is_superuser
      then err Error.report_unavailable
      else if has_capability actor view_reports
      then ok run
      else err Error.no_capability
]

-- The characters `=`, `+`, `-`, `@`, tab and carriage return.
abbrev pub is_formula : String → Bool
is_formula String.[] = false
is_formula (String.◌∷◌ c s) = contains (code c) (61 ∷ 43 ∷ 45 ∷ 64 ∷ 9 ∷ 13 ∷ [])

-- `None` is written as the empty text.
unfoldable pub safe_csv_value : Option String → String
safe_csv_value none = ""
safe_csv_value (some text) = if is_formula text then text_append "'" text else text
