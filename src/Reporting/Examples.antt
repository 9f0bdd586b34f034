-- ===== src/Reporting/Examples.antt =====
-- The invariant of report runs, applied to one run that is created.
use first_brief.Errors.{ok}
use first_brief.Reporting.Runs.{Office, Runs, safe_csv_value}
use first_brief.Prelude.{◌≡◌, refl, false, some, [], ◌∷◌, length, contains}
use first_brief.Messaging.Scenarios.{desk, manager}
use first_brief.Reporting.Runs.Laws.{Task, AllTruthful, after, after-AllTruthful}

abbrev press : Office
press = record {
  context = desk.context;
  catalogue_version = 1;
  builders = λ report_code. some (λ actor c. ok (record { columns = []; rows = [] ∷ [] }));
  fresh_run = λ s. length s.runs;
  user_of = λ pk. manager;
}

abbrev no_runs : Runs
no_runs = record { runs = []; tasks = []; audit = [] }

after-AllTruthful_example : AllTruthful (after press (Task.create manager "F06" [] false) no_runs)
after-AllTruthful_example = after-AllTruthful press (Task.create manager "F06" [] false) no_runs tt

-- A test: a cell that would be a formula is quoted.
quoted : safe_csv_value (some "=1+1") ≡ "'=1+1"
unfolding safe_csv_value contains
quoted = refl
