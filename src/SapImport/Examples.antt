-- ===== src/SapImport/Examples.antt =====
-- The theorems about imports, applied to a file with one user.
use first_brief.Prelude.{
  contains, all, has_text, any, ◌≡◌, refl, List, [], ◌∷◌, String, ℕ, suc, length, some, true, find,
  filter, arith, false,
}
use first_brief.SapImport.Parsing.{
  some_rows, parse_csv, decode_content, parse_text, check_rows, row_ok, groups_known, with_row,
}
use first_brief.SapImport.Staging.Laws.{Previewed, stage_import-Previewed}
use first_brief.SapImport.Committing.Laws.{commit_runs_once, staged_preview_holds}
use first_brief.SapImport.Committing.Users.{commit_touches_selected}
use first_brief.Prelude.Tables.{lookup}
use first_brief.Identity.Access.{has_capability}
use first_brief.SapImport.Committing.{commit_import, named, check_preview}
use first_brief.SapImport.Staging.{stage_import, stage_parsed, staged_batch, add_batch, changes_of}
use first_brief.Errors.{Result, err, ok, Error}
use first_brief.SapImport.Model.{Values, Surroundings, ImportedUser, Imports, CsvRow}
use first_brief.Messaging.Scenarios.{manager}

abbrev ada_row : Values
ada_row = record {
  schema_version = "1";
  action = "upsert";
  user_id = "ada";
  first_name = "Ada";
  last_name = "L";
  email = "ada@example.org";
  site_code = "LHR";
  group_codes = "";
  include_in_reports = "true";
}

abbrev columns : List String
columns =
    "schema_version" ∷ "action" ∷ "user_id" ∷ "first_name" ∷ "last_name" ∷ "email" ∷ "site_code"
    ∷ "group_codes" ∷ "include_in_reports" ∷ []

-- Contents are texts here, and every text is read as the one row.
abbrev desk : Surroundings String
desk = record {
  context = record { now = 1000; correlation_id = "s1" };
  byte_length = λ b. 9;
  has_nul = λ b. false;
  decode = λ b. some b;
  encode = λ t. t;
  digest = λ b. b;
  read_csv = λ t. record {
    fieldnames = some columns;
    rows = CsvRow.cells ada_row ∷ [];
    malformed = false;
  };
  strip = λ s. s;
  lower = λ s. s;
  split_codes = λ s. [];
  base_name = λ s. s;
  site_exists = λ s. true;
  site_is_active = λ s. true;
  group_is_active = λ s g. true;
  group_of_site = λ s g. true;
  fresh_batch = λ s. suc (length s.batches);
}

abbrev bob : ImportedUser
bob = record {
  username = "bob";
  first_name = "Bob";
  last_name = "M";
  email = "bob@example.org";
  site_code = "LHR";
  include_in_reports = true;
  imported_from_sap = true;
  is_active = true;
  local_auth_enabled = false;
  message_groups = [];
}

abbrev at_start : Imports
at_start = record { batches = []; changes = []; users = bob ∷ []; records = []; audit = [] }

abbrev staging : Result (ℕ × Imports)
staging = stage_import desk manager "users.csv" "the file" at_start

abbrev staged : Imports
staged = elim staging [ err e ↦ at_start | ok (pk, s) ↦ s ]

staging_runs : staging ≡ ok (1, staged)
unfolding stage_import has_capability stage_parsed parse_csv decode_content parse_text check_rows
    row_ok groups_known with_row some_rows add_batch changes_of has_text all filter
staging_runs = refl

abbrev committing : Result Imports
committing = commit_import desk manager 1 (1 ∷ []) staged

abbrev after_commit : Imports
after_commit = elim committing [ err e ↦ staged | ok s ↦ s ]

committing_runs : committing ≡ ok after_commit
unfolding commit_import has_capability lookup stage_import parse_csv has_text all filter any
    contains
committing_runs = refl

stage_import-Previewed_example : Previewed at_start staged
stage_import-Previewed_example =
    stage_import-Previewed desk manager "users.csv" "the file" at_start staging_runs

commit_runs_once_example : commit_import desk manager 1 (1 ∷ []) after_commit ≡ err Error.not_staged
unfolding has_capability
commit_runs_once_example =
    commit_runs_once desk manager manager 1 (1 ∷ []) (1 ∷ []) staged refl committing_runs

staged_preview_holds_example :
    (lookup 1 staged.batches ≡ some (staged_batch desk manager "users.csv" "the file"))
    × (check_preview desk 1 (staged_batch desk manager "users.csv" "the file") staged ≡ ok tt)
unfolding lookup parse_csv has_text all filter
staged_preview_holds_example =
    staged_preview_holds desk manager "users.csv" "the file" "the file"
      (record { row_number = 2; values = ada_row } ∷ []) at_start refl refl (ground arith) refl refl
      tt staging_runs

commit_touches_selected_example :
    find (named "bob") after_commit.users ≡ find (named "bob") staged.users
unfolding filter stage_import has_capability parse_csv has_text all contains
commit_touches_selected_example =
    commit_touches_selected desk "bob" manager 1 (1 ∷ []) staged (refl, tt) committing_runs
