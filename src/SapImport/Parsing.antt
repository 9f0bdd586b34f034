-- ===== src/SapImport/Parsing.antt =====
-- `_decode` and `parse_csv` of firstbrief/sapimport/services.py.
use first_brief.Prelude.{
  ℕ, suc, Bool, true, false, ◌&&◌, ◌||◌, not, none, some, List, [], ◌∷◌, String, ltb, if◌then◌else◌,
  str_eq, has_text, filter, all,
}
use first_brief.Errors.{Error, Result, ok, err}
use first_brief.SapImport.Model.{Values, ParsedRow, Csv, Surroundings, CsvRow}

module _ {Bytes : Type 0} (x : Surroundings Bytes) where
  -- `_decode`; `decode("utf-8-sig")` is `none` for an error
  unfoldable pub decode_content : Bytes → Result String
  decode_content content =
      if ltb 2097152 (x.byte_length content)
      then err Error.file_too_large
      else if x.has_nul content
      then err Error.binary_content
      else elim (x.decode content) [ none ↦ err Error.not_utf8 | some text ↦ ok text ]

  abbrev pub stripped : Values → Values
  stripped v = record {
    schema_version = x.strip v.schema_version;
    action = x.strip v.action;
    user_id = x.strip v.user_id;
    first_name = x.strip v.first_name;
    last_name = x.strip v.last_name;
    email = x.strip v.email;
    site_code = x.strip v.site_code;
    group_codes = x.strip v.group_codes;
    include_in_reports = x.strip v.include_in_reports;
  }

  -- `[code for code in group_codes.split("|") if code]`
  abbrev pub codes_of : Values → List String
  codes_of v = filter (λ code. not (str_eq code "")) (x.split_codes v.group_codes)

  -- Every code is that of an active group of the site: as many groups as distinct codes.
  unfoldable pub groups_known : Values → Bool
  groups_known v = all (x.group_is_active v.site_code) (codes_of v)

  abbrev is_flag : String → Bool
  is_flag s = has_text (x.lower s) ("true" ∷ "false" ∷ "1" ∷ "0" ∷ [])

  -- The checks of one row, with the user IDs that were seen before it.
  unfoldable pub row_ok : List String → Values → Bool
  unfolding groups_known
  row_ok seen v =
      str_eq v.schema_version "1"
      && has_text v.action ("upsert" ∷ "deactivate" ∷ [])
      && not (str_eq v.user_id "" || has_text v.user_id seen)
      && x.site_is_active v.site_code
      && groups_known v
      && is_flag v.include_in_reports

  -- A row that was checked, in front of the rest.
  unfoldable pub with_row : Bool → ParsedRow → Result (List ParsedRow) → Result (List ParsedRow)
  with_row true row (ok rows) = ok (row ∷ rows)
  with_row true row (err e) = err e
  with_row false row checked = err Error.row_error

  -- The loop over the rows.
  unfoldable pub check_rows : ℕ → List String → List CsvRow → Result (List ParsedRow)
  unfolding row_ok with_row
  check_rows number seen [] = ok []
  check_rows number seen (CsvRow.overlong ∷ rest) = err Error.attribute_error
  check_rows number seen (CsvRow.cells raw ∷ rest) =
      let v = stripped raw in
      with_row (row_ok seen v) (record { row_number = number; values = v })
        (check_rows (suc number) (v.user_id ∷ seen) rest)

  fields : List String
  fields =
      "schema_version" ∷ "action" ∷ "user_id" ∷ "first_name" ∷ "last_name" ∷ "email" ∷ "site_code"
      ∷ "group_codes" ∷ "include_in_reports" ∷ []

  texts_eq : List String → List String → Bool
  texts_eq [] [] = true
  texts_eq (s ∷ ss) (t ∷ ts) = str_eq s t && texts_eq ss ts
  texts_eq _ _ = false

  unfoldable pub some_rows : Bool → List ParsedRow → Result (List ParsedRow)
  some_rows true rows = err Error.malformed_csv
  some_rows false [] = err Error.no_data_rows
  some_rows false (row ∷ rows) = ok (row ∷ rows)

  -- The columns are read outside the `try`, so a malformed first line raises `csv.Error` itself.
  unfoldable pub parse_text : Csv → Result (List ParsedRow)
  unfolding check_rows fields texts_eq some_rows
  parse_text csv = elim csv.fieldnames [
    | none ↦ err Error.malformed_header
    | some names ↦
        if texts_eq names fields
        then elim (check_rows 2 [] csv.rows) [
          | err e ↦ err e
          | ok rows ↦ some_rows csv.malformed rows
        ]
        else err Error.wrong_columns
  ]

  unfoldable pub parse_csv : Bytes → Result (String × List ParsedRow)
  unfolding decode_content parse_text
  parse_csv content = elim (decode_content content) [
    | err e ↦ err e
    | ok text ↦ elim (parse_text (x.read_csv text)) [ err e ↦ err e | ok rows ↦ ok (text, rows) ]
  ]
