-- ===== src/SapImport/Staging/Laws.antt =====
-- Staging writes a preview that the later check accepts, and nothing else.
use first_brief.Prelude.{
  ℕ, suc, ◌≤◌, Bool, true, false, some, List, [], ◌∷◌, ◌++◌, String, ◌≡◌, refl, arith, inl, inr,
  Bool-cases, All, length, Option-cases,
}
use first_brief.Errors.{Result, ok, err, Result-cases}
use first_brief.Identity.Model.{User}
use first_brief.Identity.Access.{has_capability, manage_sap_imports}
use first_brief.SapImport.Model.{
  ParsedRow, ImportBatch, ImportChange, Imports, Surroundings, CsvRow,
}
use first_brief.SapImport.Parsing.{
  row_ok, check_rows, parse_text, parse_csv, decode_content, with_row, some_rows,
}
use first_brief.SapImport.Staging.{
  staged_batch, changes_of, add_batch, stage_parsed, stage_import, audit_batch, rejected_batch,
}

-- Staging writes no user and no change record, and keeps the batches and changes that are there.
pub record Previewed (s s' : Imports) : Type 0 where
  pub users : s'.users ≡ s.users
  pub records : s'.records ≡ s.records
  pub batches : (batch : List (ℕ × ImportBatch)) × (s'.batches ≡ s.batches ++ batch)
  pub changes : (change : List ImportChange) × (s'.changes ≡ s.changes ++ change)

module _ {Bytes : Type 0} (x : Surroundings Bytes) where
  stage_parsed-Previewed :
      (actor : User) (filename : String) (content : Bytes) (r : Result (String × List ParsedRow))
      (s : Imports) {pk : ℕ} {s' : Imports}
      → stage_parsed x actor filename content r s ≡ ok (pk, s')
      → Previewed s s'
  unfolding stage_parsed add_batch audit_batch
  stage_parsed-Previewed actor filename content (err e) s done = record {
    users = ground arith;
    records = ground arith;
    batches = ((x.fresh_batch s, rejected_batch x actor filename content e) ∷ [], ground arith);
    changes = ([], ground arith);
  }
  stage_parsed-Previewed actor filename content (ok (text, rows)) s done = record {
    users = ground arith;
    records = ground arith;
    batches = ((x.fresh_batch s, staged_batch x actor filename text) ∷ [], ground arith);
    changes = (changes_of x (x.fresh_batch s) (suc (length s.changes)) rows, ground arith);
  }

  -- Staging a file, whether it is accepted or recorded as rejected, writes no user and no change
  -- record, and keeps the batches and changes that are there in front of the new ones.
  pub stage_import-Previewed :
      (actor : User) (filename : String) (content : Bytes) (s : Imports) {pk : ℕ} {s' : Imports}
      → stage_import x actor filename content s ≡ ok (pk, s')
      → Previewed s s'
  unfolding stage_import
  stage_import-Previewed actor filename content s {pk} {s'} done =
      elim (Bool-cases (has_capability actor manage_sap_imports)) [
        | inl may ↦
            stage_parsed-Previewed actor filename content (parse_csv x content) s {pk = pk}
              {s' = s'} (ground arith)
        | inr may_not ↦ ground arith
      ]

  with_row-ok :
      (b : Bool) (row : ParsedRow) (checked : Result (List ParsedRow)) {rows : List ParsedRow}
      → with_row x b row checked ≡ ok rows
      → (b ≡ true) × (rest : List ParsedRow) × (checked ≡ ok rest) × (rows ≡ row ∷ rest)
  unfolding with_row
  with_row-ok true row (ok rest) done = (refl, rest, refl, ground arith)
  with_row-ok true row (err e) done = ground arith
  with_row-ok false row checked done = ground arith

  -- Whether a row names an active site.
  abbrev pub Active : ParsedRow → Type 0
  Active r = x.site_is_active r.values.site_code ≡ true

  pub check_rows-Active :
      (n : ℕ) (seen : List String) (raws : List CsvRow) {rows : List ParsedRow}
      → check_rows x n seen raws ≡ ok rows
      → All Active rows
  unfolding check_rows row_ok
  check_rows-Active n seen [] {rows} done = let e : rows ≡ [] = ground arith in rw e tt
  check_rows-Active n seen (CsvRow.overlong ∷ raws) done = ground arith
  check_rows-Active n seen (CsvRow.cells raw ∷ raws) {rows} done =
      let (fine, rest, checked, same) = with_row-ok _ _ _ done in
      rw same (ground (arith, fine), check_rows-Active (suc n) _ raws checked)

  pub parse_text-rows :
      (text : String) {rows : List ParsedRow}
      → parse_text x (x.read_csv text) ≡ ok rows
      → check_rows x 2 [] (x.read_csv text).rows ≡ ok rows
  unfolding parse_text some_rows
  parse_text-rows text done = elim (Result-cases (check_rows x 2 [] (x.read_csv text).rows)) [
    | inl ([], checked) ↦ ground arith
    | inl (row ∷ rows, checked) ↦ ground arith
    | inr (e, failed) ↦ ground arith
  ]

  -- What a file that parses consists of.
  pub parse_csv-parts :
      (content : Bytes) {text : String} {rows : List ParsedRow}
      → parse_csv x content ≡ ok (text, rows)
      → (x.decode content ≡ some text) × (parse_text x (x.read_csv text) ≡ ok rows)
  unfolding parse_csv decode_content
  parse_csv-parts content done = elim (Option-cases (x.decode content)) [
    | inl unreadable ↦ ground arith
    | inr (t, decoded) ↦ elim (Result-cases (parse_text x (x.read_csv t))) [
      | inl (rs, parsed) ↦ ground arith
      | inr (e, failed) ↦ ground arith
    ]
  ]

  -- The text of a file that parses can be written out and parsed again.
  pub parse_csv-encode :
      (content : Bytes) {text : String} {rows : List ParsedRow}
      → x.decode (x.encode text) ≡ some text
      → x.byte_length (x.encode text) ≤ 2097152
      → x.has_nul (x.encode text) ≡ false
      → parse_csv x content ≡ ok (text, rows)
      → parse_csv x (x.encode text) ≡ ok (text, rows)
  unfolding parse_csv decode_content
  parse_csv-encode content back short clean done =
      let (decoded, parsed) = parse_csv-parts content done in
      ground (arith, back, short, clean, parsed)
