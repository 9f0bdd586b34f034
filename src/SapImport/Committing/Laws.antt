-- ===== src/SapImport/Committing/Laws.antt =====
-- A staged import passes its check, and a commit happens once.
use first_brief.Prelude.{
  ℕ, suc, ◌≤◌, true, false, none, some, List, [], ◌∷◌, ◌++◌, String, ◌≡◌, refl, arith, inl, inr,
  Bool-cases, Option-cases, any, all, filter, All, all_mono, filter-append, filter-none, length,
  str_eq_refl,
}
use first_brief.Prelude.Tables.{lookup, lookup-append, lookup-adjust}
use first_brief.Errors.{Error, ok, err, Result-cases}
use first_brief.Identity.Model.{User}
use first_brief.Identity.Access.{has_capability, manage_sap_imports}
use first_brief.SapImport.Model.{
  ParsedRow, ImportBatch, BatchStatus, ImportChange, Imports, Surroundings,
}
use first_brief.SapImport.Parsing.{parse_csv}
use first_brief.SapImport.Staging.{
  staged_batch, changes_of, add_batch, stage_parsed, stage_import, audit_batch,
}
use first_brief.SapImport.Staging.Laws.{parse_csv-encode}
use first_brief.SapImport.Committing.{
  same_rows, change_is, row_is, of_batch, check_preview, apply_changes, commit_locked,
  commit_import, finish_commit, is_selected, in_order, is_staged, write_change, apply_change,
}

module _ {Bytes : Type 0} (x : Surroundings Bytes) where
  changes_of-batch :
      (b k : ℕ) (rows : List ParsedRow)
      → filter (of_batch b) (changes_of x b k rows) ≡ changes_of x b k rows
  unfolding changes_of filter
  changes_of-batch b k [] = refl
  changes_of-batch b k (row ∷ rows) = ground (arith, changes_of-batch b (suc k) rows)

  rows_previewed :
      (b k : ℕ) (rows : List ParsedRow)
      → all (λ r. any (change_is r.row_number r.values.user_id) (changes_of x b k rows)) rows ≡ true
  unfolding changes_of all any
  rows_previewed b k [] = refl
  rows_previewed b k (row ∷ rows) =
      let rest =
        all_mono (λ r. any (change_is r.row_number r.values.user_id) (changes_of x b (suc k) rows))
          (λ r. any (change_is r.row_number r.values.user_id) (changes_of x b k (row ∷ rows)))
          (λ r h. ground (arith, h)) rows (rows_previewed b (suc k) rows) in
      ground (arith, rest, str_eq_refl row.values.user_id)

  changes_parsed :
      (b k : ℕ) (rows : List ParsedRow)
      → all (λ c. any (row_is c.row_number c.user_id) rows) (changes_of x b k rows) ≡ true
  unfolding changes_of all any
  changes_parsed b k [] = refl
  changes_parsed b k (row ∷ rows) =
      let rest =
        all_mono (λ c. any (row_is c.row_number c.user_id) rows)
          (λ c. any (row_is c.row_number c.user_id) (row ∷ rows)) (λ c h. ground (arith, h))
          (changes_of x b (suc k) rows) (changes_parsed b (suc k) rows) in
      ground (arith, rest, str_eq_refl row.values.user_id)

  preview-same_rows :
      (b k : ℕ) (rows : List ParsedRow) (old : List ImportChange)
      → All (λ c. of_batch b c ≡ false) old
      → same_rows rows (filter (of_batch b) (old ++ changes_of x b k rows)) ≡ true
  unfolding same_rows
  preview-same_rows b k rows old others =
      let kept : filter (of_batch b) (old ++ changes_of x b k rows) ≡ changes_of x b k rows =
        rw
          (
            filter-append (of_batch b) old (changes_of x b k rows),
            filter-none (of_batch b) old others,
          )
          (changes_of-batch b k rows) in
      rw kept (ground (arith, rows_previewed b k rows, changes_parsed b k rows))

  -- The parts of a commit that succeeds.
  pub record Committed (actor : User) (pk : ℕ) (ids : List ℕ) (s s' : Imports) : Type 0 where
    pub batch : ImportBatch
    pub applied : Imports
    pub found : lookup pk s.batches ≡ some batch
    pub staged : is_staged x batch.status ≡ true
    pub checked : check_preview x pk batch s ≡ ok tt
    pub ran : apply_changes x pk (in_order (filter (is_selected pk ids) s.changes)) s ≡ ok applied
    pub finished : s' ≡ finish_commit x actor pk ids applied

  commit_locked-parts :
      (actor : User) (pk : ℕ) (ids : List ℕ) (batch : ImportBatch) (s : Imports) {s' : Imports}
      → commit_locked x actor pk ids batch s ≡ ok s'
      → (check_preview x pk batch s ≡ ok tt)
        × (applied : Imports) × (apply_changes x pk
              (in_order (filter (is_selected pk ids) s.changes))
              s
            ≡ ok applied)
        × (s' ≡ finish_commit x actor pk ids applied)
  unfolding commit_locked
  commit_locked-parts actor pk ids batch s done = elim (Result-cases (check_preview x pk batch s)) [
    | inr (e, failed) ↦ ground arith
    | inl (u, checked) ↦
        elim (Result-cases
          (apply_changes x pk (in_order (filter (is_selected pk ids) s.changes)) s)) [
            | inr (e, failed) ↦ ground arith
            | inl (applied, ran) ↦ (checked, applied, ran, ground arith)
          ]
  ]

  pub commit-Committed :
      (actor : User) (pk : ℕ) (ids : List ℕ) (s : Imports) {s' : Imports}
      → commit_import x actor pk ids s ≡ ok s'
      → Committed actor pk ids s s'
  unfolding commit_import
  commit-Committed actor pk ids s {s'} done =
      elim (Bool-cases (has_capability actor manage_sap_imports)) [
        | inr may_not ↦ ground arith
        | inl may ↦ elim (Option-cases (lookup pk s.batches)) [
          | inl missing ↦ ground arith
          | inr (batch, found) ↦ elim (Bool-cases (is_staged x batch.status)) [
            | inr over ↦ ground arith
            | inl staged ↦
                let (checked, applied, ran, finished) =
                  commit_locked-parts actor pk ids batch s {s' = s'} (ground arith) in
                record {
                  batch = batch;
                  applied = applied;
                  found = found;
                  staged = staged;
                  checked = checked;
                  ran = ran;
                  finished = finished;
                }
          ]
        ]
      ]

  apply_changes-batches :
      (pk : ℕ) (cs : List ImportChange) (s : Imports) {s' : Imports}
      → apply_changes x pk cs s ≡ ok s'
      → s'.batches ≡ s.batches
  unfolding apply_changes
  apply_changes-batches pk [] s done = ground arith
  apply_changes-batches pk (c ∷ cs) s {s'} done = elim (Bool-cases (x.site_exists c.site_code)) [
    | inr gone ↦ ground arith
    | inl known ↦
        apply_changes-batches pk cs (write_change x pk c (apply_change x c s.users) s) {s' = s'}
          (ground arith)
  ]

  -- A batch that was committed cannot be committed again: a second commit by anyone with the
  -- capability, of any selection, fails because the batch is no longer staged.
  pub commit_runs_once :
      (actor actor' : User) (pk : ℕ) (ids ids' : List ℕ) (s : Imports) {s' : Imports}
      → has_capability actor' manage_sap_imports ≡ true
      → commit_import x actor pk ids s ≡ ok s'
      → commit_import x actor' pk ids' s' ≡ err Error.not_staged
  unfolding commit_import finish_commit audit_batch
  commit_runs_once actor actor' pk ids ids' s may done =
      let h = commit-Committed actor pk ids s done in
      let kept = apply_changes-batches pk _ s h.ran in
      ground (
        arith,
        h.finished,
        kept,
        h.found,
        lookup-adjust pk pk
            (λ b. record b { status = BatchStatus.committed; committed_at = some x.now }) s.batches,
      )

  stage_parsed-checked :
      (actor : User) (filename text : String) (content : Bytes) (rows : List ParsedRow)
      (s : Imports) {pk : ℕ} {s' : Imports}
      → parse_csv x (x.encode text) ≡ ok (text, rows)
      → lookup (x.fresh_batch s) s.batches ≡ none
      → All (λ c. of_batch (x.fresh_batch s) c ≡ false) s.changes
      → stage_parsed x actor filename content (ok (text, rows)) s ≡ ok (pk, s')
      → (lookup pk s'.batches ≡ some (staged_batch x actor filename text))
        × (check_preview x pk (staged_batch x actor filename text) s' ≡ ok tt)
  unfolding stage_parsed add_batch audit_batch check_preview
  stage_parsed-checked actor filename text content rows s again unused others done = (
    ground (
      arith,
      lookup-append (x.fresh_batch s) (x.fresh_batch s) (staged_batch x actor filename text)
          s.batches,
    ),
    ground (
      arith,
      again,
      str_eq_refl (x.digest (x.encode text)),
      preview-same_rows (x.fresh_batch s) (suc (length s.changes)) rows s.changes others,
    ),
  )

  -- The preview of a file that was staged passes the check before the commit: for a file that
  -- parses, whose text can be encoded and decoded again within the limits, staged under a new key
  -- that no change refers to, the batch is found with its text, and parsing that text again gives
  -- the digest and the rows of the preview.
  pub staged_preview_holds :
      (actor : User) (filename text : String) (content : Bytes) (rows : List ParsedRow)
      (s : Imports) {pk : ℕ} {s' : Imports}
      → parse_csv x content ≡ ok (text, rows)
      → x.decode (x.encode text) ≡ some text
      → x.byte_length (x.encode text) ≤ 2097152
      → x.has_nul (x.encode text) ≡ false
      → lookup (x.fresh_batch s) s.batches ≡ none
      → All (λ c. of_batch (x.fresh_batch s) c ≡ false) s.changes
      → stage_import x actor filename content s ≡ ok (pk, s')
      → (lookup pk s'.batches ≡ some (staged_batch x actor filename text))
        × (check_preview x pk (staged_batch x actor filename text) s' ≡ ok tt)
  unfolding stage_import
  staged_preview_holds actor filename text content rows s {pk} {s'} parsed back short clean unused
        others done =
      let again = parse_csv-encode x content back short clean parsed in
      elim (Bool-cases (has_capability actor manage_sap_imports)) [
        | inr may_not ↦ ground arith
        | inl may ↦
            stage_parsed-checked actor filename text content rows s {pk = pk} {s' = s'} again unused
              others (ground arith)
      ]
