-- ===== src/SapImport/Committing.antt =====
-- `commit_import` of firstbrief/sapimport/services.py.
pub mod Laws
pub mod Users
use Prim.Native.Nat.{Ordering}
use Prim.Native.String.{compare}
use first_brief.Prelude.{
  ℕ, ◌+◌, Bool, true, false, ◌&&◌, not, none, some, List, [], ◌∷◌, ◌++◌, String, leb, ◌==◌,
  if◌then◌else◌, str_eq, has_text, contains, filter, any, all, update_where, length,
}
use first_brief.Prelude.Tables.{lookup, adjust}
use first_brief.Errors.{Error, Result, ok, err}
use first_brief.Assurance.Model.{Datum}
use first_brief.Identity.Model.{User}
use first_brief.Identity.Access.{has_capability, manage_sap_imports}
use first_brief.SapImport.Model.{
  Values, ParsedRow, BatchStatus, ImportBatch, ImportChange, ImportedUser, ImportChangeRecord,
  Imports, Surroundings,
}
use first_brief.SapImport.Parsing.{parse_csv, codes_of}
use first_brief.SapImport.Staging.{audit_batch}

-- Membership of a pair of row number and user ID, in the file and in the preview.
abbrev pub row_is : ℕ → String → ParsedRow → Bool
row_is number user_id r = r.row_number == number && str_eq r.values.user_id user_id

abbrev pub change_is : ℕ → String → ImportChange → Bool
change_is number user_id c = c.row_number == number && str_eq c.user_id user_id

-- `expected == actual`
unfoldable pub same_rows : List ParsedRow → List ImportChange → Bool
same_rows rows changes =
    all (λ r. any (change_is r.row_number r.values.user_id) changes) rows
    && all (λ c. any (row_is c.row_number c.user_id) rows) changes

-- `Meta.ordering` of the changes: by site code and row number.
precedes : ImportChange → ImportChange → Bool
precedes a b = elim (compare a.site_code b.site_code) [
  | Ordering.lt ↦ true
  | Ordering.gt ↦ false
  | Ordering.eq ↦ leb a.row_number b.row_number
]

insert_change : ImportChange → List ImportChange → List ImportChange
unfolding precedes
insert_change c [] = c ∷ []
insert_change c (d ∷ ds) =
    let rest = insert_change c ds in if precedes c d then c ∷ d ∷ ds else d ∷ rest

unfoldable pub in_order : List ImportChange → List ImportChange
unfolding insert_change
in_order [] = []
in_order (c ∷ cs) = insert_change c (in_order cs)

abbrev pub of_batch : ℕ → ImportChange → Bool
of_batch pk c = c.batch_pk == pk

abbrev pub is_selected : ℕ → List ℕ → ImportChange → Bool
is_selected batch_pk ids c = c.batch_pk == batch_pk && contains c.pk ids

abbrev pub named : String → ImportedUser → Bool
named username u = str_eq u.username username

module _ {Bytes : Type 0} (x : Surroundings Bytes) where
  -- The check of the staged content against its preview.
  unfoldable pub check_preview : ℕ → ImportBatch → Imports → Result (Unit {0})
  unfolding same_rows
  check_preview pk batch s = elim (parse_csv x (x.encode batch.staged_content)) [
    | err e ↦ err e
    | ok (text, rows) ↦
        if str_eq (x.digest (x.encode batch.staged_content)) batch.content_sha256
          && same_rows rows (filter (of_batch pk) s.changes)
        then ok tt
        else err Error.preview_mismatch
  ]

  abbrev in_reports : Values → Bool
  in_reports v = has_text (x.lower v.include_in_reports) ("true" ∷ "1" ∷ [])

  abbrev pub upserted : ImportChange → ImportedUser
  upserted c = record {
    username = c.user_id;
    first_name = c.payload.first_name;
    last_name = c.payload.last_name;
    email = c.payload.email;
    site_code = c.site_code;
    include_in_reports = in_reports c.payload;
    imported_from_sap = true;
    is_active = true;
    local_auth_enabled = false;
    message_groups = filter (x.group_of_site c.site_code) (codes_of x c.payload);
  }

  -- The users after a change, whether it was applied, and its outcome.
  unfoldable pub apply_change : ImportChange → List ImportedUser → List ImportedUser × Bool × String
  apply_change c users =
      if str_eq c.action "deactivate"
      then (if any (named c.user_id) users
          then (
            update_where (named c.user_id) (λ u. record u { is_active = false }) users,
            true,
            "User deactivated",
          )
          else (users, c.applied, "No existing user; no change"))
      else if any (named c.user_id) users
      then (update_where (named c.user_id) (λ _. upserted c) users, true, "User updated")
      else (users ++ upserted c ∷ [], true, "User created")

  abbrev record_of : ℕ → ImportChange → String → ImportChangeRecord
  record_of batch_pk c outcome = record {
    batch_reference = batch_pk;
    site_code = c.site_code;
    change_type = c.action;
    object_type = "identity.user";
    object_id = c.user_id;
    summary = outcome;
    occurred_at = x.now;
  }

  abbrev write_change : ℕ → ImportChange → List ImportedUser × Bool × String → Imports → Imports
  write_change batch_pk c (users, applied, outcome) s = record s {
    users = users;
    changes =
        update_where (λ d. d.pk == c.pk)
          (λ d. record d { selected = true; applied = applied; outcome = outcome }) s.changes;
    records = s.records ++ record_of batch_pk c outcome ∷ [];
  }

  -- The loop; `Site.objects.get` raises for a site that is gone.
  unfoldable pub apply_changes : ℕ → List ImportChange → Imports → Result Imports
  unfolding apply_change
  apply_changes batch_pk [] s = ok s
  apply_changes batch_pk (c ∷ cs) s = elim (x.site_exists c.site_code) [
    | true ↦ apply_changes batch_pk cs (write_change batch_pk c (apply_change c s.users) s)
    | false ↦ err Error.does_not_exist
  ]

  -- The end of the transaction.
  unfoldable pub finish_commit : User → ℕ → List ℕ → Imports → Imports
  unfolding audit_batch
  finish_commit actor pk ids s =
      audit_batch x "sap_import.committed" actor.pk pk
        (("selected", Datum.number (length ids))
          ∷ (
            "applied",
            Datum.number (length (filter (λ c. is_selected pk ids c && c.applied) s.changes)),
          )
          ∷ [])
        (record s {
          changes =
              update_where (λ c. of_batch pk c && not (contains c.pk ids))
                (λ c. record c { selected = false }) s.changes;
          batches =
              adjust pk
                (λ b. record b { status = BatchStatus.committed; committed_at = some x.now })
                s.batches;
        })

  unfoldable pub commit_locked : User → ℕ → List ℕ → ImportBatch → Imports → Result Imports
  unfolding check_preview apply_changes finish_commit in_order
  commit_locked actor pk ids batch s = elim (check_preview pk batch s) [
    | err e ↦ err e
    | ok u ↦ elim (apply_changes pk (in_order (filter (is_selected pk ids) s.changes)) s) [
      | err e ↦ err e
      | ok s' ↦ ok (finish_commit actor pk ids s')
    ]
  ]

  abbrev pub is_staged : BatchStatus → Bool
  is_staged BatchStatus.staged = true
  is_staged BatchStatus.rejected = false
  is_staged BatchStatus.committed = false

  unfoldable pub commit_import : User → ℕ → List ℕ → Imports → Result Imports
  unfolding commit_locked
  commit_import actor pk ids s =
      if has_capability actor manage_sap_imports
      then elim (lookup pk s.batches) [
        | none ↦ err Error.does_not_exist
        | some batch ↦
            if is_staged batch.status
            then commit_locked actor pk ids batch s
            else err Error.not_staged
      ]
      else err Error.no_capability
