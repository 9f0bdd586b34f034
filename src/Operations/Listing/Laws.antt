-- ===== src/Operations/Listing/Laws.antt =====
-- The two lists of a reader share the messages out.
use first_brief.Store.{Db}
use first_brief.Identity.Model.{User}
use first_brief.Operations.Access.{Desk, Annotated, operational_messages}
use first_brief.Prelude.Sorting.{sort_by, All-sort_by, length-sort_by}
use first_brief.Messaging.Model.{MessageVersion}
use first_brief.Operations.Model.{MessageReceipt}
use first_brief.Operations.Listing.{
  ListRow, message_rows, rows_of, with_version, is_listed, receipt_of, is_cleared, list_row,
  version_in, row_before,
}
use first_brief.Prelude.{
  ℕ, suc, ◌+◌, String, ◌≡◌, refl, inl, inr, Bool, true, false, not, ◌&&◌, some, List, [], ◌∷◌,
  arith, All, length, str_eq, Bool-cases, Option-cases,
}
use first_brief.Errors.{Result, ok, Gives, Result-cases}

-- Which rows belong to which list.
abbrev pub Outstanding : ListRow → Type 0
Outstanding r = (r.mandatory && not r.cleared) ≡ true

abbrev pub Settled : ListRow → Type 0
Settled r = (r.mandatory && not r.cleared) ≡ false

-- Two lists that share out a third.
pub record Split (m o rows : List ListRow) : Type 0 where
  pub outstanding : All Outstanding m
  pub settled : All Settled o
  pub sizes : length m + length o ≡ length rows

module _ (now user : ℕ) (receipts : List MessageReceipt) (versions : List MessageVersion) where
  abbrev rows : String → List Annotated → Result (List ListRow)
  rows list_kind = rows_of now user list_kind receipts versions

  -- The loop, one message further.
  rows-listed :
      (list_kind : String) (a : Annotated) (more : List Annotated) (v : MessageVersion)
      {rs : List ListRow}
      → is_listed list_kind a.audience_mandatory
          (is_cleared (receipt_of user receipts a.message.pk))
        ≡ true
      → version_in versions a.message ≡ some v
      → rows list_kind more ≡ ok rs
      → rows list_kind (a ∷ more)
        ≡ ok (list_row now a (receipt_of user receipts a.message.pk) v ∷ rs)
  unfolding rows_of with_version
  rows-listed list_kind a more v listed found rest = ground arith

  rows-skipped :
      (list_kind : String) (a : Annotated) (more : List Annotated) {rs : List ListRow}
      → is_listed list_kind a.audience_mandatory
          (is_cleared (receipt_of user receipts a.message.pk))
        ≡ false
      → rows list_kind more ≡ ok rs
      → rows list_kind (a ∷ more) ≡ ok rs
  unfolding rows_of with_version
  rows-skipped list_kind a more skipped rest = ground arith

  rows-parts :
      (list_kind : String) (a : Annotated) (more : List Annotated) {rs : List ListRow}
      → is_listed list_kind a.audience_mandatory
          (is_cleared (receipt_of user receipts a.message.pk))
        ≡ true
      → rows list_kind (a ∷ more) ≡ ok rs
      → (v : MessageVersion) × (version_in versions a.message ≡ some v)
        × (rest : List ListRow) × (rows list_kind more ≡ ok rest)
        × (length rs ≡ suc (length rest))
  unfolding rows_of with_version
  rows-parts list_kind a more listed done = elim (Option-cases (version_in versions a.message)) [
    | inl missing ↦ ground arith
    | inr (v, found) ↦ elim (Result-cases (rows list_kind more)) [
      | inr (e, failed) ↦ ground arith
      | inl (rest, ran) ↦ (v, found, rest, ran, ground arith)
    ]
  ]

  rows-Split :
      (every : String) (messages : List Annotated) {rs : List ListRow}
      → str_eq every "mandatory" ≡ false
      → str_eq every "other" ≡ false
      → rows every messages ≡ ok rs
      → (m : List ListRow) × (rows "mandatory" messages ≡ ok m)
        × (o : List ListRow) × (rows "other" messages ≡ ok o)
        × Split m o rs
  unfolding rows_of
  rows-Split every [] {rs} b c done =
      let none_left : rs ≡ [] = ground arith in
      ([], refl, [], refl, record { outstanding = tt; settled = tt; sizes = rw none_left refl })
  rows-Split every (a ∷ more) {rs} b c done =
      let receipt = receipt_of user receipts a.message.pk in
      let (v, found, rest, ran, longer) = rows-parts every a more (ground (arith, b, c)) done in
      let (m, mandatory, o, other, s) = rows-Split every more {rs = rest} b c ran in
      let row = list_row now a receipt v in
      elim (Bool-cases (a.audience_mandatory && not (is_cleared receipt))) [
        | inl open_still ↦ (
          row ∷ m,
          rows-listed "mandatory" a more v (ground arith) found mandatory,
          o,
          rows-skipped "other" a more (ground arith) other,
          record {
            outstanding = (open_still, s.outstanding);
            settled = s.settled;
            sizes = omega (arith, longer, s.sizes);
          },
        )
        | inr over ↦ (
          m,
          rows-skipped "mandatory" a more (ground arith) mandatory,
          row ∷ o,
          rows-listed "other" a more v (ground arith) found other,
          record {
            outstanding = s.outstanding;
            settled = (over, s.settled);
            sizes = omega (arith, longer, s.sizes);
          },
        )
      ]

sorted-Split :
    (before : ListRow → ListRow → Bool) (m o rows : List ListRow)
    → Split m o rows
    → Split (sort_by before m) (sort_by before o) (sort_by before rows)
sorted-Split before m o rows s = record {
  outstanding = All-sort_by before Outstanding m s.outstanding;
  settled = All-sort_by before Settled o s.settled;
  sizes = omega (
    arith,
    s.sizes,
    length-sort_by before m,
    length-sort_by before o,
    length-sort_by before rows,
  );
}

-- Where the list of all messages of a reader can be made, under a kind that is neither mandatory
-- nor other, so can the two lists, in any sort order: the mandatory one holds only mandatory
-- messages that are not cleared, the other one only the rest, and together they have as many rows
-- as the list of all.
pub message_rows-Split :
    (desk : Desk) (user : User) (every sort : String) (receipts : List MessageReceipt) (db : Db)
    {rows : List ListRow}
    → str_eq every "mandatory" ≡ false
    → str_eq every "other" ≡ false
    → message_rows desk user every sort receipts db ≡ ok rows
    → Gives
        (message_rows desk user "mandatory" sort receipts db)
        (λ m. Gives (message_rows desk user "other" sort receipts db) (λ o. Split m o rows))
unfolding message_rows
message_rows-Split desk user every sort receipts db {rows} b c done =
    elim (Result-cases
      (rows_of desk.now user.pk every receipts db.versions (operational_messages desk user db))) [
        | inr (e, failed) ↦ ground arith
        | inl (rs, ran) ↦
            let before = row_before desk sort in
            let (m, mandatory, o, other, s) =
              rows-Split desk.now user.pk receipts db.versions every
                (operational_messages desk user db) {rs = rs} b c ran in
            let same : rows ≡ sort_by before rs = ground arith in
            (
              sort_by before m,
              ground arith,
              (sort_by before o, ground arith, rw same (sorted-Split before m o rs s)),
            )
      ]
