-- ===== src/Operations/Listing.antt =====
-- `message_rows`, `adjacent_mandatory_messages`, `related_messages` and `version_change_summary` of
-- firstbrief/operations/services.py.
pub mod Laws
use first_brief.Prelude.{
  ℕ, zero, suc, ◌+◌, ◌-◌, ◌/◌, ◌<◌, min, String, Bool, true, false, not, ◌&&◌, ◌||◌, Option, none,
  some, List, [], ◌∷◌, ◌++◌, if◌then◌else◌, ltb, leb, ◌==◌, filter, find, length, take, str_eq,
  is_some, or_else, some_and, opt_eq,
}
use Prim.Native.Nat.{Ordering}
use Prim.Native.String.{compare}
use first_brief.Prelude.Sorting.{sort_by}
use first_brief.Identity.Model.{User}
use first_brief.Store.{is_version, Db}
use first_brief.Errors.{Result, err, ok, Error}
use first_brief.Operations.Reading.{is_receipt}
use first_brief.Operations.Access.{Annotated, Desk, operational_messages}
use first_brief.Operations.Model.{MessageReceipt}
use first_brief.Messaging.Model.{Message, MessageVersion, status_eq, FileAsset, Status}

-- `MessageRow` of the source, with the current version of its message.
pub record ListRow : Type 0 where
  pub message : Message
  pub version : MessageVersion
  pub mandatory : Bool
  pub unread : Bool
  pub cleared : Bool
  pub forthcoming : Bool
  pub overdue : Bool
  pub printed_at : Option ℕ
  pub emailed_at : Option ℕ
  pub effective_at : ℕ

-- `receipts.get(message.pk)`
abbrev pub receipt_of : ℕ → List MessageReceipt → ℕ → Option MessageReceipt
receipt_of user receipts pk = find (is_receipt user pk) receipts

abbrev pub is_cleared : Option MessageReceipt → Bool
is_cleared receipt = some_and receipt (λ r. is_some r.cleared_at)

abbrev pub is_unread : Option MessageReceipt → Bool
is_unread receipt = not (some_and receipt (λ r. is_some r.first_read_at))

-- `receipt.printed_at if receipt else None`
abbrev pub time_of : Option MessageReceipt → (MessageReceipt → Option ℕ) → Option ℕ
time_of none time = none
time_of (some r) time = time r

abbrev pub starts_at : MessageVersion → ℕ
starts_at version = or_else version.effective_at version.release_at

-- The rows that the two `continue`s leave.
abbrev pub is_listed : String → Bool → Bool → Bool
is_listed list_kind mandatory cleared =
    not (str_eq list_kind "mandatory" && (not mandatory || cleared))
    && not (str_eq list_kind "other" && mandatory && not cleared)

abbrev pub list_row : ℕ → Annotated → Option MessageReceipt → MessageVersion → ListRow
list_row now a receipt version = record {
  message = a.message;
  version = version;
  mandatory = a.audience_mandatory;
  unread = is_unread receipt;
  cleared = is_cleared receipt;
  forthcoming = status_eq a.message.status Status.released_pending_effective;
  overdue = a.audience_mandatory && is_unread receipt && leb (starts_at version) now;
  printed_at = time_of receipt (λ r. r.printed_at);
  emailed_at = time_of receipt (λ r. r.emailed_at);
  effective_at = starts_at version;
}

-- A row in front of the others, or the exception of `current_version`.
unfoldable pub with_version :
    Option MessageVersion
    → (MessageVersion → ListRow)
    → Result (List ListRow)
    → Result (List ListRow)
with_version none row rest = err Error.does_not_exist
with_version (some v) row (ok rows) = ok (row v ∷ rows)
with_version (some v) row (err e) = err e

abbrev pub version_in : List MessageVersion → Message → Option MessageVersion
version_in versions m = find (is_version m.pk m.current_version_number) versions

-- The loop.
unfoldable pub rows_of :
    ℕ
    → ℕ
    → String
    → List MessageReceipt
    → List MessageVersion
    → List Annotated
    → Result (List ListRow)
unfolding with_version
rows_of now user list_kind receipts versions [] = ok []
rows_of now user list_kind receipts versions (a ∷ more) =
    let rest = rows_of now user list_kind receipts versions more in
    let receipt = receipt_of user receipts a.message.pk in
    if is_listed list_kind a.audience_mandatory (is_cleared receipt)
    then with_version (version_in versions a.message) (list_row now a receipt) rest
    else rest

-- `row.printed_at or datetime.min`
abbrev time_before : Option ℕ → Option ℕ → Bool
time_before none t = true
time_before (some s) none = false
time_before (some s) (some t) = leb s t

-- `not b < a` for two texts
abbrev text_at_most : String → String → Bool
text_at_most a b = elim (compare a b) [ Ordering.gt ↦ false | _ ↦ true ]

-- The sorters.
unfoldable pub row_before : Desk → String → ListRow → ListRow → Bool
row_before desk sort a b =
    if str_eq sort "message"
    then text_at_most (desk.casefold a.message.message_id) (desk.casefold b.message.message_id)
    else if str_eq sort "expires"
    then leb a.version.expiry_at b.version.expiry_at
    else if str_eq sort "printed"
    then time_before a.printed_at b.printed_at
    else if str_eq sort "emailed"
    then time_before a.emailed_at b.emailed_at
    else leb a.effective_at b.effective_at

-- `list(operational_messages(user))`, in the order of the table.
unfoldable pub message_rows :
    Desk → User → String → String → List MessageReceipt → Db → Result (List ListRow)
unfolding row_before rows_of
message_rows desk user list_kind sort receipts db =
    elim (rows_of desk.now user.pk list_kind receipts db.versions
      (operational_messages desk user db)) [
        | err e ↦ err e
        | ok rows ↦ ok (sort_by (row_before desk sort) rows)
      ]

-- `ids.index(pk)`
unfoldable pub index_of : ℕ → List ListRow → Option ℕ
index_of pk [] = none
index_of pk (r ∷ rs) =
    let rest = index_of pk rs in
    if r.message.pk == pk then some 0 else elim rest [ none ↦ none | some i ↦ some (suc i) ]

unfoldable pub get_elem? : List ListRow → ℕ → Option Message
get_elem? [] i = none
get_elem? (r ∷ rs) zero = some r.message
get_elem? (r ∷ rs) (suc i) = get_elem? rs i

abbrev pub previous_of : List ListRow → ℕ → Option Message
previous_of rows zero = none
previous_of rows (suc i) = get_elem? rows i

unfoldable pub neighbours : ℕ → List ListRow → Option Message × Option Message
unfolding index_of get_elem?
neighbours pk rows = elim (index_of pk rows) [
  | none ↦ (none, none)
  | some i ↦ (previous_of rows i, get_elem? rows (suc i))
]

unfoldable pub adjacent_mandatory_messages :
    Desk → User → Message → List MessageReceipt → Db → Result (Option Message × Option Message)
unfolding neighbours
adjacent_mandatory_messages desk user message receipts db =
    elim (message_rows desk user "mandatory" "effective" receipts db) [
      | err e ↦ err e
      | ok rows ↦ ok (neighbours message.pk rows)
    ]

-- `order_by("-updated_at", "message_id", "pk")`
abbrev related_before : Desk → Annotated → Annotated → Bool
related_before desk a b =
    let m = a.message in
    let n = b.message in
    ltb n.updated_at m.updated_at
    || (n.updated_at == m.updated_at
        && (desk.text_before m.message_id n.message_id
            || (str_eq m.message_id n.message_id && leb m.pk n.pk)))

abbrev is_related : Message → Annotated → Bool
is_related message a =
    not (a.message.pk == message.pk)
    && (if is_some message.subtype_id
        then opt_eq a.message.subtype_id message.subtype_id
        else a.message.message_type_id == message.message_type_id)

unfoldable pub related_messages : Desk → User → Message → Db → List Annotated
related_messages desk user message db = take 5 (
    sort_by (related_before desk) (filter (is_related message) (operational_messages desk user db)))

abbrev pub files_of : Message → ℕ → List FileAsset → ℕ
files_of m number files =
    length (filter (λ f. f.message_pk == m.pk && f.version_number == number) files)

abbrev changed_if : Bool → String → List String
changed_if same text = if same then [] else text ∷ []

-- The fields in which two versions differ, and the number of their files.
unfoldable pub changes_between :
    Message → MessageVersion → MessageVersion → List FileAsset → List String
changes_between m previous current files =
    changed_if (str_eq current.title previous.title) "Title changed."
    ++ (changed_if (str_eq current.summary previous.summary) "Summary changed."
        ++ (changed_if (str_eq current.text_content previous.text_content) "Text content changed."
            ++ (changed_if (current.release_at == previous.release_at) "Release time changed."
                ++ (changed_if (opt_eq current.effective_at previous.effective_at)
                      "Effective time changed."
                    ++ (changed_if (current.expiry_at == previous.expiry_at) "Expiry time changed."
                        ++ changed_if
                            (files_of m current.version_number files
                              == files_of m previous.version_number files)
                            "Protected PDF attachments changed.")))))

unfoldable pub version_change_summary : Message → Db → List String
unfolding changes_between
version_change_summary m db =
    if leb m.current_version_number 1
    then []
    else elim (find (is_version m.pk m.current_version_number) db.versions) [
      | none ↦ []
      | some current ↦ elim (find (is_version m.pk (m.current_version_number - 1)) db.versions) [
        | none ↦ []
        | some previous ↦ changes_between m previous current db.files
      ]
    ]
