-- ===== src/Retrieval/Search.antt =====
-- The search of firstbrief/retrieval/services.py: `_published_messages`, `search_messages`,
-- `search_message`, `rows_for`, `maintenance_rows` and the suggestions.
pub mod Laws
use first_brief.Errors.{Result, err, ok, Error}
use first_brief.Prelude.Sorting.{sort_by}
use first_brief.Retrieval.Maintenance.{Action, permitted_maintenance_actions}
use first_brief.Operations.Dashboard.Attention.{kind_eq}
use first_brief.Operations.Listing.{is_unread, version_in, is_cleared, receipt_of}
use first_brief.Identity.Model.{User}
use first_brief.Store.{Env, Db, Tx}
use first_brief.Operations.Model.{MessageReceipt}
use first_brief.Operations.Access.{Annotated, Desk, accessible_messages, is_message}
use first_brief.Messaging.Model.{
  Kind, MessageAudienceRight, MessageVersion, Message, Status, is_in, status_eq,
}
use first_brief.Prelude.{
  ℕ, ◌-◌, ◌/◌, String, Bool, true, not, ◌&&◌, ◌||◌, Option, none, some, List, [], ◌∷◌,
  if◌then◌else◌, ltb, leb, ◌==◌, any, filter, find, All, take, str_eq, is_some, some_and, opt_eq,
  has_text, text_length,
}

-- The validated criteria; a text that is empty, and a missing choice, filters nothing. Dates stand for
-- the instants that `_day_start` and `_day_end` make of them.
pub record Criteria : Type 0 where
  pub message_id : String
  pub kind : Option Kind
  pub status : Option Status
  pub title : String
  pub summary : String
  pub content : String
  pub group : Option ℕ
  pub subtype : Option ℕ
  pub read_status : String
  pub release_from : Option ℕ
  pub release_to : Option ℕ
  pub effective_from : Option ℕ
  pub effective_to : Option ℕ
  pub expiry_from : Option ℕ
  pub expiry_to : Option ℕ
  pub include_archived : Bool
  pub include_future : Bool
  pub sort : String
  pub direction : String

-- `icontains` of the database; it is a parameter.
abbrev pub Contains : Type 0
Contains = String → String → Bool

-- `_published_messages`
abbrev pub is_published : Annotated → Bool
is_published a =
    is_in a.message.status
      (Status.released_pending_effective ∷ Status.effective ∷ Status.expired ∷ Status.archived ∷ [])

unfoldable pub published_messages : Desk → User → Db → List Annotated
published_messages desk actor db = filter is_published (accessible_messages desk.env actor db)

-- A text criterion.
abbrev pub matches : Contains → String → String → Bool
matches icontains value column = str_eq value "" || icontains column value

abbrev pub chosen : {A : Type 0} → Option A → (A → Bool) → Bool
chosen none test = true
chosen (some a) test = test a

-- Bounds of a time that may be missing, where a bound leaves out missing times.
abbrev pub within : Option ℕ → Option ℕ → Option ℕ → Bool
within from to time =
    chosen from (λ t. some_and time (λ u. leb t u)) && chosen to (λ t. some_and time (λ u. leb u t))

abbrev pub read_as : String → Option MessageReceipt → Bool
read_as read_status receipt =
    if str_eq read_status "unread"
    then is_unread receipt
    else if str_eq read_status "read"
    then not (is_unread receipt)
    else not (str_eq read_status "cleared") || is_cleared receipt

-- The filters on the row of a message.
unfoldable pub row_matches :
    Contains → Criteria → List MessageAudienceRight → Option MessageReceipt → Message → Bool
row_matches icontains c rights receipt m =
    matches icontains c.message_id m.message_id
    && chosen c.kind (λ k. kind_eq m.kind k)
    && chosen c.status (λ s. status_eq m.status s)
    && chosen c.group (λ g. any (λ r. r.message_pk == m.pk && r.message_group_id == g) rights)
    && chosen c.subtype (λ s. opt_eq m.subtype_id (some s))
    && read_as c.read_status receipt
    && (c.include_archived || not (status_eq m.status Status.archived))

-- The filters on its current version, but for those of `include_future`.
unfoldable pub version_matches : Contains → Criteria → MessageVersion → Bool
version_matches icontains c v =
    matches icontains c.title v.title
    && matches icontains c.summary v.summary
    && matches icontains c.content v.searchable_content
    && within c.release_from c.release_to (some v.release_at)
    && within c.effective_from c.effective_to v.effective_at
    && within c.expiry_from c.expiry_to (some v.expiry_at)

abbrev sorts_by_version : String → Bool
sorts_by_version sort = has_text sort ("title" ∷ "release" ∷ "effective" ∷ "expiry" ∷ [])

-- Whether no filter looks at the current version.
abbrev without_version : Criteria → Bool
without_version c =
    str_eq c.title ""
    && str_eq c.summary ""
    && str_eq c.content ""
    && not (is_some c.release_from || is_some c.release_to)
    && not (is_some c.effective_from || is_some c.effective_to)
    && not (is_some c.expiry_from || is_some c.expiry_to)
    && c.include_future
    && not (sorts_by_version c.sort)

-- The two filters of `include_future`: the current version was released, and some version, the current
-- one or another, has no effective time or one that has passed.
unfoldable pub is_past : ℕ → List MessageVersion → Message → Bool
is_past now versions m =
    some_and (version_in versions m) (λ v. leb v.release_at now)
    && any (λ v. v.message_pk == m.pk && chosen v.effective_at (λ t. leb t now)) versions

-- All filters on versions.
unfoldable pub versions_match : Contains → Criteria → ℕ → List MessageVersion → Message → Bool
unfolding version_matches is_past
versions_match icontains c now versions m =
    (c.include_future || is_past now versions m) && (elim (version_in versions m) [
      | none ↦ without_version c
      | some v ↦ version_matches icontains c v
    ])

unfoldable pub is_found :
    Desk → Contains → User → Criteria → List MessageReceipt → Db → Annotated → Bool
unfolding row_matches versions_match
is_found desk icontains actor c receipts db a =
    row_matches icontains c db.rights (receipt_of actor.pk receipts a.message.pk) a.message
    && versions_match icontains c desk.now db.versions a.message

-- `order` is what the database makes of `order_by` for a choice and a direction: the place of missing
-- times and the order of texts are its own.
unfoldable pub search_messages :
    Desk
    → Contains
    → (String → String → Annotated → Annotated → Bool)
    → User
    → Criteria
    → List MessageReceipt
    → Db
    → List Annotated
unfolding published_messages is_found
search_messages desk icontains order actor c receipts db =
    sort_by (order c.sort c.direction)
      (filter (is_found desk icontains actor c receipts db) (published_messages desk actor db))

unfoldable pub search_message : Desk → User → ℕ → Db → Result Annotated
unfolding published_messages
search_message desk actor pk db = elim (find (is_message pk) (published_messages desk actor db)) [
  | none ↦ err Error.no_message_access
  | some a ↦ ok a
]

pub record SearchRow : Type 0 where
  pub message : Message
  pub version : MessageVersion
  pub read_status : String

abbrev read_status_of : Option MessageReceipt → String
read_status_of receipt =
    if is_cleared receipt then "Read & Cleared" else if is_unread receipt then "Unread" else "Read"

-- A missing version is a `KeyError`.
unfoldable pub rows_for :
    List Annotated → User → List MessageReceipt → List MessageVersion → Result (List SearchRow)
rows_for [] actor receipts versions = ok []
rows_for (a ∷ more) actor receipts versions =
    let rest = rows_for more actor receipts versions in
    elim (version_in versions a.message) [
      | none ↦ err Error.key_missing
      | some v ↦ elim rest [
        | err e ↦ err e
        | ok rows ↦ ok (
            record {
              message = a.message;
              version = v;
              read_status = read_status_of (receipt_of actor.pk receipts a.message.pk);
            }
            ∷ rows)
      ]
    ]

pub record MaintenanceRow : Type 0 where
  pub message : Message
  pub version : MessageVersion
  pub actions : List Action

-- One row, for a version that is there.
unfoldable pub maintenance_row : Env → User → Message → Option MessageVersion → Tx MaintenanceRow
maintenance_row env actor m none db = err Error.key_missing
maintenance_row env actor m (some v) db = elim (permitted_maintenance_actions env actor m db) [
  | err e ↦ err e
  | ok (actions, db') ↦ ok (record { message = m; version = v; actions = actions }, db')
]

unfoldable pub maintenance_rows : Env → List Message → User → Tx (List MaintenanceRow)
unfolding maintenance_row
maintenance_rows env [] actor db = ok ([], db)
maintenance_rows env (m ∷ ms) actor db =
    elim (maintenance_row env actor m (version_in db.versions m) db) [
      | err e ↦ err e
      | ok (row, db1) ↦ elim (maintenance_rows env ms actor db1) [
        | err e ↦ err e
        | ok (rows, db2) ↦ ok (row ∷ rows, db2)
      ]
    ]

-- The criteria of a suggestion.
abbrev suggested : String → Criteria
suggested term = record {
  message_id = term;
  kind = none;
  status = none;
  title = "";
  summary = "";
  content = "";
  group = none;
  subtype = none;
  read_status = "";
  release_from = none;
  release_to = none;
  effective_from = none;
  effective_to = none;
  expiry_from = none;
  expiry_to = none;
  include_archived = true;
  include_future = true;
  sort = "message_id";
  direction = "";
}

-- The rows behind the suggestions; `term` is stripped.
unfoldable pub message_suggestions :
    Desk
    → Contains
    → (String → String → Annotated → Annotated → Bool)
    → User
    → String
    → ℕ
    → List MessageReceipt
    → Db
    → Result (List SearchRow)
unfolding search_messages rows_for
message_suggestions desk icontains order actor term limit receipts db =
    if ltb (text_length term) 3
    then ok []
    else rows_for
        (take limit (search_messages desk icontains order actor (suggested term) receipts db)) actor
        receipts db.versions
