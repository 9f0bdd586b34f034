-- ===== src/Operations/Dashboard.antt =====
-- `dashboard_data` of firstbrief/operations/services.py, in a database that answers: the branch for a
-- `DatabaseError` of the query of failed deliveries is left out.
pub mod Attention
pub mod Managing
pub mod Laws
pub mod Urgent
use first_brief.Prelude.{
  ℕ, ◌+◌, ◌-◌, ◌*◌, ◌/◌, String, Bool, true, false, not, ◌&&◌, ◌||◌, Option, none, some, List, [],
  ◌∷◌, if◌then◌else◌, ltb, leb, ◌==◌, all, filter, find, All, length, take, str_eq, is_some,
}
use first_brief.Prelude.Sorting.{sort_by}
use first_brief.Store.{Db}
use first_brief.Operations.Dashboard.Managing.{managing_items}
use first_brief.Identity.Model.{User}
use first_brief.Operations.Listing.{receipt_of, starts_at, is_cleared, version_in, is_unread}
use first_brief.Errors.{Result, ok, err, Error}
use first_brief.Operations.Dashboard.Attention.{
  Board, reader_items, AttentionItem, with_item, item_of, category_code, Category, Reason, is_brief,
}
use first_brief.Operations.Model.{MessageReceipt, DashboardPreference}
use first_brief.Messaging.Model.{MessageVersion, status_eq, Status}
use first_brief.Operations.Access.{Annotated, Desk, hour, operational_messages}
use Prim.Native.Nat.{Ordering}
use Prim.Native.String.{compare}

pub record Dashboard : Type 0 where
  pub effective_since : List (Annotated × MessageVersion)
  pub forthcoming : List (Annotated × MessageVersion)
  pub botd : List (Annotated × MessageVersion)
  pub mandatory_unread : ℕ
  pub other_unread : ℕ
  pub attention_items : List AttentionItem
  pub attention_total : ℕ
  pub attention_truncated : Bool
  pub continue_item : Option AttentionItem

-- `version_for` of every message; a missing one raises `StopIteration`.
unfoldable pub with_versions :
    List MessageVersion → List Annotated → Result (List (Annotated × MessageVersion))
with_versions versions [] = ok []
with_versions versions (a ∷ more) =
    let rest = with_versions versions more in
    elim (version_in versions a.message) [
      | none ↦ err Error.stop_iteration
      | some v ↦ elim rest [ err e ↦ err e | ok shown ↦ ok ((a, v) ∷ shown) ]
    ]

abbrev continue_reading : String
continue_reading = "Continue reading"

-- A message that was opened and not cleared, with the time of its last access.
abbrev pub opened_at : Option MessageReceipt → Option ℕ
opened_at none = none
opened_at (some r) = if is_some r.cleared_at then none else r.last_accessed_at

abbrev pub recent_item : Annotated → MessageVersion → Option ℕ → Option AttentionItem
recent_item a v none = none
recent_item a v (some time) =
    some (item_of Category.continue a.message v Reason.opened_recently time false continue_reading)

-- The loop over the recent receipts, taken by their messages.
unfoldable pub recent_items :
    ℕ → List MessageReceipt → List (Annotated × MessageVersion) → Board → Board
recent_items user receipts [] b = b
recent_items user receipts ((a, v) ∷ more) b =
    recent_items user receipts more (
      with_item a.message.pk (recent_item a v (opened_at (receipt_of user receipts a.message.pk)))
        b)

-- The order of the list, but for the last components, which are the keys.
unfoldable pub item_before : Desk → AttentionItem → AttentionItem → Bool
item_before desk a b =
    ltb a.urgency_rank b.urgency_rank
    || (a.urgency_rank == b.urgency_rank
        && (ltb a.due_at b.due_at
            || (a.due_at == b.due_at
                && (elim (compare (desk.casefold a.reference) (desk.casefold b.reference)) [
                  | Ordering.lt ↦ true
                  | Ordering.gt ↦ false
                  | Ordering.eq ↦
                      ltb (category_code a.category) (category_code b.category)
                      || (category_code a.category == category_code b.category && leb a.pk b.pk)
                ]))))

-- `sum(1 for message in all_messages if …)`
unfoldable pub count_where :
    (Bool → Bool → Bool → Bool) → ℕ → List MessageReceipt → List Annotated → ℕ
count_where test user receipts [] = 0
count_where test user receipts (a ∷ more) =
    let receipt = receipt_of user receipts a.message.pk in
    (if test a.audience_mandatory (is_cleared receipt) (is_unread receipt) then 1 else 0)
    + count_where test user receipts more

abbrev pub mandatory_unread_test : Bool → Bool → Bool → Bool
mandatory_unread_test mandatory cleared unread = mandatory && unread && not cleared

abbrev pub other_unread_test : Bool → Bool → Bool → Bool
other_unread_test mandatory cleared unread = (not mandatory || cleared) && unread

abbrev newly_effective : ℕ → ℕ → Annotated × MessageVersion → Bool
newly_effective now previous_login_at x =
    x.0.audience_mandatory
    && status_eq x.0.message.status Status.effective
    && leb previous_login_at (starts_at x.1)
    && leb (starts_at x.1) now

abbrev is_forthcoming : Desk → Annotated × MessageVersion → Bool
is_forthcoming desk x =
    status_eq x.0.message.status Status.released_pending_effective
    && leb (starts_at x.1) (desk.now + desk.policy.pre_effective_hours * hour)

-- The result, from all items.
unfoldable pub dashboard_of :
    Desk
    → User
    → DashboardPreference
    → ℕ
    → List MessageReceipt
    → Db
    → List (Annotated × MessageVersion)
    → List AttentionItem
    → Dashboard
unfolding item_before count_where
dashboard_of desk user preferences previous_login_at receipts db shown items =
    let attention = sort_by (item_before desk) items in
    let visible = take preferences.item_limit attention in
    let all_shown = operational_messages desk user db in
    record {
      effective_since =
          sort_by (λ x y. leb (starts_at y.1) (starts_at x.1))
            (filter (newly_effective desk.now previous_login_at) shown);
      forthcoming =
          sort_by (λ x y. leb (starts_at x.1) (starts_at y.1)) (filter (is_forthcoming desk) shown);
      botd =
          sort_by (λ x y. leb x.1.release_at y.1.release_at)
            (filter (λ x. is_brief user db.rights x.0) shown);
      mandatory_unread = count_where mandatory_unread_test user.pk receipts all_shown;
      other_unread = count_where other_unread_test user.pk receipts all_shown;
      attention_items = visible;
      attention_total = length attention;
      attention_truncated = ltb (length visible) (length attention);
      continue_item = find (λ i. str_eq i.action_label continue_reading) attention;
    }

abbrev pub nothing_included : Board
nothing_included = record { included = []; attention = [] }

-- All attention items, in the order in which they are added.
unfoldable pub gathered :
    Desk
    → User
    → DashboardPreference
    → ℕ
    → List MessageReceipt
    → Db
    → List (Annotated × MessageVersion)
    → Result Board
unfolding reader_items managing_items recent_items
gathered desk user preferences previous_login_at receipts db shown =
    elim (managing_items desk user preferences db (
      reader_items desk user preferences previous_login_at db.rights receipts shown
        nothing_included)) [
          | err e ↦ err e
          | ok b ↦ ok (
              if preferences.show_recently_opened then recent_items user.pk receipts shown b else b)
        ]

unfoldable pub dashboard_data :
    Desk → User → DashboardPreference → ℕ → List MessageReceipt → Db → Result Dashboard
unfolding with_versions gathered dashboard_of
dashboard_data desk user preferences previous_login_at receipts db =
    elim (with_versions db.versions (operational_messages desk user db)) [
      | err e ↦ err e
      | ok shown ↦ elim (gathered desk user preferences previous_login_at receipts db shown) [
        | err e ↦ err e
        | ok b ↦
            ok (dashboard_of desk user preferences previous_login_at receipts db shown b.attention)
      ]
    ]
