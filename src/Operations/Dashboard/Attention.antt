-- ===== src/Operations/Dashboard/Attention.antt =====
-- The attention items of `dashboard_data`, firstbrief/operations/services.py. Items are sorted at the
-- end by a key that differs between any two of them, so the order in which they are added, and the
-- `order_by` of the queries that have no limit, does not show.
use first_brief.Messaging.Rights.{right_eq}
use first_brief.Operations.Listing.{is_cleared, starts_at, receipt_of, is_unread}
use first_brief.Errors.{Result, ok, err, Error}
use first_brief.Operations.Model.{MessageReceipt, DashboardPreference}
use first_brief.Identity.Model.{User}
use first_brief.Operations.Access.{Annotated, Desk}
use first_brief.Messaging.Model.{
  Kind, Message, MessageVersion, status_eq, MessageAudienceRight, Status, Right,
}
use first_brief.Prelude.{
  ℕ, String, Bool, true, false, not, ◌&&◌, ◌||◌, Option, none, some, List, [], ◌∷◌, ◌++◌,
  if◌then◌else◌, leb, ◌==◌, any, contains, is_some, some_and,
}

pub data Category : Type 0 where
  approval botd continue expiring forthcoming notification overdue returned : Category

-- The place of a category among the slugs in alphabetical order.
abbrev pub category_code : Category → ℕ
category_code Category.approval = 0
category_code Category.botd = 1
category_code Category.continue = 2
category_code Category.expiring = 3
category_code Category.forthcoming = 4
category_code Category.notification = 5
category_code Category.overdue = 6
category_code Category.returned = 7

-- The reasons, one constructor for each text.
pub data Reason : Type 0 where
  since_login opened_not_cleared never_read current_brief to_approve delivery_failed : Reason
  opened_recently : Reason
  upcoming expiring_within : ℕ → Reason
  sent_back : String → Reason

-- `urgency` and `urgency_rank` go with the category; `management` chooses the page that is linked.
-- The key is the category's slug and `pk`.
pub record AttentionItem : Type 0 where
  pub category : Category
  pub pk : ℕ
  pub urgency_rank : ℕ
  pub title : String
  pub reference : String
  pub reason : Reason
  pub due_at : ℕ
  pub action_label : String
  pub management : Bool

abbrev pub kind_eq : Kind → Kind → Bool
kind_eq Kind.botd Kind.botd = true
kind_eq Kind.instruction Kind.instruction = true
kind_eq _ _ = false

-- `included_messages` and `attention`
pub record Board : Type 0 where
  pub included : List ℕ
  pub attention : List AttentionItem

abbrev pub rank_of : Category → ℕ
rank_of Category.overdue = 0
rank_of Category.notification = 0
rank_of Category.returned = 1
rank_of Category.approval = 1
rank_of Category.expiring = 2
rank_of Category.botd = 3
rank_of Category.forthcoming = 4
rank_of Category.continue = 5

abbrev pub item_of :
    Category → Message → MessageVersion → Reason → ℕ → Bool → String → AttentionItem
item_of category m v reason due_at management label = record {
  category = category;
  pk = m.pk;
  urgency_rank = rank_of category;
  title = v.title;
  reference = m.message_id;
  reason = reason;
  due_at = due_at;
  action_label = label;
  management = management;
}

-- The item is added unless the message is there already.
abbrev pub with_item : ℕ → Option AttentionItem → Board → Board
with_item pk none b = b
with_item pk (some item) b =
    if contains pk b.included
    then b
    else record { included = pk ∷ b.included; attention = b.attention ++ item ∷ [] }

-- `add_message_item`; the version is looked up only for a message that is not included yet, and
-- `next` raises `StopIteration` where there is none.
unfoldable pub add_message_item :
    Category
    → Message
    → Option MessageVersion
    → Reason
    → (MessageVersion → ℕ)
    → Bool
    → String
    → Board
    → Result Board
add_message_item category m version reason due_at management label b =
    if contains m.pk b.included then ok b else elim version [
      | none ↦ err Error.stop_iteration
      | some v ↦
          ok (with_item m.pk (some (item_of category m v reason (due_at v) management label)) b)
    ]

-- The tests of the first loop, on a message with its version and its receipt.
abbrev pub is_overdue : Annotated → Option MessageReceipt → Bool
is_overdue a receipt =
    a.audience_mandatory && status_eq a.message.status Status.effective && not (is_cleared receipt)

-- A right of the default group that is not prohibited; superusers and users without one see all.
unfoldable pub is_own_brief : User → List MessageAudienceRight → Annotated → Bool
is_own_brief user rights a = user.is_superuser || (elim user.default_message_group_id [
  | none ↦ true
  | some group ↦
      any
        (λ r.
          r.message_pk == a.message.pk
          && r.message_group_id == group
          && not (right_eq r.right Right.prohibited))
        rights
])

abbrev pub is_brief : User → List MessageAudienceRight → Annotated → Bool
is_brief user rights a =
    kind_eq a.message.kind Kind.botd
    && status_eq a.message.status Status.effective
    && is_own_brief user rights a

abbrev pub overdue_reason : ℕ → MessageVersion → Option MessageReceipt → Reason
overdue_reason previous_login_at v receipt =
    if leb previous_login_at (starts_at v)
    then Reason.since_login
    else if is_unread receipt
    then Reason.never_read
    else Reason.opened_not_cleared

abbrev pub overdue_label : Option MessageReceipt → String
overdue_label receipt =
    if some_and receipt (λ r. is_some r.last_accessed_at) then "Continue reading" else "Read now"

-- The attention item of a message that the reader can see, if there is one.
unfoldable pub reader_item :
    Desk
    → User
    → DashboardPreference
    → ℕ
    → List MessageAudienceRight
    → Annotated
    → MessageVersion
    → Option MessageReceipt
    → Option AttentionItem
unfolding is_own_brief
reader_item desk user preferences previous_login_at rights a v receipt =
    if is_overdue a receipt
    then some (
        item_of Category.overdue a.message v (overdue_reason previous_login_at v receipt)
          (starts_at v) false (overdue_label receipt))
    else if preferences.show_forthcoming
        && status_eq a.message.status Status.released_pending_effective
    then some (
        item_of Category.forthcoming a.message v (Reason.upcoming desk.policy.pre_effective_hours)
          (starts_at v) false "Preview message")
    else if preferences.show_botd && is_brief user rights a && is_unread receipt
    then some
        (item_of Category.botd a.message v Reason.current_brief v.release_at false "Read briefing")
    else none

unfoldable pub reader_items :
    Desk
    → User
    → DashboardPreference
    → ℕ
    → List MessageAudienceRight
    → List MessageReceipt
    → List (Annotated × MessageVersion)
    → Board
    → Board
unfolding reader_item
reader_items desk user preferences previous_login_at rights receipts [] b = b
reader_items desk user preferences previous_login_at rights receipts ((a, v) ∷ more) b =
    let receipt = receipt_of user.pk receipts a.message.pk in
    reader_items desk user preferences previous_login_at rights receipts more (
      with_item a.message.pk
        (reader_item desk user preferences previous_login_at rights a v receipt) b)
