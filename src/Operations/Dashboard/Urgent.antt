-- ===== src/Operations/Dashboard/Urgent.antt =====
-- What must be read stands on the dashboard, and its counters add up.
-- The counters.
use first_brief.Prelude.Sorting.{sort_by, any-sort_by}
use first_brief.Prelude.{
  ℕ, ◌+◌, ◌≡◌, refl, ◌∙◌, inl, inr, Bool, true, false, ◌&&◌, Option, none, some, List, [], ◌∷◌,
  arith, ltb, ◌==◌, any, filter, find, length, take, contains, Bool-cases, Option-cases, take-all,
}
use first_brief.Operations.Dashboard.Laws.{
  any-append, reader_items-keeps, managing_items-keeps, recent_items-keeps,
}
use first_brief.Operations.Dashboard.Managing.{managing_items}
use first_brief.Store.{Db}
use first_brief.Errors.{ok, Result-cases, err, Error}
use first_brief.Operations.Listing.{receipt_of, is_unread, version_in, starts_at}
use first_brief.Identity.Model.{User}
use first_brief.Messaging.Model.{MessageVersion, MessageAudienceRight}
use first_brief.Operations.Access.{
  Annotated, Desk, accessible_message, is_message, operational_messages,
}
use first_brief.Operations.Model.{MessageReceipt, DashboardPreference}
use first_brief.Operations.Dashboard.Attention.{
  AttentionItem, is_overdue, category_code, reader_item, Board, reader_items, with_item, item_of,
  Category, overdue_reason, overdue_label,
}
use first_brief.Operations.Dashboard.{
  count_where, with_versions, dashboard_data, gathered, dashboard_of, mandatory_unread_test,
  other_unread_test, Dashboard, nothing_included, recent_items, item_before,
}

counts-add :
    (user : ℕ) (receipts : List MessageReceipt) (messages : List Annotated)
    → count_where mandatory_unread_test user receipts messages
        + count_where other_unread_test user receipts messages
      ≡ length (filter (λ a. is_unread (receipt_of user receipts a.message.pk)) messages)
unfolding count_where filter
counts-add user receipts [] = refl
counts-add user receipts (a ∷ more) = ground (arith, counts-add user receipts more)

-- Whether the items name a message as overdue.
abbrev pub names_overdue : ℕ → AttentionItem → Bool
names_overdue pk i = category_code i.category == 6 && i.pk == pk

-- Whether a message is urgent for a reader.
abbrev pub is_urgent : ℕ → List MessageReceipt → Annotated → Bool
is_urgent user receipts a = is_overdue a (receipt_of user receipts a.message.pk)

-- The first message of a key that is urgent is added as overdue.
abbrev is_shown : ℕ → Annotated × MessageVersion → Bool
is_shown pk x = is_message pk x.0

module _ (desk : Desk) (user : User) (preferences : DashboardPreference) (previous : ℕ)
    (rights : List MessageAudienceRight) (receipts : List MessageReceipt) where
  head-overdue :
      (a : Annotated) (v : MessageVersion) (b : Board)
      → is_urgent user.pk receipts a ≡ true
      → contains a.message.pk b.included ≡ false
      → any
          (names_overdue a.message.pk)
          (with_item a.message.pk
            (reader_item desk user preferences previous rights a v
              (receipt_of user.pk receipts a.message.pk))
            b).attention
        ≡ true
  unfolding reader_item any
  head-overdue a v b urgent new = ground (
    arith,
    urgent,
    new,
    any-append (names_overdue a.message.pk) b.attention (
        item_of Category.overdue a.message v
          (overdue_reason previous v (receipt_of user.pk receipts a.message.pk)) (starts_at v) false
          (overdue_label (receipt_of user.pk receipts a.message.pk))
        ∷ []),
  )

  with_item-fresh :
      (pk other : ℕ) (item : Option AttentionItem) (b : Board)
      → (other == pk) ≡ false
      → contains pk b.included ≡ false
      → contains pk (with_item other item b).included ≡ false
  unfolding contains
  with_item-fresh pk other none b apart free = free
  with_item-fresh pk other (some i) b apart free = ground arith

  reader_items-overdue :
      (pk : ℕ) (shown : List (Annotated × MessageVersion)) (b : Board) {a : Annotated}
      {v : MessageVersion}
      → find (is_shown pk) shown ≡ some (a, v)
      → is_urgent user.pk receipts a ≡ true
      → contains pk b.included ≡ false
      → any
          (names_overdue pk)
          (reader_items desk user preferences previous rights receipts shown b).attention
        ≡ true
  unfolding reader_items find
  reader_items-overdue pk [] b found urgent free = ground arith
  reader_items-overdue pk ((c, w) ∷ more) b {a} {v} found urgent free =
      elim (Bool-cases (c.message.pk == pk)) [
        | inl hit ↦
            let same : a ≡ c = ground arith in
            let key : pk ≡ c.message.pk = ground arith in
            reader_items-keeps desk user preferences previous rights receipts (names_overdue pk)
              more _ (rw key (head-overdue c w b (rw same at urgent) (rw key at free)))
        | inr miss ↦
            reader_items-overdue pk more _ {a = a} {v = v} (rw miss at found) urgent
              (with_item-fresh pk c.message.pk _ b miss free)
      ]

with_versions-find :
    (versions : List MessageVersion) (pk : ℕ) (messages : List Annotated)
    {shown : List (Annotated × MessageVersion)} {a : Annotated}
    → with_versions versions messages ≡ ok shown
    → find (is_message pk) messages ≡ some a
    → (v : MessageVersion) × (find (is_shown pk) shown ≡ some (a, v))
unfolding with_versions find
with_versions-find versions pk [] done found = ground arith
with_versions-find versions pk (c ∷ more) {shown} {a} done found =
    elim (Option-cases (version_in versions c.message)) [
      | inl missing ↦ ground arith
      | inr (w, there) ↦ elim (Result-cases (with_versions versions more)) [
        | inr (e, failed) ↦ ground arith
        | inl (rest, ran) ↦
            let all_of : shown ≡ (c, w) ∷ rest = ground arith in
            elim (Bool-cases (is_message pk c)) [
              | inl hit ↦ let same : a ≡ c = ground arith in (w, ground (arith, all_of, hit, same))
              | inr miss ↦
                  let (v, later) =
                    with_versions-find versions pk more {a = a} ran (rw miss at found) in
                  (v, ground (arith, all_of, miss, later))
            ]
      ]
    ]

-- What the dashboard was made of.
dashboard-parts :
    (desk : Desk) (user : User) (preferences : DashboardPreference) (previous : ℕ)
    (receipts : List MessageReceipt) (db : Db) {d : Dashboard}
    → dashboard_data desk user preferences previous receipts db ≡ ok d
    → (shown : List (Annotated × MessageVersion)) × (with_versions db.versions
          (operational_messages desk user db)
        ≡ ok shown)
      × (b : Board) × (gathered desk user preferences previous receipts db shown ≡ ok b)
      × (d ≡ dashboard_of desk user preferences previous receipts db shown b.attention)
unfolding dashboard_data
dashboard-parts desk user preferences previous receipts db {d} done =
    elim (Result-cases (with_versions db.versions (operational_messages desk user db))) [
      | inr (e, failed) ↦ ground arith
      | inl (shown, first) ↦
          elim (Result-cases (gathered desk user preferences previous receipts db shown)) [
            | inr (e, failed) ↦ ground arith
            | inl (b, second) ↦ (shown, first, b, second, ground arith)
          ]
    ]

gathered-overdue :
    (desk : Desk) (user : User) (preferences : DashboardPreference) (previous pk : ℕ)
    (receipts : List MessageReceipt) (db : Db) (shown : List (Annotated × MessageVersion))
    {a : Annotated} {v : MessageVersion} {b : Board}
    → gathered desk user preferences previous receipts db shown ≡ ok b
    → find (is_shown pk) shown ≡ some (a, v)
    → is_urgent user.pk receipts a ≡ true
    → any (names_overdue pk) b.attention ≡ true
unfolding gathered contains
gathered-overdue desk user preferences previous pk receipts db shown {a} {v} {b} done found urgent =
    let start =
      reader_items desk user preferences previous db.rights receipts shown nothing_included in
    let there =
      reader_items-overdue desk user preferences previous db.rights receipts pk shown
        nothing_included found urgent refl in
    elim (Result-cases (managing_items desk user preferences db start)) [
      | inr (e, failed) ↦ ground arith
      | inl (b1, ran) ↦
          let kept =
            managing_items-keeps (names_overdue pk) desk user preferences db start ran there in
          elim (Bool-cases preferences.show_recently_opened) [
            | inl recent ↦
                let same : b ≡ recent_items user.pk receipts shown b1 = ground arith in
                rw same (recent_items-keeps (names_overdue pk) user.pk receipts shown b1 kept)
            | inr without ↦ let same : b ≡ b1 = ground arith in rw same kept
          ]
    ]

-- The two counters of unread messages on the dashboard share out the messages that the reader can
-- see and has not read: together they are as many as those.
pub dashboard-counts :
    (desk : Desk) (user : User) (preferences : DashboardPreference) (previous : ℕ)
    (receipts : List MessageReceipt) (db : Db) {d : Dashboard}
    → dashboard_data desk user preferences previous receipts db ≡ ok d
    → d.mandatory_unread + d.other_unread
      ≡ length (
          filter
            (λ a. is_unread (receipt_of user.pk receipts a.message.pk))
            (operational_messages desk user db))
unfolding dashboard_of
dashboard-counts desk user preferences previous receipts db done =
    let (shown, first, b, second, same) =
      dashboard-parts desk user preferences previous receipts db done in
    rw same (counts-add user.pk receipts (operational_messages desk user db))

found_in :
    (o : Option Annotated) {a : Annotated}
    → (elim o [ none ↦ err Error.no_message_access | some b ↦ ok b ]) ≡ ok a
    → o ≡ some a
found_in none done = ground arith
found_in (some b) done = ground arith

visible :
    (p : AttentionItem → Bool) (limit : ℕ) (items : List AttentionItem)
    → ltb (length (take limit items)) (length items) ≡ false
    → any p items ≡ true
    → any p (take limit items) ≡ true
visible p limit items whole there = rw (take-all limit items (ground (arith, whole))) there

-- A mandatory effective message that the reader can open and has not cleared is on the dashboard
-- as overdue, whatever the preferences and however many reasons there are to show it, unless the
-- list of attention items is marked as cut off.
pub dashboard-overdue :
    (desk : Desk) (user : User) (preferences : DashboardPreference) (previous pk : ℕ)
    (receipts : List MessageReceipt) (db : Db) {a : Annotated} {d : Dashboard}
    → accessible_message desk user pk db ≡ ok a
    → is_urgent user.pk receipts a ≡ true
    → dashboard_data desk user preferences previous receipts db ≡ ok d
    → d.attention_truncated ≡ false
    → any (names_overdue pk) d.attention_items ≡ true
unfolding dashboard_of accessible_message
dashboard-overdue desk user preferences previous pk receipts db {a} {d} asked urgent done full =
    let (shown, first, b, second, same) =
      dashboard-parts desk user preferences previous receipts db done in
    let found : find (is_message pk) (operational_messages desk user db) ≡ some a =
      found_in (find (is_message pk) (operational_messages desk user db)) asked in
    let (v, first_shown) =
      with_versions-find db.versions pk (operational_messages desk user db) first found in
    let there =
      gathered-overdue desk user preferences previous pk receipts db shown second first_shown
        urgent in
    rw same (
      visible (names_overdue pk) preferences.item_limit (sort_by (item_before desk) b.attention)
        (rw same at full) (any-sort_by (item_before desk) (names_overdue pk) b.attention ∙ there))
