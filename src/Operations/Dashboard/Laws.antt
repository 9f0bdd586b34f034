-- ===== src/Operations/Dashboard/Laws.antt =====
-- An item that was added stays among the items.
use first_brief.Prelude.{
  ℕ, String, ◌≡◌, refl, inl, inr, Bool, true, ◌||◌, Option, none, some, List, [], ◌∷◌, ◌++◌, arith,
  any, contains, Bool-cases,
}
use first_brief.Store.{Db}
use first_brief.Operations.Listing.{version_in}
use first_brief.Messaging.Model.{MessageVersion, MessageAudienceRight, Message}
use first_brief.Identity.Model.{User}
use first_brief.Operations.Dashboard.Managing.{
  add_items, managing_items, returned_messages, return_reason, last_return, return_time,
  awaiting_approval, failed_jobs, expiring_messages,
}
use first_brief.Operations.Access.{Desk, Annotated}
use first_brief.Operations.Model.{MessageReceipt, DashboardPreference}
use first_brief.Operations.Dashboard.Attention.{
  AttentionItem, Board, Category, with_item, reader_items, Reason, add_message_item, item_of,
}
use first_brief.Operations.Dashboard.{recent_items}
use first_brief.Errors.{ok, Result-cases}

pub any-append :
    {A : Type 0} (p : A → Bool) (xs ys : List A) → any p (xs ++ ys) ≡ (any p xs || any p ys)
unfolding any
any-append p [] ys = refl
any-append p (x ∷ xs) ys = ground (arith, any-append p xs ys)

-- A later item leaves the earlier ones there.
pub with_item-keeps :
    (p : AttentionItem → Bool) (pk : ℕ) (item : Option AttentionItem) (b : Board)
    → any p b.attention ≡ true
    → any p (with_item pk item b).attention ≡ true
with_item-keeps p pk none b there = there
with_item-keeps p pk (some i) b there = elim (Bool-cases (contains pk b.included)) [
  | inl old ↦ rw old there
  | inr new ↦ rw new (ground (arith, there, any-append p b.attention (i ∷ [])))
]

module _ (desk : Desk) (user : User) (preferences : DashboardPreference) (previous : ℕ)
    (rights : List MessageAudienceRight) (receipts : List MessageReceipt) where
  pub reader_items-keeps :
      (p : AttentionItem → Bool) (shown : List (Annotated × MessageVersion)) (b : Board)
      → any p b.attention ≡ true
      → any p (reader_items desk user preferences previous rights receipts shown b).attention ≡ true
  unfolding reader_items
  reader_items-keeps p [] b there = there
  reader_items-keeps p ((a, v) ∷ more) b there =
      reader_items-keeps p more _ (with_item-keeps p a.message.pk _ b there)

add_message_item-keeps :
    (p : AttentionItem → Bool) (category : Category) (m : Message) (version : Option MessageVersion)
    (reason : Reason) (due_at : MessageVersion → ℕ) (label : String) (b : Board) {b' : Board}
    → add_message_item category m version reason due_at true label b ≡ ok b'
    → any p b.attention ≡ true
    → any p b'.attention ≡ true
unfolding add_message_item
add_message_item-keeps p category m none reason due_at label b {b'} done there = ground arith
add_message_item-keeps p category m (some v) reason due_at label b {b'} done there =
    let item = some (item_of category m v reason (due_at v) true label) in
    elim (Bool-cases (contains m.pk b.included)) [
      | inl old ↦ let same : b' ≡ b = ground arith in rw same there
      | inr new ↦
          let same : b' ≡ with_item m.pk item b = ground arith in
          rw same (with_item-keeps p m.pk item b there)
    ]

add_items-keeps :
    (p : AttentionItem → Bool) (category : Category) (versions : List MessageVersion)
    (reason : Message → Reason) (due_at : Message → MessageVersion → ℕ) (label : String)
    (ms : List Message) (b : Board) {b' : Board}
    → add_items category versions reason due_at label ms b ≡ ok b'
    → any p b.attention ≡ true
    → any p b'.attention ≡ true
unfolding add_items
add_items-keeps p category versions reason due_at label [] b {b'} done there =
    let same : b' ≡ b = ground arith in rw same there
add_items-keeps p category versions reason due_at label (m ∷ ms) b {b'} done there =
    elim (Result-cases
      (add_message_item category m (version_in versions m) (reason m) (due_at m) true label b)) [
        | inr (e, failed) ↦ ground arith
        | inl (next, ran) ↦
            add_items-keeps p category versions reason due_at label ms next {b' = b'} (ground arith)
              (add_message_item-keeps p category m (version_in versions m) (reason m) (due_at m)
                label b ran there)
      ]

pub managing_items-keeps :
    (p : AttentionItem → Bool) (desk : Desk) (user : User) (preferences : DashboardPreference)
    (db : Db) (b : Board) {b' : Board}
    → managing_items desk user preferences db b ≡ ok b'
    → any p b.attention ≡ true
    → any p b'.attention ≡ true
unfolding managing_items
managing_items-keeps p desk user preferences db b {b'} done there =
    let returned = returned_messages desk user preferences db in
    elim (Result-cases (
      add_items Category.returned db.versions (λ m. return_reason (last_return m.pk db.history))
        (λ m v. return_time desk m (last_return m.pk db.history)) "Review draft" returned b)) [
          | inr (e, failed) ↦ ground arith
          | inl (b1, first) ↦
              elim (Result-cases (
                add_items Category.approval db.versions (λ m. Reason.to_approve)
                  (λ m v. v.release_at) "Review approval"
                  (awaiting_approval desk user preferences returned db) b1)) [
                    | inr (e, failed) ↦ ground arith
                    | inl (b2, second) ↦
                        let one = add_items-keeps p _ db.versions _ _ _ returned b first there in
                        let two =
                          add_items-keeps p _ db.versions _ _ _
                            (awaiting_approval desk user preferences returned db) b1 second one in
                        let failed = failed_jobs desk user preferences db in
                        add_items-keeps p Category.expiring db.versions
                          (λ m. Reason.expiring_within preferences.expiring_within_days)
                          (λ m v. v.expiry_at) "Review instruction"
                          (expiring_messages desk user preferences db)
                          (record b2 { attention = b2.attention ++ failed }) {b' = b'}
                          (ground arith) (ground (arith, two, any-append p b2.attention failed))
                  ]
        ]

pub recent_items-keeps :
    (p : AttentionItem → Bool) (user : ℕ) (receipts : List MessageReceipt)
    (shown : List (Annotated × MessageVersion)) (b : Board)
    → any p b.attention ≡ true
    → any p (recent_items user receipts shown b).attention ≡ true
unfolding recent_items
recent_items-keeps p user receipts [] b there = there
recent_items-keeps p user receipts ((a, v) ∷ more) b there =
    recent_items-keeps p user receipts more _ (with_item-keeps p a.message.pk _ b there)
