-- ===== src/Retrieval/Search/Laws.antt =====
-- The search finds only what its reader may see.
use first_brief.Prelude.Sorting.{All-sort_by}
use first_brief.Messaging.Model.{status_eq, Status, is_in}
use first_brief.Errors.{ok}
use first_brief.Operations.Access.Laws.{
  right_of, superuser-right, plain-type, Granted-right, accessible-Granted,
}
use first_brief.Messaging.Rights.{require_message_access}
use first_brief.Identity.Access.{can_access_message_type}
use first_brief.Operations.Model.{MessageReceipt}
use first_brief.Operations.Access.{Annotated, Desk, accessible_messages}
use first_brief.Prelude.{
  String, ◌≡◌, inl, inr, Bool, true, not, ◌||◌, List, arith, filter, All, Bool-cases, All-filter,
  All-both, All-every, filter-All, All-map, ◌∷◌, [],
}
use first_brief.Retrieval.Search.{
  search_messages, published_messages, Criteria, is_found, row_matches, is_published,
}
use first_brief.Store.{Env, Db}
use first_brief.Identity.Model.{User}

-- What a message is that a search shows.
pub record Visible (user : User) (db : Db) (c : Criteria) (a : Annotated) : Type 0 where
  pub type_open : can_access_message_type user a.message.message_type_id ≡ true
  pub right : require_message_access a.message.pk user db.rights ≡ ok (right_of user a)
  pub published :
      is_in a.message.status (
        Status.released_pending_effective ∷ Status.effective ∷ Status.expired ∷ Status.archived
        ∷ [])
      ≡ true
  pub archived : (c.include_archived || not (status_eq a.message.status Status.archived)) ≡ true

accessible-right :
    (env : Env) (user : User) (db : Db)
    → All
        (λ a.
          (can_access_message_type user a.message.message_type_id ≡ true)
          × (require_message_access a.message.pk user db.rights ≡ ok (right_of user a)))
        (accessible_messages env user db)
accessible-right env user db = elim (Bool-cases user.is_superuser) [
  | inl super ↦
      All-every
        (λ a.
          let (right, open_type) = superuser-right user a.message.pk db a super in
          (open_type, right))
        (accessible_messages env user db)
  | inr plain ↦
      All-map
        (λ a granted. (
          plain-type user a.message.message_type_id plain granted.0,
          Granted-right user db a plain granted,
        ))
        (accessible_messages env user db) (accessible-Granted env user db plain)
]

-- Whatever the criteria, every message that a search finds has a type that is open to the reader,
-- is granted to the reader by `require_message_access`, with the right that its annotation gives,
-- and is released, effective, expired or archived, archived ones only where they are asked for.
pub search_messages-Visible :
    (desk : Desk) (icontains : String → String → Bool)
    (order : String → String → Annotated → Annotated → Bool) (actor : User) (c : Criteria)
    (receipts : List MessageReceipt) (db : Db)
    → All (Visible actor db c) (search_messages desk icontains order actor c receipts db)
unfolding search_messages published_messages is_found row_matches
search_messages-Visible desk icontains order actor c receipts db =
    let reach = accessible_messages desk.env actor db in
    let shown = filter is_published reach in
    let test = is_found desk icontains actor c receipts db in
    let rights = All-filter _ is_published reach (accessible-right desk.env actor db) in
    let both =
      All-both
        (λ a.
          ((can_access_message_type actor a.message.message_type_id ≡ true)
            × (require_message_access a.message.pk actor db.rights ≡ ok (right_of actor a)))
          × (is_published a ≡ true))
        (λ a r p. (r, p)) shown rights (filter-All is_published reach) in
    All-sort_by (order c.sort c.direction) (Visible actor db c) (filter test shown) (
      All-both (Visible actor db c)
        (λ a r t. record {
          type_open = r.0.0;
          right = r.0.1;
          published = r.1;
          archived = ground (arith, t);
        })
        (filter test shown) (All-filter _ test shown both) (filter-All test shown))
