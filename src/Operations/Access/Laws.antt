-- ===== src/Operations/Access/Laws.antt =====
-- Readers open only what the message services grant them.
use first_brief.Prelude.{
  ℕ, ◌≡◌, refl, inl, inr, true, false, not, ◌&&◌, ◌||◌, Option, none, some, List, [], ◌∷◌, arith,
  if◌then◌else◌, any, filter, find, All, Bool-cases, Option-cases, All-both, find-holds, filter-All,
  find-All, All-filter,
}
use first_brief.Errors.{ok}
use first_brief.Identity.Access.{role_opens, can_access_message_type}
use first_brief.Store.{Db, Env}
use first_brief.Messaging.Rights.{right_eq, holds_right, require_message_access, resolve_audience}
use first_brief.Identity.Model.{User}
use first_brief.Operations.Access.{
  audience_annotations, right_exists, scoped_messages, Annotated, all_messages, in_scope,
  accessible_messages, accessible_message, operational_messages, Desk, is_operational, is_message,
}
use first_brief.Messaging.Model.{MessageAudienceRight, Message, Right, is_in, Status}

-- The annotations of a message, as the right rows give them.
pub record Faithful (rights : List MessageAudienceRight) (groups : Option (List ℕ)) (a : Annotated)
    : Type 0 where
  pub prohibited :
      a.audience_prohibited
      ≡ right_exists rights groups a.message.pk (λ r. right_eq r Right.prohibited)
  pub allowed :
      a.audience_allowed
      ≡ right_exists rights groups a.message.pk
          (λ r. right_eq r Right.allowed || right_eq r Right.mandatory)
  pub mandatory :
      a.audience_mandatory
      ≡ right_exists rights groups a.message.pk (λ r. right_eq r Right.mandatory)

annotations-Faithful :
    (rights : List MessageAudienceRight) (groups : Option (List ℕ)) (ms : List Message)
    → All (Faithful rights groups) (audience_annotations rights groups ms)
unfolding audience_annotations
annotations-Faithful rights groups [] = tt
annotations-Faithful rights groups (m ∷ ms) = (
  record { prohibited = refl; allowed = refl; mandatory = refl },
  annotations-Faithful rights groups ms,
)

-- A right of the message for one of the groups, as `resolve_audience` looks for it.
exists-holds :
    (rights : List MessageAudienceRight) (groups : List ℕ) (pk : ℕ) (right : Right)
    → right_exists rights (some groups) pk (λ r. right_eq r right)
      ≡ holds_right pk groups rights right
unfolding right_exists holds_right any
exists-holds [] groups pk right = refl
exists-holds (r ∷ rs) groups pk right = ground (arith, exists-holds rs groups pk right)

exists-either :
    (rights : List MessageAudienceRight) (groups : List ℕ) (pk : ℕ)
    → right_exists rights
        (some groups)
        pk
        (λ r. right_eq r Right.allowed || right_eq r Right.mandatory)
      ≡ (holds_right pk groups rights Right.allowed || holds_right pk groups rights Right.mandatory)
unfolding right_exists holds_right any
exists-either [] groups pk = refl
exists-either (r ∷ rs) groups pk = ground (arith, exists-either rs groups pk)

-- What an accessible message is, for a user who is not a superuser.
abbrev pub Granted : User → Db → Annotated → Type 0
Granted user db a =
    (role_opens a.message.message_type_id user.roles ≡ true)
    × (a.audience_allowed ≡ true)
    × (a.audience_prohibited ≡ false)
    × Faithful db.rights (some user.message_groups) a

scoped-Granted :
    (env : Env) (user : User) (site : Option ℕ) (groups : List ℕ) (db : Db)
    → user.message_groups ≡ groups
    → All (Granted user db) (scoped_messages env user site groups db)
unfolding scoped_messages
scoped-Granted env user none groups db same = tt
scoped-Granted env user (some site) [] db same = tt
scoped-Granted env user (some site) (g ∷ gs) db same =
    let ms = audience_annotations db.rights (some (g ∷ gs)) (all_messages db.messages) in
    let test = in_scope env user site db.rights in
    let faithful = annotations-Faithful db.rights (some (g ∷ gs)) (all_messages db.messages) in
    All-both (Granted user db)
      (λ a t f. (ground (arith, t), ground (arith, t), ground (arith, t), rw same f))
      (filter test ms) (filter-All test ms)
      (All-filter (Faithful db.rights (some (g ∷ gs))) test ms faithful)

-- The right that the message services give for an annotated message.
abbrev pub right_of : User → Annotated → Right
right_of user a =
    if not user.is_superuser && a.audience_mandatory then Right.mandatory else Right.allowed

-- What a message is that a reader can open.
pub record Opened (user : User) (pk : ℕ) (db : Db) (a : Annotated) : Type 0 where
  pub asked : a.message.pk ≡ pk
  pub type_open : can_access_message_type user a.message.message_type_id ≡ true
  pub published :
      is_in a.message.status (Status.effective ∷ Status.released_pending_effective ∷ []) ≡ true
  pub right : require_message_access pk user db.rights ≡ ok (right_of user a)

pub Granted-right :
    (user : User) (db : Db) (a : Annotated)
    → user.is_superuser ≡ false
    → Granted user db a
    → require_message_access a.message.pk user db.rights ≡ ok (right_of user a)
unfolding require_message_access resolve_audience
Granted-right user db a plain (opened, allowed, free, f) = ground (
  arith,
  plain,
  allowed,
  free,
  f.prohibited,
  f.allowed,
  f.mandatory,
  exists-holds db.rights user.message_groups a.message.pk Right.prohibited,
  exists-holds db.rights user.message_groups a.message.pk Right.mandatory,
  exists-either db.rights user.message_groups a.message.pk,
)

pub accessible-Granted :
    (env : Env) (user : User) (db : Db)
    → user.is_superuser ≡ false
    → All (Granted user db) (accessible_messages env user db)
unfolding accessible_messages
accessible-Granted env user db plain =
    rw plain (scoped-Granted env user user.site_id user.message_groups db refl)

found_of :
    (desk : Desk) (user : User) (pk : ℕ) (db : Db) {a : Annotated}
    → accessible_message desk user pk db ≡ ok a
    → find (is_message pk) (filter (is_operational desk db) (accessible_messages desk.env user db))
      ≡ some a
unfolding accessible_message operational_messages
found_of desk user pk db done =
    elim (Option-cases (
      find (is_message pk)
        (filter (is_operational desk db) (accessible_messages desk.env user db)))) [
          | inl missing ↦ ground arith
          | inr (b, found) ↦ ground arith
        ]

live-status :
    (desk : Desk) (db : Db) (a : Annotated)
    → is_operational desk db a ≡ true
    → is_in a.message.status (Status.effective ∷ Status.released_pending_effective ∷ []) ≡ true
unfolding is_operational
live-status desk db a live = ground arith

pub superuser-right :
    (user : User) (pk : ℕ) (db : Db) (a : Annotated)
    → user.is_superuser ≡ true
    → (require_message_access pk user db.rights ≡ ok (right_of user a))
      × (can_access_message_type user a.message.message_type_id ≡ true)
unfolding require_message_access can_access_message_type
superuser-right user pk db a super = (ground arith, ground arith)

pub plain-type :
    (user : User) (type : ℕ)
    → user.is_superuser ≡ false
    → role_opens type user.roles ≡ true
    → can_access_message_type user type ≡ true
unfolding can_access_message_type
plain-type user type plain opened = ground arith

-- A message that a reader can open is the one that was asked for; its type is open to the reader,
-- it is effective or released and not yet effective, and `require_message_access` of the message
-- services grants it with the same right: mandatory where the annotation says so and the reader is
-- no superuser, allowed otherwise.
pub accessible_message-Opened :
    (desk : Desk) (user : User) (pk : ℕ) (db : Db) {a : Annotated}
    → accessible_message desk user pk db ≡ ok a
    → Opened user pk db a
accessible_message-Opened desk user pk db {a} done =
    let ms = accessible_messages desk.env user db in
    let shown = filter (is_operational desk db) ms in
    let found = found_of desk user pk db done in
    let hit = find-holds (is_message pk) shown found in
    let asked : a.message.pk ≡ pk = ground (arith, hit) in
    let live =
      find-All (λ b. is_operational desk db b ≡ true) (is_message pk) shown found
        (filter-All (is_operational desk db) ms) in
    elim (Bool-cases user.is_superuser) [
      | inl super ↦
          let (right, open_type) = superuser-right user pk db a super in
          record {
            asked = asked;
            type_open = open_type;
            published = live-status desk db a live;
            right = right;
          }
      | inr plain ↦
          let granted = find-All (Granted user db) (is_message pk) shown found (
            All-filter (Granted user db) (is_operational desk db) ms
              (accessible-Granted desk.env user db plain)) in
          record {
            asked = asked;
            type_open = plain-type user a.message.message_type_id plain granted.0;
            published = live-status desk db a live;
            right = rw asked at (Granted-right user db a plain granted);
          }
    ]
