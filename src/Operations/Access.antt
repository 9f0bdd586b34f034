-- ===== src/Operations/Access.antt =====
-- `_audience_annotations`, `accessible_messages`, `operational_messages` and `accessible_message` of
-- firstbrief/operations/services.py.
pub mod Laws
use first_brief.Prelude.{
  ℕ, ◌+◌, ◌-◌, ◌*◌, ◌/◌, String, Bool, not, ◌&&◌, ◌||◌, Option, none, some, List, [], ◌∷◌,
  if◌then◌else◌, leb, ◌==◌, any, all, filter, find, contains, some_and,
}
use first_brief.Notifications.Model.{NotificationJob}
use first_brief.Identity.Access.{role_opens}
use first_brief.Operations.Model.{OperationalPolicy}
use first_brief.Identity.Model.{User}
use first_brief.Prelude.Tables.{Table}
use first_brief.Messaging.Rights.{right_eq}
use first_brief.Messaging.Model.{
  MessageStatusHistory, Message, MessageAudienceRight, MessageVersion, Right, MessageRow, status_eq,
  Status,
}
use first_brief.Store.{Env, Db, is_version}
use first_brief.Errors.{Error, Result, ok, err}

-- What the services of this component read: the surroundings of the message services, the
-- operational policy, the users, `str.casefold`, the order of texts in the
-- database, the templates with what `strip` makes of them, `uuid4` of a notification's key,
-- and the time of a history row, which the model of the message services leaves out.
pub record Desk : Type 0 where
  pub env : Env
  pub open env use *
  pub policy : OperationalPolicy
  pub users : List User
  pub casefold : String → String
  pub text_before : String → String → Bool
  pub self_mail : Message → MessageVersion → String → String × String
  pub feedback_mail : Message → MessageVersion → User → String → String → String × String
  pub fresh_key : List NotificationJob → ℕ
  pub occurred_at : MessageStatusHistory → ℕ

-- A message with the annotations of `_audience_annotations`.
pub record Annotated : Type 0 where
  pub message : Message
  pub audience_prohibited : Bool
  pub audience_allowed : Bool
  pub audience_mandatory : Bool

-- `rights.filter(…).exists()`, of all groups or of some.
unfoldable pub right_exists :
    List MessageAudienceRight → Option (List ℕ) → ℕ → (Right → Bool) → Bool
right_exists rights none pk p = any (λ r. r.message_pk == pk && p r.right) rights
right_exists rights (some group_ids) pk p =
    any (λ r. r.message_pk == pk && contains r.message_group_id group_ids && p r.right) rights

unfoldable pub audience_annotations :
    List MessageAudienceRight → Option (List ℕ) → List Message → List Annotated
unfolding right_exists right_eq
audience_annotations rights group_ids [] = []
audience_annotations rights group_ids (m ∷ ms) =
    record {
      message = m;
      audience_prohibited = right_exists rights group_ids m.pk (λ r. right_eq r Right.prohibited);
      audience_allowed =
          right_exists rights group_ids m.pk
            (λ r. right_eq r Right.allowed || right_eq r Right.mandatory);
      audience_mandatory = right_exists rights group_ids m.pk (λ r. right_eq r Right.mandatory);
    }
    ∷ audience_annotations rights group_ids ms

-- `Message.objects`
unfoldable pub all_messages : Table MessageRow → List Message
all_messages [] = []
all_messages ((pk, r) ∷ t) = record { pk = pk; row = r } ∷ all_messages t

-- `audience_rights__message_group__primary_group__site_id=site`
unfoldable pub at_site : Env → ℕ → List MessageAudienceRight → ℕ → Bool
at_site env site rights pk =
    any
      (λ r.
        r.message_pk == pk
        && some_and (env.message_group r.message_group_id) (λ g. g.primary_site_id == site))
      rights

abbrev pub in_scope : Env → User → ℕ → List MessageAudienceRight → Annotated → Bool
in_scope env user site rights a =
    role_opens a.message.message_type_id user.roles
    && a.audience_allowed
    && not a.audience_prohibited
    && at_site env site rights a.message.pk

-- `filter(…)` of a user with a site, in whose groups the annotations look.
unfoldable pub scoped_messages : Env → User → Option ℕ → List ℕ → Db → List Annotated
unfolding audience_annotations all_messages at_site
scoped_messages env user none groups db = []
scoped_messages env user (some site) [] db = []
scoped_messages env user (some site) (g ∷ gs) db =
    filter (in_scope env user site db.rights)
      (audience_annotations db.rights (some (g ∷ gs)) (all_messages db.messages))

unfoldable pub accessible_messages : Env → User → Db → List Annotated
unfolding scoped_messages
accessible_messages env user db =
    if user.is_superuser
    then filter (λ a. a.audience_allowed)
        (audience_annotations db.rights none (all_messages db.messages))
    else scoped_messages env user user.site_id user.message_groups db

abbrev pub hour : ℕ
hour = 3600000000

-- Whether the current version becomes effective by a time.
unfoldable pub effective_by : ℕ → List MessageVersion → Message → Bool
effective_by cutoff versions m =
    any
      (λ v.
        is_version m.pk m.current_version_number v && some_and v.effective_at (λ t. leb t cutoff))
      versions

unfoldable pub is_operational : Desk → Db → Annotated → Bool
unfolding effective_by
is_operational desk db a =
    status_eq a.message.status Status.effective
    || (status_eq a.message.status Status.released_pending_effective
        && effective_by (desk.now + desk.policy.pre_effective_hours * hour) db.versions a.message)

unfoldable pub operational_messages : Desk → User → Db → List Annotated
unfolding accessible_messages is_operational
operational_messages desk user db =
    filter (is_operational desk db) (accessible_messages desk.env user db)

abbrev pub is_message : ℕ → Annotated → Bool
is_message pk a = a.message.pk == pk

unfoldable pub accessible_message : Desk → User → ℕ → Db → Result Annotated
unfolding operational_messages
accessible_message desk user pk db =
    elim (find (is_message pk) (operational_messages desk user db)) [
      | none ↦ err Error.no_message_access
      | some a ↦ ok a
    ]
