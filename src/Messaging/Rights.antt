-- ===== src/Messaging/Rights.antt =====
-- `_validate_rights`, `resolve_audience` and `require_message_access` of
-- firstbrief/messaging/services.py: which groups a message is for, and what a user may do with it.
use first_brief.Prelude.{
  ℕ, Bool, true, false, not, ◌&&◌, Option, none, some, List, [], ◌∷◌, String, any, contains, ◌==◌,
  if◌then◌else◌, str_eq,
}
use first_brief.Errors.{Error, Result, ok, err}
use first_brief.Configuration.{MessageSubType, MessageGroup}
use first_brief.Identity.Model.{User}
use first_brief.Identity.Access.{has_capability, see_all_pmg}
use first_brief.Messaging.Model.{Right, Message, MessageAudienceRight}
use first_brief.Store.{Env, Tx, ◌>>=◌, ◌>>◌, pure, guard, refuse, or_raise}

-- The values of the choices `MessageAudienceRight.Right`.
parse_right : String → Option Right
parse_right value =
    if str_eq value "prohibited"
    then some Right.prohibited
    else if str_eq value "allowed"
    then some Right.allowed
    else if str_eq value "mandatory"
    then some Right.mandatory
    else none

-- All the rights of the mapping, or `none` if one is unknown.
parse_rights : List (ℕ × String) → Option (List (ℕ × Right))
unfolding parse_right
parse_rights [] = some []
parse_rights ((group_id, value) ∷ rest) = elim (parse_rights rest) [
  | none ↦ none
  | some rights ↦ elim (parse_right value) [
    | none ↦ none
    | some right ↦ some ((group_id, right) ∷ rights)
  ]
]

abbrev pub opens : Right → Bool
opens Right.prohibited = false
opens Right.allowed = true
opens Right.mandatory = true

-- The groups that the mapping names, or `none` if one does not exist.
find_groups : (ℕ → Option MessageGroup) → List (ℕ × Right) → Option (List MessageGroup)
find_groups group [] = some []
find_groups group ((group_id, right) ∷ rest) = elim (find_groups group rest) [
  | none ↦ none
  | some groups ↦ elim (group group_id) [ none ↦ none | some g ↦ some (g ∷ groups) ]
]

-- `not actor.site_id or any(group.primary_group.site_id != actor.site_id for group in groups)`
outside_site : Option ℕ → List MessageGroup → Bool
outside_site none groups = true
outside_site (some site) groups = any (λ g. not (g.primary_site_id == site)) groups

subtype_outside : Option MessageSubType → List MessageGroup → Bool
subtype_outside none groups = false
subtype_outside (some subtype) groups =
    not (any (λ g. g.primary_group_id == subtype.primary_group_id) groups)

abbrev subtype_of : Env → Option ℕ → Option MessageSubType
subtype_of env none = none
subtype_of env (some subtype_id) = env.message_subtype subtype_id

abbrev is_empty {ℓ} : {A : Type ℓ} → List A → Bool
is_empty [] = true
is_empty (x ∷ xs) = false

right_rows : ℕ → List (ℕ × Right) → List MessageAudienceRight
right_rows message_pk [] = []
right_rows message_pk ((group_id, right) ∷ rest) =
    record { message_pk = message_pk; message_group_id = group_id; right = right }
    ∷ right_rows message_pk rest

-- `_validate_rights`; a `dict` has each group once.
unfoldable pub validate_rights :
    Env → User → Message → List (ℕ × String) → Tx (List MessageAudienceRight)
unfolding parse_rights find_groups outside_site subtype_outside right_rows
validate_rights env actor message group_rights = do
  refuse (is_empty group_rights) Error.audience_required
  rights ← or_raise Error.unknown_right (parse_rights group_rights)
  guard (any (λ r. opens r.1) rights) Error.audience_required
  groups ← or_raise Error.audience_group_missing (find_groups env.message_group rights)
  refuse
      (not actor.is_superuser
        && not (has_capability actor see_all_pmg)
        && outside_site actor.site_id groups)
      Error.audience_outside_site
  refuse (subtype_outside (subtype_of env message.subtype_id) groups) Error.subtype_outside_audience
  pure (right_rows message.pk rights)

unfoldable pub right_eq : Right → Right → Bool
right_eq Right.prohibited Right.prohibited = true
right_eq Right.allowed Right.allowed = true
right_eq Right.mandatory Right.mandatory = true
right_eq _ _ = false

-- `right in rights`, of the rights of a message that fall to some of the groups.
unfoldable pub holds_right : ℕ → List ℕ → List MessageAudienceRight → Right → Bool
unfolding right_eq
holds_right message_pk group_ids rows right =
    any
      (λ r.
        r.message_pk == message_pk
        && contains r.message_group_id group_ids
        && right_eq r.right right)
      rows

unfoldable pub resolve_audience : ℕ → User → List MessageAudienceRight → Option Right
resolve_audience message_pk user rows =
    let held = holds_right message_pk user.message_groups rows in
    if held Right.prohibited
    then some Right.prohibited
    else if held Right.mandatory
    then some Right.mandatory
    else if held Right.allowed
    then some Right.allowed
    else none

access_of : Option Right → Result Right
access_of none = err Error.no_message_access
access_of (some Right.prohibited) = err Error.no_message_access
access_of (some Right.allowed) = ok Right.allowed
access_of (some Right.mandatory) = ok Right.mandatory

unfoldable pub require_message_access : ℕ → User → List MessageAudienceRight → Result Right
unfolding access_of
require_message_access message_pk user rows =
    if user.is_superuser
    then ok Right.allowed
    else access_of (resolve_audience message_pk user rows)
