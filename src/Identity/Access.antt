-- ===== src/Identity/Access.antt =====
-- firstbrief/identity/services.py: capabilities and site scope.
use first_brief.Prelude.{
  ℕ, Bool, true, false, ◌&&◌, ◌||◌, not, none, some, List, [], ◌∷◌, String, contains, filter,
  has_text, opt_eq, if◌then◌else◌,
}
use first_brief.Identity.Model.{User, Role}

abbrev pub manage_users : String
manage_users = "manage-users"

abbrev pub manage_configuration : String
manage_configuration = "manage-configuration"

abbrev pub create_messages : String
create_messages = "create-messages"

abbrev pub approve_messages : String
approve_messages = "approve-messages"

abbrev pub manage_messages : String
manage_messages = "manage-messages"

abbrev pub see_all_pmg : String
see_all_pmg = "see-all-primary-message-groups"

abbrev pub manage_sap_imports : String
manage_sap_imports = "manage-sap-imports"

abbrev pub manage_retention : String
manage_retention = "manage-retention"

-- `user.roles.filter(is_active=True, capabilities__codename=codename).exists()`
unfoldable pub role_grants : String → List Role → Bool
role_grants codename [] = false
role_grants codename (role ∷ roles) =
    (role.is_active && has_text codename role.capabilities) || role_grants codename roles

unfoldable pub has_capability : User → String → Bool
has_capability user codename =
    if not user.is_authenticated || not user.is_active
    then false
    else if user.is_superuser
    then true
    else has_text codename user.direct_capabilities || role_grants codename user.roles

-- The users of `visible_users_for`, out of all users of the database.
unfoldable pub visible_users_for : User → List User → List User
visible_users_for actor users =
    if actor.is_superuser || has_capability actor see_all_pmg then users else elim actor.site_id [
      | none ↦ []
      | some site ↦ filter (λ user. opt_eq user.site_id (some site)) users
    ]

unfoldable pub role_opens : ℕ → List Role → Bool
role_opens message_type_id [] = false
role_opens message_type_id (role ∷ roles) =
    (role.is_active && contains message_type_id role.message_types)
    || role_opens message_type_id roles

unfoldable pub can_access_message_type : User → ℕ → Bool
unfolding role_opens
can_access_message_type user message_type_id =
    if user.is_superuser then true else role_opens message_type_id user.roles
