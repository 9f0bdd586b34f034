-- ===== src/Identity/Model.antt =====
-- firstbrief/identity/models.py: a user with what hangs on the row through its relations.
use first_brief.Prelude.{ℕ, Bool, Option, List, String}

-- `message_types` are the primary keys of the message types that the role opens.
pub record Role : Type 0 where
  pub is_active : Bool
  pub capabilities : List String
  pub message_types : List ℕ

-- `is_authenticated` is false of Django's anonymous user only.
pub record User : Type 0 where
  pub pk : ℕ
  pub is_authenticated : Bool
  pub is_active : Bool
  pub is_superuser : Bool
  pub email : String
  pub site_id : Option ℕ
  pub roles : List Role
  pub direct_capabilities : List String
  pub message_groups : List ℕ
  pub default_message_group_id : Option ℕ

pub record IdentityPolicy : Type 0 where
  pub max_failed_logins : ℕ
  pub lockout_minutes : ℕ
  pub password_expiry_days : ℕ
  pub password_min_length : ℕ
  pub password_max_length : ℕ
  pub approval_notification_email : String
  pub policy_notification_email : String
