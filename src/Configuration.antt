-- ===== src/Configuration.antt =====
-- firstbrief/configuration/models.py: the rows of the taxonomy that messages are checked against.
-- The columns that only drive the presentation of forms and menus are left out.
use first_brief.Prelude.{ℕ, Bool, List, String}

pub data ContentType : Type 0 where
  text pdf : ContentType

pub record MessageType : Type 0 where
  pub default_content_type : ContentType
  pub requires_approval : Bool
  pub has_subtypes : Bool
  pub has_effective_date : Bool

-- `primary_site_id` is `primary_group.site_id`.
pub record MessageGroup : Type 0 where
  pub primary_group_id : ℕ
  pub primary_site_id : ℕ

-- `distribution_emails` are the addresses of the email distributions that have `use_as_email`.
pub record MessageSubType : Type 0 where
  pub message_type_id : ℕ
  pub primary_group_id : ℕ
  pub minimum_validity_days : ℕ
  pub maximum_validity_days : ℕ
  pub distribution_emails : List String
