-- ===== src/Messaging/Validation/Frame.antt =====
-- Validation only reads.
use first_brief.Prelude.{ℕ, Option, String, List, ◌≡◌, arith}
use first_brief.Errors.{ok}
use first_brief.Identity.Model.{User}
use first_brief.Messaging.Model.{Message, MessageVersion, MessageAudienceRight}
use first_brief.Messaging.Validation.{message_full_clean, version_full_clean, validate_future_dates}
use first_brief.Messaging.Rights.{validate_rights}
use first_brief.Store.{Db, Env, require_capability}

module _ (db : Db) {db' : Db} {u : Unit {0}} where
  pub require_same :
      (user : User) (codename : String)
      → require_capability user codename db ≡ ok (u, db')
      → db' ≡ db
  unfolding require_capability
  require_same user codename done = ground arith

  pub message_full_clean_same :
      (env : Env) (message : Message) → message_full_clean env message db ≡ ok (u, db') → db' ≡ db
  unfolding message_full_clean
  message_full_clean_same env message done = ground arith

  pub version_full_clean_same :
      (env : Env) (type_id : ℕ) (v : MessageVersion)
      → version_full_clean env type_id v db ≡ ok (u, db')
      → db' ≡ db
  unfolding version_full_clean
  version_full_clean_same env type_id v done = ground arith

  pub validate_future_dates_same :
      (now release_at : ℕ) (effective_at : Option ℕ) (expiry_at : ℕ)
      → validate_future_dates now release_at effective_at expiry_at db ≡ ok (u, db')
      → db' ≡ db
  unfolding validate_future_dates
  validate_future_dates_same now release_at effective_at expiry_at done = ground arith

pub validate_rights_same :
    (env : Env) (actor : User) (message : Message) (group_rights : List (ℕ × String)) (db : Db)
    {db' : Db} {rights : List MessageAudienceRight}
    → validate_rights env actor message group_rights db ≡ ok (rights, db')
    → db' ≡ db
unfolding validate_rights
validate_rights_same env actor message group_rights db done = ground arith
