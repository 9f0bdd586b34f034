-- ===== src/Store.antt =====
-- The database that the message services share, the surroundings that they read, and transactions.
-- A service runs under `transaction.atomic`: it returns its result with the new database, or an
-- error and no database, since everything that it wrote is rolled back.
pub mod Laws
use first_brief.Prelude.{ℕ, Bool, true, false, Option, none, some, List, String, ◌==◌, ◌&&◌, find}
use first_brief.Prelude.Tables.{Table, lookup, adjust}
use first_brief.Errors.{Error, Result, ok, err, does_not_exist, no_capability}
use first_brief.Configuration.{MessageType, MessageSubType, MessageGroup}
use first_brief.Identity.Model.{User, IdentityPolicy}
use first_brief.Identity.Access.{has_capability}
use first_brief.Messaging.Model.{
  Message, MessageRow, MessageVersion, MessageAudienceRight, Approval, MessageStatusHistory,
  LifecycleCommand, FileAsset,
}
use first_brief.Notifications.Model.{
  LifecycleJob, OutboxEvent, NotificationJob, NotificationPolicy, Transition, Zone, Topic,
}
use first_brief.Assurance.Model.{AuditEvent, Detail, RetentionPolicy, LegalHold, PurgeRun}
use first_brief.Assurance.Audit.{Context, record_event}

pub record Db : Type 0 where
  pub messages : Table MessageRow
  pub versions : List MessageVersion
  pub rights : List MessageAudienceRight
  pub approvals : List Approval
  pub history : List MessageStatusHistory
  pub commands : List LifecycleCommand
  pub files : List FileAsset
  pub jobs : List LifecycleJob
  pub outbox : List OutboxEvent
  pub notifications : List NotificationJob
  pub audit : List AuditEvent
  pub legal_holds : List LegalHold
  pub purge_runs : Table PurgeRun

-- What the services read and do not write, and the code outside the repository that they call:
-- `message_fields` and `version_fields` stand for Django's validation of single columns and of
-- uniqueness, `lifecycle_uuid` for `uuid5` of a job's key, `normalise` for
-- `value.strip().casefold()`, `zone_info` for the IANA database `render` for the templates, `send_mail`
-- for the mail server `fresh_uuid` for `uuid4` and
-- `sha256` for the digest of a sorted list of keys.
pub record Env : Type 0 where
  pub context : Context
  pub open context use *
  pub message_type : ℕ → MessageType
  pub message_subtype : ℕ → Option MessageSubType
  pub message_group : ℕ → Option MessageGroup
  pub user_email : ℕ → String
  pub identity_policy : IdentityPolicy
  pub notification_policy : NotificationPolicy
  pub retention_policy : RetentionPolicy
  pub message_fields : Db → Message → Bool
  pub version_fields : Db → MessageVersion → Bool
  pub lifecycle_uuid : ℕ → ℕ → Transition → ℕ
  pub normalise : String → String
  pub zone_info : String → Option Zone
  pub render : Topic → Message → MessageVersion → Result (String × String)
  pub send_mail : String → String → List String → Result (Unit {0})
  pub fresh_uuid : Db → ℕ
  pub sha256 : List ℕ → String

abbrev pub Tx : Type 0 → Type 0
Tx A = Db → Result (A × Db)

infixl 5 ◌>>=◌ ◌>>◌
abbrev pub ◌>>=◌ : {A B : Type 0} → Tx A → (A → Tx B) → Tx B
◌>>=◌ m f db = elim (m db) [ ok (a, db') ↦ f a db' | err e ↦ err e ]

abbrev pub ◌>>◌ : {A B : Type 0} → Tx A → Tx B → Tx B
◌>>◌ m k db = elim (m db) [ ok (a, db') ↦ k db' | err e ↦ err e ]

module _ {A : Type 0} where
  abbrev pub pure : A → Tx A
  pure a db = ok (a, db)

  abbrev pub raise : Error → Tx A
  raise e db = err e

  abbrev pub gets : (Db → A) → Tx A
  gets f db = ok (f db, db)

  abbrev pub or_raise : Error → Option A → Tx A
  or_raise e none db = err e
  or_raise e (some a) db = ok (a, db)

abbrev pub modify : (Db → Db) → Tx (Unit {0})
modify f db = ok (tt, f db)

-- `if not test: raise e`
abbrev pub guard : Bool → Error → Tx (Unit {0})
guard true e db = ok (tt, db)
guard false e db = err e

-- `if test: raise e`
abbrev pub refuse : Bool → Error → Tx (Unit {0})
refuse true e db = err e
refuse false e db = ok (tt, db)

-- `require_capability`
unfoldable pub require_capability : User → String → Tx (Unit {0})
require_capability user codename = guard (has_capability user codename) no_capability

-- `if actor is not None: require_capability(actor, …)`
unfoldable pub require_if_given : Option User → String → Tx (Unit {0})
unfolding require_capability
require_if_given none codename = pure tt
require_if_given (some user) codename = require_capability user codename

-- `Message.objects.get(pk=pk)` and `refresh_from_db`
unfoldable pub get_message : ℕ → Tx Message
get_message pk db = elim (lookup pk db.messages) [
  | none ↦ err does_not_exist
  | some r ↦ ok (record { pk = pk; row = r }, db)
]

-- `Message.objects.filter(pk=pk).update(…)`, whatever the row holds.
unfoldable pub update_message : ℕ → (MessageRow → MessageRow) → Tx (Unit {0})
update_message pk f db = ok (tt, record db { messages = adjust pk f db.messages })

-- `record_event` about a message.
unfoldable pub audit_message :
    Env → String → Option ℕ → Message → Detail → Detail → String → Tx (Unit {0})
audit_message env action actor message before after reason db = ok (
  tt,
  record db {
    audit =
        record_event env.context action actor
          (some (record { class_name = "Message"; key = message.pk })) before after reason db.audit;
  },
)

-- The version of a message with a given number.
abbrev pub is_version : ℕ → ℕ → MessageVersion → Bool
is_version pk number v = v.message_pk == pk && v.version_number == number

-- `message.current_version`, by the number in the instance.
unfoldable pub current_version : Message → Tx MessageVersion
current_version message db =
    elim (find (is_version message.pk message.current_version_number) db.versions) [
      | none ↦ err does_not_exist
      | some v ↦ ok (v, db)
    ]
