-- ===== src/Messaging/Authoring.antt =====
-- `create_message` and `revise_message` of firstbrief/messaging/services.py.
pub mod Writing
pub mod Frame
use first_brief.Prelude.{
  ℕ, ◌+◌, Bool, ◌&&◌, ◌||◌, not, Option, none, some, List, [], ◌∷◌, ◌++◌, String, filter, ◌==◌,
  if◌then◌else◌, str_eq,
}
use first_brief.Prelude.Tables.{lookup}
use first_brief.Errors
use first_brief.Errors.{Error, ok, err}
use first_brief.Identity.Model.{User}
use first_brief.Identity.Access.{create_messages, manage_messages}
use first_brief.Messaging.Model.{
  Kind, kind_slug, Status, Message, MessageVersion, MessageAudienceRight, is_in, status_slug,
}
use first_brief.Messaging.Validation.{message_full_clean, version_full_clean, validate_future_dates}
use first_brief.Messaging.Rights.{validate_rights}
use first_brief.Messaging.Transition.{lock_message, update_locked}
use first_brief.Notifications.Schedule.{register_message_created, schedule_message_lifecycle}
use first_brief.Assurance.Model.{Datum}
use first_brief.Store.{
  ◌>>=◌, ◌>>◌, Env, Tx, pure, modify, refuse, require_capability, get_message, audit_message,
  current_version,
}

-- The texts, times and audience that an author enters.
pub record Content : Type 0 where
  pub title : String
  pub summary : String
  pub text_content : String
  pub release_at : ℕ
  pub effective_at : Option ℕ
  pub expiry_at : ℕ
  pub group_rights : List (ℕ × String)

-- What else `create_message` is given. `pk` is the fresh `uuid4` of the row.
pub record Draft : Type 0 where
  pub pk : ℕ
  pub message_id : String
  pub kind : Kind
  pub message_type_id : ℕ
  pub subtype_id : Option ℕ
  pub archive_on_expiry : Bool
  pub approvers : List ℕ

abbrev pub new_message : Env → User → Draft → Message
new_message env actor d = record {
  pk = d.pk;
  row = record {
    message_id = d.message_id;
    kind = d.kind;
    message_type_id = d.message_type_id;
    subtype_id = d.subtype_id;
    originator_id = actor.pk;
    approvers = d.approvers;
    status =
        if (env.message_type d.message_type_id).requires_approval
        then Status.draft
        else Status.approved_pending_release;
    lock_version = 1;
    current_version_number = 1;
    archive_on_expiry = d.archive_on_expiry;
    supersedes_id = none;
    updated_at = env.now;
    purged_at = none;
  };
}

abbrev pub version_of : ℕ → ℕ → ℕ → Content → String → MessageVersion
version_of pk number author c searchable = record {
  message_pk = pk;
  version_number = number;
  title = c.title;
  summary = c.summary;
  text_content = c.text_content;
  searchable_content = searchable;
  release_at = c.release_at;
  effective_at = c.effective_at;
  expiry_at = c.expiry_at;
  created_by = author;
}

-- `message.save()` of a new row; a primary key that is taken is an integrity error.
unfoldable pub insert_message : Message → Tx (Unit {0})
insert_message message db = elim (lookup message.pk db.messages) [
  | some r ↦ err Error.integrity_error
  | none ↦ ok (tt, record db { messages = db.messages ++ (message.pk, message.row) ∷ [] })
]

unfoldable pub insert_version : MessageVersion → Tx (Unit {0})
insert_version v db = ok (tt, record db { versions = db.versions ++ v ∷ [] })

-- `MessageAudienceRight.objects.bulk_create(rights)`
unfoldable pub insert_rights : List MessageAudienceRight → Tx (Unit {0})
insert_rights rights db = ok (tt, record db { rights = db.rights ++ rights })

-- The history row and the audit event of a new message.
unfoldable pub record_creation : Env → User → Message → Tx (Unit {0})
unfolding audit_message
record_creation env actor message = do
  modify (λ db. record db {
    history =
        db.history
        ++ record {
          message_pk = message.pk;
          from_status = none;
          to_status = message.status;
          actor_id = some actor.pk;
          reason = "Message created.";
          aggregate_version = message.lock_version;
        }
          ∷ [];
  })
  audit_message env "message.created" (some actor.pk) message []
      (("message_id", Datum.text message.message_id)
        ∷ ("kind", Datum.text (kind_slug message.kind))
        ∷ ("status", Datum.text (status_slug message.status))
        ∷ [])
      ""

unfoldable pub create_message : Env → User → Draft → Content → Tx Message
create_message env actor draft content = do
  require_capability actor create_messages
  validate_future_dates env.now content.release_at content.effective_at content.expiry_at
  let message = new_message env actor draft
  message_full_clean env message
  insert_message message
  let version = version_of message.pk 1 actor.pk content content.text_content
  version_full_clean env message.message_type_id version
  insert_version version
  rights ← validate_rights env actor message content.group_rights
  insert_rights rights
  record_creation env actor message
  register_message_created env message env.now
  pure message

-- The states in which the title and the release time are fixed.
abbrev pub released_states : List Status
released_states =
    Status.effective ∷ Status.expired ∷ Status.archived ∷ Status.cancelled ∷ Status.withdrawn ∷ []

-- `audience_rights.all().delete()` and the new rows.
unfoldable pub replace_rights : ℕ → List MessageAudienceRight → Tx (Unit {0})
replace_rights pk rights db =
    ok (tt, record db { rights = filter (λ r. not (r.message_pk == pk)) db.rights ++ rights })

abbrev pub searchable_text : String → String → String
searchable_text text previous = if str_eq text "" then previous else text

-- A new current version, under the lock.
unfoldable pub bump_version : ℕ → ℕ → ℕ → Tx (Unit {0})
unfolding update_locked
bump_version pk expected_version number =
    update_locked pk expected_version
      (λ r. record r { current_version_number = number; lock_version = r.lock_version + 1 })

abbrev pub replacement_of : User → Message → MessageVersion → Content → MessageVersion
replacement_of actor locked previous content =
    version_of locked.pk (locked.current_version_number + 1) actor.pk content
      (searchable_text content.text_content previous.searchable_content)

-- `revise_message` behind its checks: the new version, the new audience and the schedule.
unfoldable pub write_revision :
    Env → User → ℕ → ℕ → Content → String → Message → MessageVersion → Tx Message
write_revision env actor pk expected_version content reason locked previous = do
  let replacement = replacement_of actor locked previous content
  version_full_clean env locked.message_type_id replacement
  insert_version replacement
  rights ← validate_rights env actor locked content.group_rights
  replace_rights pk rights
  bump_version pk expected_version replacement.version_number
  revised ← get_message pk
  audit_message env "message.revised" (some actor.pk) revised
      (("version", Datum.number previous.version_number) ∷ [])
      (("version", Datum.number replacement.version_number) ∷ []) reason
  schedule_message_lifecycle env revised
  pure revised

-- The title and the release time of a message that has become effective are fixed.
abbrev pub changes_released : Message → MessageVersion → Content → Bool
changes_released locked previous content =
    is_in locked.status released_states
    && (not (str_eq content.title previous.title)
        || not (content.release_at == previous.release_at))

unfoldable pub revise_message : Env → User → ℕ → ℕ → Content → String → Tx Message
revise_message env actor pk expected_version content reason = do
  require_capability actor manage_messages
  locked ← lock_message pk expected_version
  previous ← current_version locked
  refuse (changes_released locked previous content) Error.title_or_release_changed
  write_revision env actor pk expected_version content reason locked previous
