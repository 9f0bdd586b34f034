-- ===== src/Messaging/Lifecycle.antt =====
-- The lifecycle commands of firstbrief/messaging/services.py. `message` is the caller's instance,
-- which may be older than the row; `at` is the optional time of a scheduled run.
pub mod Frame
use first_brief.Prelude.{
  ℕ, ◌+◌, ◌*◌, max, Bool, true, false, ◌&&◌, ◌||◌, not, Option, none, some, List, [], ◌∷◌, ◌++◌,
  String, any, contains, ltb, leb, ◌==◌, if◌then◌else◌, is_blank, some_and, or_else, update_where,
}
use first_brief.Errors
use first_brief.Errors.{Error}
use first_brief.Configuration.{MessageSubType}
use first_brief.Identity.Model.{User}
use first_brief.Identity.Access.{approve_messages, manage_messages}
use first_brief.Messaging.Model.{
  Status, Command, FileRole, FileAsset, Message, MessageVersion, status_eq,
}
use first_brief.Messaging.Validation.{version_full_clean, is_pdf}
use first_brief.Messaging.Transition.{command_by, lock_message, transition}
use first_brief.Notifications.QuietHours.{day}
use first_brief.Notifications.Schedule.{register_message_approved}
use first_brief.Store.{
  ◌>>=◌, ◌>>◌, Db, Env, Tx, pure, gets, modify, guard, refuse, or_raise, require_if_given,
  current_version, is_version,
}

abbrev role_in : FileRole → FileRole → Bool
role_in FileRole.display FileRole.display = true
role_in FileRole.print FileRole.print = true
role_in _ _ = false

has_file : MessageVersion → FileRole → List FileAsset → Bool
has_file v role = any (λ f.
    f.message_pk == v.message_pk && f.version_number == v.version_number && role_in f.role role)

-- `roles != {DISPLAY, PRINT}` of a version of a PDF message type
unfoldable pub pdfs_absent : Env → ℕ → MessageVersion → Db → Bool
unfolding has_file
pdfs_absent env type_id v db =
    is_pdf (env.message_type type_id).default_content_type
    && not (has_file v FileRole.display db.files && has_file v FileRole.print db.files)

-- An approval after the release time moves the release to now, and the effective time not before it.
abbrev pub moved_to : ℕ → MessageVersion → MessageVersion
moved_to now v = record v {
  release_at = now;
  effective_at = elim v.effective_at [ none ↦ none | some e ↦ some (max e now) ];
}

-- `full_clean` and `save` of the moved version; the row is fixed once the message is approved.
unfoldable pub bring_forward : Env → ℕ → Message → MessageVersion → Tx MessageVersion
bring_forward env now locked v =
    if ltb v.release_at now
    then (do
      version_full_clean env locked.message_type_id (moved_to now v)
      guard (status_eq locked.status Status.draft) Error.version_immutable
      modify (λ db. record db {
        versions =
            update_where (is_version locked.pk v.version_number) (λ _. moved_to now v) db.versions;
      })
      pure (moved_to now v))
    else pure v

-- `(minimum and days < minimum) or (maximum and days > maximum)`, multiplied out to microseconds.
abbrev pub outside_bounds : MessageSubType → ℕ → ℕ → Bool
outside_bounds s effective_at expiry_at =
    (not (s.minimum_validity_days == 0)
      && ltb expiry_at (effective_at + s.minimum_validity_days * day))
    || (not (s.maximum_validity_days == 0)
        && ltb (effective_at + s.maximum_validity_days * day) expiry_at)

check_bounds : Env → Option ℕ → Option ℕ → ℕ → String → Tx (Unit {0})
check_bounds env (some subtype_id) (some effective_at) expiry_at justification = do
  subtype ← or_raise Error.subtype_missing (env.message_subtype subtype_id)
  refuse (outside_bounds subtype effective_at expiry_at && is_blank justification)
      Error.validity_not_justified
check_bounds env none effective_at expiry_at justification = pure tt
check_bounds env (some subtype_id) none expiry_at justification = pure tt

abbrev not_assigned : User → Message → Bool
not_assigned actor message =
    has_any message.approvers && not actor.is_superuser && not (contains actor.pk message.approvers)
  where
    has_any : List ℕ → Bool
    has_any [] = false
    has_any (x ∷ xs) = true

-- The checks of `approve_message` behind the replay and the lock, and the row of the approval.
unfoldable pub approve_checked : Env → User → Message → String → String → ℕ → Tx (Unit {0})
unfolding check_bounds
approve_checked env actor locked justification validity_justification now = do
  guard (status_eq locked.status Status.draft) Error.not_draft
  refuse (not_assigned actor locked) Error.not_assigned_approver
  version ← current_version locked
  absent ← gets (pdfs_absent env locked.message_type_id version)
  refuse absent Error.pdfs_missing
  version' ← bring_forward env now locked version
  check_bounds env locked.subtype_id version'.effective_at version'.expiry_at validity_justification
  modify (λ db. record db {
    approvals =
        db.approvals
        ++ record {
          message_pk = locked.pk;
          version_number = version'.version_number;
          actor_id = actor.pk;
          justification = justification;
          validity_justification = validity_justification;
        }
          ∷ [];
  })

unfoldable pub approve_message : Env → User → ℕ → ℕ → String → String → ℕ → Option ℕ → Tx Message
approve_message env actor pk expected_version justification validity_justification key at =
    command_by (some actor) approve_messages pk key Command.approve (do
      refuse (is_blank justification) Error.justification_required
      locked ← lock_message pk expected_version
      let now = or_else at env.now
      approve_checked env actor locked justification validity_justification now
      approved ←
          transition env pk (some actor.pk) expected_version key Command.approve (Status.draft ∷ [])
            Status.approved_pending_release justification
      register_message_approved env approved now
      pure approved)

abbrev pub actor_id : Option User → Option ℕ
actor_id none = none
actor_id (some user) = some user.pk

-- The state after a release: it waits for a later effective time.
abbrev pub release_target : ℕ → MessageVersion → Status
release_target now v =
    if some_and v.effective_at (λ e. ltb now e)
    then Status.released_pending_effective
    else Status.effective

unfoldable pub release_message : Env → Option User → Message → ℕ → ℕ → Option ℕ → Tx Message
release_message env actor message expected_version key at =
    command_by actor manage_messages message.pk key Command.release (do
      version ← current_version message
      let now = or_else at env.now
      absent ← gets (pdfs_absent env message.message_type_id version)
      refuse absent Error.pdfs_missing
      refuse (ltb now version.release_at) Error.not_due_for_release
      transition env message.pk (actor_id actor) expected_version key Command.release
          (Status.approved_pending_release ∷ []) (release_target now version)
          "Release time reached.")

unfoldable pub make_effective : Env → Option User → Message → ℕ → ℕ → Option ℕ → Tx Message
unfolding require_if_given
make_effective env actor message expected_version key at =
    command_by actor manage_messages message.pk key Command.become_effective (do
      version ← current_version message
      guard (some_and version.effective_at (λ e. leb e (or_else at env.now)))
          Error.not_due_to_be_effective
      transition env message.pk (actor_id actor) expected_version key Command.become_effective
          (Status.released_pending_effective ∷ []) Status.effective "Effective time reached.")

unfoldable pub expire_message : Env → Option User → Message → ℕ → ℕ → Option ℕ → Tx Message
expire_message env actor message expected_version key at =
    command_by actor manage_messages message.pk key Command.expire (do
      version ← current_version message
      refuse (ltb (or_else at env.now) version.expiry_at) Error.not_due_to_expire
      transition env message.pk (actor_id actor) expected_version key Command.expire
          (Status.effective ∷ []) Status.expired "Expiry time reached.")

unfoldable pub archive_message : Env → Option User → Message → ℕ → ℕ → Tx Message
archive_message env actor message expected_version key =
    command_by actor manage_messages message.pk key Command.archive (do
      refuse (not message.archive_on_expiry && status_eq message.status Status.expired)
          Error.automatic_archive_disabled
      transition env message.pk (actor_id actor) expected_version key Command.archive
          (Status.expired ∷ Status.cancelled ∷ Status.withdrawn ∷ []) Status.archived
          "Message archived.")
