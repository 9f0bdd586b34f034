-- ===== src/Messaging/Authoring/Frame.antt =====
-- What creating and revising write.
use first_brief.Messaging.Transition.Laws.{lock_same, lock-ok}
use first_brief.Messaging.Transition.{lock_message}
use first_brief.Notifications.Schedule.{register_message_created}
use first_brief.Messaging.Rights.{validate_rights}
use first_brief.Messaging.Validation.{validate_future_dates, message_full_clean, version_full_clean}
use first_brief.Identity.Access.{create_messages, manage_messages}
use first_brief.Store.Laws.{then-ok, bind-ok, current_same, refuse_same, current-ok, refuse-passed}
use first_brief.Messaging.Authoring.Writing.{revised_row, renumbered, write_revision-Written}
use first_brief.Prelude.{
  if◌then◌else◌, ℕ, ◌+◌, some, none, String, List, [], ◌∷◌, ◌++◌, ◌≡◌, arith, find, false, ◌∙◌,
  true, Bool-cases, inl, str_eq-same, inr,
}
use first_brief.Prelude.Tables.{lookup, adjust}
use first_brief.Errors.{ok, Error}
use first_brief.Identity.Model.{User}
use first_brief.Messaging.Model.{
  Message, MessageVersion, MessageAudienceRight, MessageStatusHistory, is_in, Status,
}
use first_brief.Messaging.Authoring.{
  create_message, Draft, Content, new_message, version_of, insert_message, insert_version,
  insert_rights, record_creation, revise_message, changes_released, write_revision, str_eq,
}
use first_brief.Messaging.Validation.Frame.{
  require_same, message_full_clean_same, version_full_clean_same, validate_future_dates_same,
  validate_rights_same,
}
use first_brief.Messaging.Lifecycle.Frame.{created_frame}
use first_brief.Store.{Db, Env, is_version, require_capability, pure, current_version, refuse}

abbrev pub creation_row : User → Message → MessageStatusHistory
creation_row actor m = record {
  message_pk = m.pk;
  from_status = none;
  to_status = m.status;
  actor_id = some actor.pk;
  reason = "Message created.";
  aggregate_version = 1;
}

pub record Created (env : Env) (actor : User) (draft : Draft) (content : Content) (db : Db)
    (m : Message) (db' : Db) : Type 0 where
  pub fresh : lookup draft.pk db.messages ≡ none
  pub needs_approval :
      (env.message_type draft.message_type_id).requires_approval ≡ true → m.status ≡ Status.draft
  pub needs_none :
      (env.message_type draft.message_type_id).requires_approval ≡ false
      → m.status ≡ Status.approved_pending_release
  pub returned : m ≡ record {
    pk = draft.pk;
    row = record {
      message_id = draft.message_id;
      kind = draft.kind;
      message_type_id = draft.message_type_id;
      subtype_id = draft.subtype_id;
      originator_id = actor.pk;
      approvers = draft.approvers;
      status = m.status;
      lock_version = 1;
      current_version_number = 1;
      archive_on_expiry = draft.archive_on_expiry;
      supersedes_id = none;
      updated_at = env.now;
      purged_at = none;
    };
  }
  pub messages : db'.messages ≡ db.messages ++ (m.pk, m.row) ∷ []
  pub versions :
      db'.versions
      ≡ db.versions
        ++ record {
          message_pk = draft.pk;
          version_number = 1;
          title = content.title;
          summary = content.summary;
          text_content = content.text_content;
          searchable_content = content.text_content;
          release_at = content.release_at;
          effective_at = content.effective_at;
          expiry_at = content.expiry_at;
          created_by = actor.pk;
        }
          ∷ []
  pub history : db'.history ≡ db.history ++ creation_row actor m ∷ []
  pub commands : db'.commands ≡ db.commands

-- The parts of a creation, put together.
Created-parts :
    (env : Env) (actor : User) (draft : Draft) (content : Content) (db : Db)
    {d₀ d₁ d₂ d₃ d₄ d₅ d₆ d₇ d₈ d₉ db' : Db} {u₀ u₁ u₂ u₃ u₄ u₅ u₇ u₈ u₉ : Unit {0}}
    {rights : List MessageAudienceRight} {m : Message}
    → let message = new_message env actor draft in
      let version = version_of message.pk 1 actor.pk content content.text_content in
      require_capability actor create_messages db ≡ ok (u₀, d₀)
      → validate_future_dates env.now content.release_at content.effective_at content.expiry_at d₀
        ≡ ok (u₁, d₁)
      → message_full_clean env message d₁ ≡ ok (u₂, d₂)
      → insert_message message d₂ ≡ ok (u₃, d₃)
      → version_full_clean env message.message_type_id version d₃ ≡ ok (u₄, d₄)
      → insert_version version d₄ ≡ ok (u₅, d₅)
      → validate_rights env actor message content.group_rights d₅ ≡ ok (rights, d₆)
      → insert_rights rights d₆ ≡ ok (u₇, d₇)
      → record_creation env actor message d₇ ≡ ok (u₈, d₈)
      → register_message_created env message env.now d₈ ≡ ok (u₉, d₉)
      → pure message d₉ ≡ ok (m, db')
      → Created env actor draft content db m db'
unfolding insert_message insert_version insert_rights record_creation
Created-parts env actor draft content db {d₀} {d₁} {d₂} {d₃} {d₄} {d₅} {d₆} {d₇} {d₈} {d₉} p₀ p₁ p₂
      p₃ p₄ p₅ p₆ p₇ p₈ p₉ r₉ =
    let message = new_message env actor draft in
    let version = version_of message.pk 1 actor.pk content content.text_content in
    let e₀ = require_same db actor create_messages p₀ in
    let e₁ =
      validate_future_dates_same d₀ env.now content.release_at content.effective_at
        content.expiry_at p₁ in
    let e₂ = message_full_clean_same d₁ env message p₂ in
    let e₄ = version_full_clean_same d₃ env message.message_type_id version p₄ in
    let e₆ = validate_rights_same env actor message content.group_rights d₅ p₆ in
    let e₉ = created_frame env message env.now d₈ p₉ in ground arith

-- A message that was created is a draft, or approved where its type needs no approval, at lock
-- version 1 under a key that was free, with the kind, type and approvers of the draft and the
-- actor as originator, with its content as version 1, one history row that starts from no status,
-- and no command; the message, version and history rows that were there before stay in front of
-- the new ones.
pub create_message-Created :
    (env : Env) (actor : User) (draft : Draft) (content : Content) (db : Db) {m : Message}
    {db' : Db}
    → create_message env actor draft content db ≡ ok (m, db')
    → Created env actor draft content db m db'
unfolding create_message
create_message-Created env actor draft content db done =
    let message = new_message env actor draft in
    let version = version_of message.pk 1 actor.pk content content.text_content in
    let (u₀, d₀, p₀, r₀) = then-ok (require_capability actor create_messages) _ db done in
    let (u₁, d₁, p₁, r₁) =
      then-ok
        (validate_future_dates env.now content.release_at content.effective_at content.expiry_at) _
        d₀ r₀ in
    let (u₂, d₂, p₂, r₂) = then-ok (message_full_clean env message) _ d₁ r₁ in
    let (u₃, d₃, p₃, r₃) = then-ok (insert_message message) _ d₂ r₂ in
    let (u₄, d₄, p₄, r₄) =
      then-ok (version_full_clean env message.message_type_id version) _ d₃ r₃ in
    let (u₅, d₅, p₅, r₅) = then-ok (insert_version version) _ d₄ r₄ in
    let (rights, d₆, p₆, r₆) =
      bind-ok (validate_rights env actor message content.group_rights) _ d₅ r₅ in
    let (u₇, d₇, p₇, r₇) = then-ok (insert_rights rights) _ d₆ r₆ in
    let (u₈, d₈, p₈, r₈) = then-ok (record_creation env actor message) _ d₇ r₇ in
    let (u₉, d₉, p₉, r₉) = then-ok (register_message_created env message env.now) _ d₈ r₈ in
    Created-parts env actor draft content db p₀ p₁ p₂ p₃ p₄ p₅ p₆ p₇ p₈ p₉ r₉

-- What a revision writes.
pub record Revised (actor : User) (pk expected : ℕ) (content : Content) (db : Db) (m : Message)
    (db' : Db) : Type 0 where
  pub locked : Message
  pub previous : MessageVersion
  pub same_pk : locked.pk ≡ pk
  pub found : lookup pk db.messages ≡ some locked.row
  pub current : locked.lock_version ≡ expected
  pub version : find (is_version pk locked.current_version_number) db.versions ≡ some previous
  pub kept :
      is_in locked.status (
          Status.effective ∷ Status.expired ∷ Status.archived ∷ Status.cancelled ∷ Status.withdrawn
          ∷ [])
        ≡ true
      → (content.title ≡ previous.title) × (content.release_at ≡ previous.release_at)
  pub returned : m ≡ record { pk = pk; row = revised_row locked.row }
  pub messages : db'.messages ≡ adjust pk (renumbered locked.row) db.messages
  pub versions :
      db'.versions
      ≡ db.versions
        ++ record {
          message_pk = pk;
          version_number = locked.current_version_number + 1;
          title = content.title;
          summary = content.summary;
          text_content = content.text_content;
          searchable_content =
              if str_eq content.text_content ""
              then previous.searchable_content
              else content.text_content;
          release_at = content.release_at;
          effective_at = content.effective_at;
          expiry_at = content.expiry_at;
          created_by = actor.pk;
        }
          ∷ []
  pub history : db'.history ≡ db.history
  pub commands : db'.commands ≡ db.commands

-- Where the status is one that fixes them, a title and a release time that pass are the old ones.
unchanged-released :
    (locked : Message) (previous : MessageVersion) (content : Content)
    → changes_released locked previous content ≡ false
    → is_in locked.status (
        Status.effective ∷ Status.expired ∷ Status.archived ∷ Status.cancelled ∷ Status.withdrawn
        ∷ [])
      ≡ true
    → (content.title ≡ previous.title) × (content.release_at ≡ previous.release_at)
unchanged-released locked previous content passed fixed =
    elim (Bool-cases (str_eq content.title previous.title)) [
      | inl same ↦
          (str_eq-same content.title previous.title same, ground (arith, passed, fixed, same))
      | inr other ↦ ground (arith, passed, fixed, other)
    ]

Revised-parts :
    (env : Env) (actor : User) (pk expected : ℕ) (content : Content) (reason : String)
    (locked : Message) (previous : MessageVersion) (db d₀ d₁ d₂ d₃ : Db) {u₀ u₂ : Unit {0}}
    {m : Message} {db' : Db}
    → require_capability actor manage_messages db ≡ ok (u₀, d₀)
    → lock_message pk expected d₀ ≡ ok (locked, d₁)
    → current_version locked d₁ ≡ ok (previous, d₂)
    → refuse (changes_released locked previous content) Error.title_or_release_changed d₂
      ≡ ok (u₂, d₃)
    → write_revision env actor pk expected content reason locked previous d₃ ≡ ok (m, db')
    → Revised actor pk expected content db m db'
Revised-parts env actor pk expected content reason locked previous db d₀ d₁ d₂ d₃ p₀ p₁ pv p₂ r =
    let e₀ = require_same db actor manage_messages p₀ in
    let e₁ = lock_same pk expected d₀ p₁ in
    let e₂ = current_same locked d₁ pv in
    let e₃ =
      refuse_same (changes_released locked previous content) Error.title_or_release_changed p₂ in
    let e : d₃ ≡ db = e₃ ∙ (e₂ ∙ (e₁ ∙ e₀)) in
    let (found, same_pk, at_version) = lock-ok pk expected d₀ p₁ in
    let w =
      write_revision-Written env actor pk expected content reason locked previous db
        (rw e₀ at found) (rw e at r) in
    record {
      locked = locked;
      previous = previous;
      same_pk = same_pk;
      found = rw e₀ at found;
      current = at_version;
      version = current-ok pk locked db previous same_pk (rw (e₁ ∙ e₀) at pv);
      kept =
          unchanged-released locked previous content
            (refuse-passed _ Error.title_or_release_changed d₂ p₂);
      returned = w.returned;
      messages = w.messages;
      versions = rw same_pk at w.versions;
      history = w.history;
      commands = w.commands;
    }

-- A revision that succeeds had the expected lock version and, where the status is one that fixes
-- them, kept the title and the release time, namely for an effective, expired, archived, cancelled
-- or withdrawn message; it adds one version with the content, whose searchable text is the new
-- text or, where that is blank, the old one, and which becomes the current one, leaves the earlier
-- versions, the status, the history and the commands as they were, changes no other message row,
-- and returns the row with the next version number and the next lock version.
pub revise_message-Revised :
    (env : Env) (actor : User) (pk expected : ℕ) (content : Content) (reason : String) (db : Db)
    {m : Message} {db' : Db}
    → revise_message env actor pk expected content reason db ≡ ok (m, db')
    → Revised actor pk expected content db m db'
unfolding revise_message
revise_message-Revised env actor pk expected content reason db done =
    let (u₀, d₀, p₀, r₀) = then-ok (require_capability actor manage_messages) _ db done in
    let (locked, d₁, p₁, r₁) = bind-ok (lock_message pk expected) _ d₀ r₀ in
    let (previous, d₂, pv, r₂) = bind-ok (current_version locked) _ d₁ r₁ in
    let (u₂, d₃, p₂, r₃) =
      then-ok (refuse (changes_released locked previous content) Error.title_or_release_changed) _
        d₂ r₂ in
    Revised-parts env actor pk expected content reason locked previous db d₀ d₁ d₂ d₃ p₀ p₁ pv p₂ r₃
