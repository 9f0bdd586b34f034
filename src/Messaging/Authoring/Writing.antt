-- ===== src/Messaging/Authoring/Writing.antt =====
-- What the part of a revision behind its checks writes.
use first_brief.Assurance.Model.{Datum}
use first_brief.Notifications.Model.{LifecycleJob}
use first_brief.Notifications.Schedule.{schedule_message_lifecycle}
use first_brief.Messaging.Rights.{validate_rights}
use first_brief.Messaging.Validation.{version_full_clean}
use first_brief.Store.Laws.{then-ok, bind-ok, get_same}
use first_brief.Prelude.{ℕ, ◌+◌, some, String, List, [], ◌∷◌, ◌++◌, ◌≡◌, arith}
use first_brief.Prelude.Tables.{lookup, adjust, lookup-adjust}
use first_brief.Errors.{ok}
use first_brief.Identity.Model.{User}
use first_brief.Messaging.Model.{Message, MessageRow, MessageVersion, MessageAudienceRight}
use first_brief.Messaging.Authoring.{
  Content, insert_version, replace_rights, bump_version, replacement_of, write_revision,
}
use first_brief.Messaging.Validation.Frame.{version_full_clean_same, validate_rights_same}
use first_brief.Messaging.Lifecycle.Frame.{schedule_frame}
use first_brief.Store.{Db, Env, audit_message, pure, get_message}

abbrev pub revised_row : MessageRow → MessageRow
revised_row r = record r {
  current_version_number = r.current_version_number + 1;
  lock_version = r.lock_version + 1;
}

abbrev pub renumbered : MessageRow → MessageRow → MessageRow
renumbered from r = record r {
  current_version_number = from.current_version_number + 1;
  lock_version = r.lock_version + 1;
}

-- What the part behind the checks writes.
pub record Written (actor : User) (pk expected : ℕ) (content : Content) (locked : Message)
    (previous : MessageVersion) (db : Db) (m : Message) (db' : Db) : Type 0 where
  pub returned : m ≡ record { pk = pk; row = revised_row locked.row }
  pub messages : db'.messages ≡ adjust pk (renumbered locked.row) db.messages
  pub versions : db'.versions ≡ db.versions ++ replacement_of actor locked previous content ∷ []
  pub history : db'.history ≡ db.history
  pub commands : db'.commands ≡ db.commands

module _ (env : Env) (actor : User) (pk expected : ℕ) (content : Content) (reason : String)
    (locked : Message) (previous : MessageVersion) (db : Db) where
  Written-parts :
      {d₃ d₄ d₅ d₆ d₇ c₇ d₈ d₉ db' : Db} {u₃ u₄ u₆ u₇ u₈ : Unit {0}}
      {rights : List MessageAudienceRight} {jobs : List LifecycleJob} {revised m : Message}
      → let replacement = replacement_of actor locked previous content in
        lookup pk db.messages ≡ some locked.row
        → version_full_clean env locked.message_type_id replacement db ≡ ok (u₃, d₃)
        → insert_version replacement d₃ ≡ ok (u₄, d₄)
        → validate_rights env actor locked content.group_rights d₄ ≡ ok (rights, d₅)
        → replace_rights pk rights d₅ ≡ ok (u₆, d₆)
        → bump_version pk expected replacement.version_number d₆ ≡ ok (u₇, d₇)
        → get_message pk d₇ ≡ ok (revised, c₇)
        → audit_message env "message.revised"
            (some actor.pk)
            revised
            (("version", Datum.number previous.version_number) ∷ [])
            (("version", Datum.number replacement.version_number) ∷ [])
            reason
            c₇
          ≡ ok (u₈, d₈)
        → schedule_message_lifecycle env revised d₈ ≡ ok (jobs, d₉)
        → pure revised d₉ ≡ ok (m, db')
        → Written actor pk expected content locked previous db m db'
  unfolding insert_version replace_rights bump_version get_message audit_message
  Written-parts {d₃ = d₃} {d₄ = d₄} {d₅ = d₅} {d₆ = d₆} {d₇ = d₇} {c₇ = c₇} {d₈ = d₈} {d₉ = d₉}
        {revised = revised} found p₃ p₄ p₅ p₆ p₇ p p₈ p₉ r =
      let replacement = replacement_of actor locked previous content in
      let e = get_same pk d₇ p in
      let e₃ = version_full_clean_same db env locked.message_type_id replacement p₃ in
      let e₅ = validate_rights_same env actor locked content.group_rights d₄ p₅ in
      let e₉ = schedule_frame env revised d₈ p₉ in
      record {
        returned = ground (arith, lookup-adjust pk pk (renumbered locked.row) db.messages);
        messages = ground arith;
        versions = ground arith;
        history = ground arith;
        commands = ground arith;
      }

  pub write_revision-Written :
      {m : Message} {db' : Db}
      → lookup pk db.messages ≡ some locked.row
      → write_revision env actor pk expected content reason locked previous db ≡ ok (m, db')
      → Written actor pk expected content locked previous db m db'
  unfolding write_revision
  write_revision-Written found done =
      let replacement = replacement_of actor locked previous content in
      let (u₃, d₃, p₃, r₃) =
        then-ok (version_full_clean env locked.message_type_id replacement) _ db done in
      let (u₄, d₄, p₄, r₄) = then-ok (insert_version replacement) _ d₃ r₃ in
      let (rights, d₅, p₅, r₅) =
        bind-ok (validate_rights env actor locked content.group_rights) _ d₄ r₄ in
      let (u₆, d₆, p₆, r₆) = then-ok (replace_rights pk rights) _ d₅ r₅ in
      let (u₇, d₇, p₇, r₇) =
        then-ok (bump_version pk expected replacement.version_number) _ d₆ r₆ in
      let (revised, c₇, p, r) = bind-ok (get_message pk) _ d₇ r₇ in
      let (u₈, d₈, p₈, r₈) =
        then-ok
          (audit_message env "message.revised" (some actor.pk) revised
            (("version", Datum.number previous.version_number) ∷ [])
            (("version", Datum.number replacement.version_number) ∷ []) reason)
          _ c₇ r in
      let (jobs, d₉, p₉, r₉) = then-ok (schedule_message_lifecycle env revised) _ d₈ r₈ in
      Written-parts found p₃ p₄ p₅ p₆ p₇ p p₈ p₉ r₉
