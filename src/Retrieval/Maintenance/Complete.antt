-- ===== src/Retrieval/Maintenance/Complete.antt =====
-- The maintenance page offers every command that would succeed.
use first_brief.Store.Laws.{refuse-ok, bind-current_version}
use first_brief.Messaging.Transition.Laws.{may, command_by-ok}
use first_brief.Prelude.{
  ℕ, true, ◌&&◌, ◌≡◌, ◌<◌, refl, arith, none, some, Option, List, String, find, inl, inr, ◌++◌, ltb,
  ◌∷◌, [], is_blank, leb,
}
use first_brief.Prelude.Tables.{lookup}
use first_brief.Errors.{ok, Error, Gives}
use first_brief.Identity.Model.{User}
use first_brief.Identity.Access.{has_capability, approve_messages}
use first_brief.Messaging.Model.{Message, Status, Command, MessageVersion, status_eq, is_in}
use first_brief.Messaging.Requests.{Request, run, command_of, actor_of, capability_of}
use first_brief.Messaging.Guarantees.{run-Outcome, authorised}
use first_brief.Messaging.StateMachine.{Step}
use first_brief.Messaging.Transition.{has_key}
use first_brief.Messaging.Withdrawal.{unapprove_message}
use first_brief.Retrieval.Maintenance.{
  Action, offers, when, before_unapprove, after_unapprove, may_unapprove,
  permitted_maintenance_actions,
}
use first_brief.Store.{Db, Env, is_version, current_version}

-- What the page shows, where the version is there.
offered :
    (env : Env) (actor : User) (message : Message) (db : Db) (v : MessageVersion)
    → find (is_version message.pk message.current_version_number) db.versions ≡ some v
    → permitted_maintenance_actions env actor message db
      ≡ ok (
        before_unapprove actor message
            ++ (when
                  (status_eq message.status Status.approved_pending_release
                    && has_capability actor approve_messages
                    && ltb env.now v.release_at)
                  Action.unapprove
                ++ after_unapprove actor message),
        db,
      )
unfolding permitted_maintenance_actions may_unapprove current_version
offered env actor message db v found = ground arith

-- The states in which a command may start.
abbrev sources : Command → List Status
sources Command.approve = Status.draft ∷ []
sources Command.unapprove = Status.approved_pending_release ∷ []
sources Command.release = Status.approved_pending_release ∷ []
sources Command.withdraw = Status.approved_pending_release ∷ Status.released_pending_effective ∷ []
sources Command.become_effective = Status.released_pending_effective ∷ []
sources Command.cancel = Status.released_pending_effective ∷ Status.effective ∷ []
sources Command.expire = Status.effective ∷ []
sources Command.archive = Status.expired ∷ Status.cancelled ∷ Status.withdrawn ∷ []
sources Command.restore = Status.archived ∷ []

step-source : {s t : Status} {c : Command} → Step s c t → is_in s (sources c) ≡ true
step-source Step.approve = refl
step-source Step.unapprove = refl
step-source Step.release = refl
step-source Step.release_at_once = refl
step-source Step.withdraw = refl
step-source Step.become_effective = refl
step-source Step.withdraw_released = refl
step-source Step.cancel_released = refl
step-source Step.expire = refl
step-source Step.cancel = refl
step-source Step.archive = refl
step-source Step.archive_cancelled = refl
step-source Step.archive_withdrawn = refl
step-source Step.restore = refl

-- The action of the page that stands for a command.
abbrev pub action_of : Request → Option Action
action_of (Request.approve _ _ _ _) = some Action.approve
action_of (Request.withdraw _ _) = some Action.withdraw
action_of (Request.cancel _ _) = some Action.cancel
action_of (Request.unapprove _ _) = some Action.unapprove
action_of (Request.restore _ _ _) = some Action.restore
action_of _ = none

module _ (env : Env) (message : Message) (expected key : ℕ) (db : Db) (v : MessageVersion)
    {m : Message} {db' : Db} where
  -- The state and the right behind a command that ran on the row that the page shows.
  started :
      (q : Request)
      → lookup message.pk db.messages ≡ some message.row
      → find (has_key message.pk key) db.commands ≡ none
      → run env q message expected key db ≡ ok (m, db')
      → (is_in message.status (sources (command_of q)) ≡ true)
        × (may (actor_of q) (capability_of q) ≡ true)
  started q fresh unused done = elim (run-Outcome env q message expected key db done) [
    | inl r ↦ cc (r.found, unused)
    | inr h ↦
        let same : h.from ≡ message.row = ground (arith, h.found, fresh) in
        let source = step-source h.step in
        (rw same at source, authorised env q message expected key db done)
  ]

  unapprove_in_time :
      (actor : User) (reason : String)
      → find (is_version message.pk message.current_version_number) db.versions ≡ some v
      → find (has_key message.pk key) db.commands ≡ none
      → unapprove_message env actor message expected reason key db ≡ ok (m, db')
      → env.now < v.release_at
  unfolding unapprove_message
  unapprove_in_time actor reason found unused done = elim (command_by-ok _ _ _ _ _ _ db done).1 [
    | inl r ↦ cc (r.found, unused)
    | inr (_, ran) ↦
        let (given, more) = refuse-ok (is_blank reason) Error.reason_required _ db ran in
        let (w, there, rest) = bind-current_version message _ db more in
        let (early, _) = refuse-ok (leb w.release_at env.now) Error.past_release_time _ db rest in
        ground (arith, early, there, found)
  ]

  -- The maintenance page offers every command that would succeed: if approving, withdrawing,
  -- cancelling, unapproving or restoring the shown message, by the actor and with a new key, would
  -- succeed, its action is among those listed for the actor, and listing them changes nothing.
  pub maintenance_offers :
      (q : Request) (actor : User) (a : Action)
      → actor_of q ≡ some actor
      → action_of q ≡ some a
      → find (is_version message.pk message.current_version_number) db.versions ≡ some v
      → lookup message.pk db.messages ≡ some message.row
      → find (has_key message.pk key) db.commands ≡ none
      → run env q message expected key db ≡ ok (m, db')
      → Gives
          (permitted_maintenance_actions env actor message db)
          (λ r. (offers a r.0 ≡ true) × (r.1 ≡ db))
  unfolding offers
  maintenance_offers (Request.approve user why validity at) actor a who what found fresh unused
        done =
      let (state, right) = started (Request.approve user why validity at) fresh unused done in
      (_, offered env actor message db v found, (ground arith, refl))
  maintenance_offers (Request.withdraw user reason) actor a who what found fresh unused done =
      let (state, right) = started (Request.withdraw user reason) fresh unused done in
      (_, offered env actor message db v found, (ground arith, refl))
  maintenance_offers (Request.cancel user reason) actor a who what found fresh unused done =
      let (state, right) = started (Request.cancel user reason) fresh unused done in
      (_, offered env actor message db v found, (ground arith, refl))
  maintenance_offers (Request.restore user at reason) actor a who what found fresh unused done =
      let (state, right) = started (Request.restore user at reason) fresh unused done in
      (_, offered env actor message db v found, (ground arith, refl))
  maintenance_offers (Request.unapprove user reason) actor a who what found fresh unused done =
      let (state, right) = started (Request.unapprove user reason) fresh unused done in
      let early = unapprove_in_time user reason found unused done in
      (_, offered env actor message db v found, (ground arith, refl))
  maintenance_offers (Request.release user at) actor a who what found fresh unused done =
      ground arith
  maintenance_offers (Request.become_effective user at) actor a who what found fresh unused done =
      ground arith
  maintenance_offers (Request.expire user at) actor a who what found fresh unused done =
      ground arith
  maintenance_offers (Request.archive user) actor a who what found fresh unused done = ground arith
