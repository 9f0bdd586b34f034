-- ===== src/Messaging/Effects.antt =====
-- Each lifecycle command, when it succeeds with a new key, takes one step of the state machine.
pub mod Approving
pub mod Restoring
pub mod Unplanned
use first_brief.Prelude.{
  ℕ, ◌+◌, true, Option, none, some, List, [], ◌∷◌, String, find, ◌≡◌, ◌⊎◌, inl, inr, arith, or_else,
  Bool-cases, some_and, ltb,
}
use first_brief.Errors.{ok}
use first_brief.Identity.Model.{User}
use first_brief.Messaging.Model.{Status, Command, Message, MessageVersion, is_in, is_in-one}
use first_brief.Messaging.Transition.{transition, has_key}
use first_brief.Messaging.Transition.Laws.{Replayed, Moved, transition-Moved, command_by-ok}
use first_brief.Messaging.Lifecycle.{
  actor_id, release_message, release_target, make_effective, expire_message, archive_message,
}
use first_brief.Messaging.Withdrawal.{withdraw_message, cancel_message, unapprove_message}
use first_brief.Messaging.StateMachine.{Step, Effect, Moved-Effect}
use first_brief.Messaging.StateMachine
use first_brief.Store.Laws.{bind-current_version}
use first_brief.Store.{Db, Env, current_version}

module _ (env : Env) (pk : ℕ) (actor_id : Option ℕ) (expected key : ℕ) (command : Command)
    (allowed : List Status) (target : Status) (reason : String) (db : Db) {m : Message}
    {db' : Db} where
  -- A transition behind the replay of its command.
  transition-Effect :
      ((s : Status) → is_in s allowed ≡ true → Step s command target)
      → find (has_key pk key) db.commands ≡ none
      → transition env pk actor_id expected key command allowed target reason db ≡ ok (m, db')
      → Effect pk expected key command db m db'
  transition-Effect steps unused done =
      elim (transition-Moved env pk actor_id expected key command allowed target reason db done) [
        | inl r ↦ absurd (ground (arith, unused, r.found))
        | inr h ↦ Moved-Effect h steps
      ]

abbrev pub Outcome : ℕ → ℕ → ℕ → Command → Db → Message → Db → Type 0
Outcome pk expected key command db m db' =
    Replayed pk key command db m db' ⊎ Effect pk expected key command db m db'

archive_steps :
    (s : Status)
    → is_in s (Status.expired ∷ Status.cancelled ∷ Status.withdrawn ∷ []) ≡ true
    → Step s Command.archive Status.archived
archive_steps Status.expired h = Step.archive
archive_steps Status.cancelled h = Step.archive_cancelled
archive_steps Status.withdrawn h = Step.archive_withdrawn
archive_steps _ h = absurd (ground arith)

withdraw_steps :
    (s : Status)
    → is_in s (Status.approved_pending_release ∷ Status.released_pending_effective ∷ []) ≡ true
    → Step s Command.withdraw Status.withdrawn
withdraw_steps Status.approved_pending_release h = Step.withdraw
withdraw_steps Status.released_pending_effective h = Step.withdraw_released
withdraw_steps _ h = absurd (ground arith)

cancel_steps :
    (s : Status)
    → is_in s (Status.released_pending_effective ∷ Status.effective ∷ []) ≡ true
    → Step s Command.cancel Status.cancelled
cancel_steps Status.released_pending_effective h = Step.cancel_released
cancel_steps Status.effective h = Step.cancel
cancel_steps _ h = absurd (ground arith)

release_steps :
    (now : ℕ) (v : MessageVersion) (s : Status)
    → is_in s (Status.approved_pending_release ∷ []) ≡ true
    → Step s Command.release (release_target now v)
release_steps now v s h =
    rw (is_in-one s Status.approved_pending_release h)
      (elim (Bool-cases (some_and v.effective_at (λ e. ltb now e))) [
        | inl later ↦ rw later Step.release
        | inr at_once ↦ rw at_once Step.release_at_once
      ])

module _ (env : Env) (message : Message) (expected key : ℕ) (db : Db) {m : Message} {db' : Db} where
  pub release-Outcome :
      (actor : Option User) (at : Option ℕ)
      → release_message env actor message expected key at db ≡ ok (m, db')
      → Outcome message.pk expected key Command.release db m db'
  unfolding release_message
  release-Outcome actor at done = elim (command_by-ok _ _ _ _ _ _ db done).1 [
    | inl replayed ↦ inl replayed
    | inr (unused, ran) ↦
        let (v, current, checks) = bind-current_version message _ db ran in
        inr (
          transition-Effect env message.pk (actor_id actor) expected key Command.release
            (Status.approved_pending_release ∷ []) (release_target (or_else at env.now) v)
            "Release time reached." db (release_steps (or_else at env.now) v) unused (ground arith))
  ]

  pub make_effective-Outcome :
      (actor : Option User) (at : Option ℕ)
      → make_effective env actor message expected key at db ≡ ok (m, db')
      → Outcome message.pk expected key Command.become_effective db m db'
  unfolding make_effective current_version
  make_effective-Outcome actor at done = elim (command_by-ok _ _ _ _ _ _ db done).1 [
    | inl replayed ↦ inl replayed
    | inr (unused, ran) ↦ inr (
        transition-Effect env message.pk (actor_id actor) expected key Command.become_effective
          (Status.released_pending_effective ∷ []) Status.effective "Effective time reached." db
          (λ s h. rw (is_in-one s Status.released_pending_effective h) Step.become_effective) unused
          (ground arith))
  ]

  pub expire-Outcome :
      (actor : Option User) (at : Option ℕ)
      → expire_message env actor message expected key at db ≡ ok (m, db')
      → Outcome message.pk expected key Command.expire db m db'
  unfolding expire_message current_version
  expire-Outcome actor at done = elim (command_by-ok _ _ _ _ _ _ db done).1 [
    | inl replayed ↦ inl replayed
    | inr (unused, ran) ↦ inr (
        transition-Effect env message.pk (actor_id actor) expected key Command.expire
          (Status.effective ∷ []) Status.expired "Expiry time reached." db
          (λ s h. rw (is_in-one s Status.effective h) Step.expire) unused (ground arith))
  ]

  pub archive-Outcome :
      (actor : Option User)
      → archive_message env actor message expected key db ≡ ok (m, db')
      → Outcome message.pk expected key Command.archive db m db'
  unfolding archive_message
  archive-Outcome actor done = elim (command_by-ok _ _ _ _ _ _ db done).1 [
    | inl replayed ↦ inl replayed
    | inr (unused, ran) ↦ inr (
        transition-Effect env message.pk (actor_id actor) expected key Command.archive
          (Status.expired ∷ Status.cancelled ∷ Status.withdrawn ∷ []) Status.archived
          "Message archived." db archive_steps unused (ground arith))
  ]

  pub withdraw-Outcome :
      (actor : User) (reason : String)
      → withdraw_message env actor message expected reason key db ≡ ok (m, db')
      → Outcome message.pk expected key Command.withdraw db m db'
  unfolding withdraw_message current_version
  withdraw-Outcome actor reason done = elim (command_by-ok _ _ _ _ _ _ db done).1 [
    | inl replayed ↦ inl replayed
    | inr (unused, ran) ↦ inr (
        transition-Effect env message.pk (some actor.pk) expected key Command.withdraw
          (Status.approved_pending_release ∷ Status.released_pending_effective ∷ [])
          Status.withdrawn reason db withdraw_steps unused (ground arith))
  ]

  pub cancel-Outcome :
      (actor : User) (reason : String)
      → cancel_message env actor message expected reason key db ≡ ok (m, db')
      → Outcome message.pk expected key Command.cancel db m db'
  unfolding cancel_message
  cancel-Outcome actor reason done = elim (command_by-ok _ _ _ _ _ _ db done).1 [
    | inl replayed ↦ inl replayed
    | inr (unused, ran) ↦ inr (
        transition-Effect env message.pk (some actor.pk) expected key Command.cancel
          (Status.released_pending_effective ∷ Status.effective ∷ []) Status.cancelled reason db
          cancel_steps unused (ground arith))
  ]

  pub unapprove-Outcome :
      (actor : User) (reason : String)
      → unapprove_message env actor message expected reason key db ≡ ok (m, db')
      → Outcome message.pk expected key Command.unapprove db m db'
  unfolding unapprove_message current_version
  unapprove-Outcome actor reason done = elim (command_by-ok _ _ _ _ _ _ db done).1 [
    | inl replayed ↦ inl replayed
    | inr (unused, ran) ↦ inr (
        transition-Effect env message.pk (some actor.pk) expected key Command.unapprove
          (Status.approved_pending_release ∷ []) Status.draft reason db
          (λ s h. rw (is_in-one s Status.approved_pending_release h) Step.unapprove) unused
          (ground arith))
  ]
