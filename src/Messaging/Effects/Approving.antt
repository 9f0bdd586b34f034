-- ===== src/Messaging/Effects/Approving.antt =====
-- `approve_message` writes versions, approvals, jobs and the outbox around its transition, and takes
-- one step of the state machine.
use first_brief.Prelude.{
  ℕ, Option, none, some, [], ◌∷◌, String, find, ◌≡◌, ◌⊎◌, inl, inr, arith, or_else, is_blank, ap,
}
use first_brief.Errors.{Error, ok}
use first_brief.Identity.Model.{User}
use first_brief.Messaging.Model.{Status, Command, Message, is_in-one}
use first_brief.Messaging.Transition.{transition, has_key, lock_message}
use first_brief.Messaging.Transition.Laws.{Replayed, command_by-ok, lock_same}
use first_brief.Messaging.Lifecycle.{approve_message, approve_checked}
use first_brief.Messaging.Lifecycle.Frame.{approve_checked_frame, approved_frame}
use first_brief.Messaging.StateMachine.{Step, Effect}
use first_brief.Messaging.Effects.{Outcome, transition-Effect}
use first_brief.Notifications.Schedule.{register_message_approved}
use first_brief.Store.{Db, Env, refuse}
use first_brief.Store.Laws.{bind-ok, then-ok, refuse_same}

-- An effect between two databases that differ from the outer ones in other tables only.
module _ {pk expected key : ℕ} {command : Command} {m : Message} {db db₁ db₂ db' : Db} where
  pub Effect-widen :
      db₁.messages ≡ db.messages
      → db₁.history ≡ db.history
      → db₁.commands ≡ db.commands
      → db'.messages ≡ db₂.messages
      → db'.history ≡ db₂.history
      → db'.commands ≡ db₂.commands
      → Effect pk expected key command db₁ m db₂
      → Effect pk expected key command db m db'
  Effect-widen em eh ec em' eh' ec' h = record {
    from = h.from;
    to = h.to;
    actor_id = h.actor_id;
    reason = h.reason;
    unused = ground (arith, h.unused);
    found = ground (arith, h.found);
    current = h.current;
    step = h.step;
    bumped = h.bumped;
    returned = h.returned;
    written = λ j. ground (arith, h.written j);
    history = ground (arith, h.history);
    commands = ground (arith, h.commands);
  }

module _ (env : Env) (actor : User) (pk expected : ℕ) (why validity : String) (key : ℕ)
    (at : Option ℕ) (db : Db) where
  -- The four parts of an approval that runs, and the databases between them.
  pub record ApproveRun (m : Message) (db' : Db) : Type 0 where
    pub locked : Message
    pub checked : Db
    pub moved : Db
    pub unused : find (has_key pk key) db.commands ≡ none
    pub lock : lock_message pk expected db ≡ ok (locked, db)
    pub check :
        approve_checked env actor locked why validity (or_else at env.now) db ≡ ok (tt, checked)
    pub move :
        transition env pk
          (some actor.pk)
          expected
          key
          Command.approve
          (Status.draft ∷ [])
          Status.approved_pending_release
          why
          checked
        ≡ ok (m, moved)
    pub register : register_message_approved env m (or_else at env.now) moved ≡ ok (tt, db')

  pub approve_ran :
      {m : Message} {db' : Db}
      → approve_message env actor pk expected why validity key at db ≡ ok (m, db')
      → Replayed pk key Command.approve db m db' ⊎ ApproveRun m db'
  unfolding approve_message
  approve_ran done = elim (command_by-ok _ _ _ _ _ _ db done).1 [
    | inl replayed ↦ inl replayed
    | inr (unused, ran) ↦
        let now = or_else at env.now in
        let (u, db₀, justified, r₁) =
          then-ok (refuse (is_blank why) Error.justification_required) _ db ran in
        let (locked, db₁, lock, r₂) = bind-ok (lock_message pk expected) _ db₀ r₁ in
        let (v, checked, check, r₃) =
          then-ok (approve_checked env actor locked why validity now) _ db₁ r₂ in
        let (m₁, moved, move, r₄) =
          bind-ok
            (transition env pk (some actor.pk) expected key Command.approve (Status.draft ∷ [])
              Status.approved_pending_release why)
            _ checked r₃ in
        let (w, db₂, register, end) = then-ok (register_message_approved env m₁ now) _ moved r₄ in
        let e₀ : db₀ ≡ db = refuse_same _ _ justified in
        let e₁ : db₁ ≡ db₀ = lock_same pk expected db₀ lock in
        inr (record {
          locked = locked;
          checked = checked;
          moved = moved;
          unused = unused;
          lock = cc (lock, e₀, e₁);
          check = cc (check, e₀, e₁);
          move = cc (move, end);
          register = cc (register, end);
        })
  ]

  pub approve-Outcome :
      {m : Message} {db' : Db}
      → approve_message env actor pk expected why validity key at db ≡ ok (m, db')
      → Outcome pk expected key Command.approve db m db'
  approve-Outcome {m} done = elim (approve_ran done) [
    | inl replayed ↦ inl replayed
    | inr r ↦
        let now = or_else at env.now in
        let before = approve_checked_frame env db actor r.locked why validity now r.check in
        let after = approved_frame env m now r.moved r.register in
        inr (
          Effect-widen (ap (λ d. d.messages) before) (ap (λ d. d.history) before)
            (ap (λ d. d.commands) before) (ap (λ d. d.messages) after) (ap (λ d. d.history) after)
            (ap (λ d. d.commands) after)
            (transition-Effect env pk (some actor.pk) expected key Command.approve
              (Status.draft ∷ []) Status.approved_pending_release why r.checked
              (λ s h. rw (is_in-one s Status.draft h) Step.approve)
              (cc (r.unused, ap (λ d. d.commands) before)) r.move))
  ]
