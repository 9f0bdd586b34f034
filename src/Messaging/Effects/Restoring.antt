-- ===== src/Messaging/Effects/Restoring.antt =====
-- `restore_message` adds a version before its transition, and takes one step of the state machine.
use first_brief.Prelude.{
  ℕ, ◌+◌, Option, none, some, [], ◌∷◌, ◌++◌, List, String, find, true, refl, ◌≡◌, ◌⊎◌, inl, inr,
  arith, if◌then◌else◌, str_eq, leb,
}
use first_brief.Prelude.Tables.{lookup, adjust, lookup-adjust}
use first_brief.Errors.{Error, ok}
use first_brief.Identity.Model.{User}
use first_brief.Messaging.Model.{
  Status, Command, Message, MessageRow, MessageVersion, is_in-one, is_in,
}
use first_brief.Messaging.Transition.{transition, has_key, move, lock_message}
use first_brief.Messaging.Transition.Laws.{
  Replayed, Moved, transition-Moved, command_by-ok, lock_same, lock-ok,
}
use first_brief.Messaging.Withdrawal.{restore_message, restored_version, add_restored_version}
use first_brief.Messaging.Validation.{version_full_clean}
use first_brief.Messaging.StateMachine.{Step, Effect}
use first_brief.Messaging.Effects.{Outcome}
use first_brief.Store.{Db, Env, current_version, or_raise, refuse}
use first_brief.Store.Laws.{bind-ok, then-ok, refuse_same, or_raise-ok, bind-current_version}

abbrev pub renumber : ℕ → ℕ → MessageRow → MessageRow
renumber number now row = record row { current_version_number = number; updated_at = now }

-- What `add_restored_version` writes.
pub record Renumbered (now number : ℕ) (pk : ℕ) (db db' : Db) : Type 0 where
  pub added : MessageVersion
  pub number_of : added.version_number ≡ number
  pub messages : db'.messages ≡ adjust pk (renumber number now) db.messages
  pub versions : db'.versions ≡ db.versions ++ added ∷ []
  pub history : db'.history ≡ db.history
  pub commands : db'.commands ≡ db.commands
  pub jobs : db'.jobs ≡ db.jobs

pub add_restored_version-Renumbered :
    (env : Env) (actor : User) (expiry_at : ℕ) (locked : Message) (db : Db) {db' : Db}
    {u : Unit {0}}
    → add_restored_version env actor expiry_at locked db ≡ ok (u, db')
    → Renumbered env.now (locked.current_version_number + 1) locked.pk db db'
unfolding add_restored_version current_version version_full_clean
add_restored_version-Renumbered env actor expiry_at locked db {db'} done =
    let (v, current, rest) = bind-current_version locked _ db done in
    record {
      added = restored_version (locked.current_version_number + 1) v actor.pk expiry_at;
      number_of = refl;
      messages = ground arith;
      versions = ground arith;
      history = ground arith;
      commands = ground arith;
      jobs = ground arith;
    }

-- A transition from a renumbered row is a transition from the row.
module _ {pk expected key now number : ℕ} {actor_id : Option ℕ} {command : Command}
    {allowed : List Status} {target : Status} {reason : String} {m : Message}
    {db db₁ db' : Db} where
  from_status :
      (r : MessageRow)
      → lookup pk db.messages ≡ some r
      → Renumbered now number pk db db₁
      → (h : Moved pk actor_id expected key command allowed target reason db₁ m db')
      → r.status ≡ h.from.status
  from_status r found n h =
      ground
        (arith, found, n.messages, h.found, lookup-adjust pk pk (renumber number now) db.messages)

  Renumbered-Effect :
      (r : MessageRow)
      → lookup pk db.messages ≡ some r
      → Renumbered now number pk db db₁
      → Moved pk actor_id expected key command allowed target reason db₁ m db'
      → ((s : Status) → is_in s allowed ≡ true → Step s command target)
      → Effect pk expected key command db m db'
  Renumbered-Effect r found n h steps = record {
    from = r;
    to = move target (renumber number now r);
    actor_id = actor_id;
    reason = reason;
    unused = ground (arith, h.unused, n.commands);
    found = found;
    current = ground (
      arith,
      found,
      n.messages,
      h.found,
      h.current,
      lookup-adjust pk pk (renumber number now) db.messages,
    );
    step = rw (from_status r found n h) (steps h.from.status h.permitted);
    bumped = omega arith;
    returned = ground (
      arith,
      found,
      n.messages,
      h.found,
      h.returned,
      lookup-adjust pk pk (renumber number now) db.messages,
    );
    written = λ j. ground (
      arith,
      found,
      n.messages,
      h.messages,
      lookup-adjust j pk (renumber number now) db.messages,
      lookup-adjust j pk (move target) db₁.messages,
    );
    history = ground (
      arith,
      found,
      n.messages,
      n.history,
      h.history,
      h.found,
      lookup-adjust pk pk (renumber number now) db.messages,
    );
    commands = ground (
      arith,
      found,
      n.messages,
      n.commands,
      h.commands,
      h.found,
      lookup-adjust pk pk (renumber number now) db.messages,
    );
  }

module _ (env : Env) (actor : User) (message : Message) (expected : ℕ) (future_expiry_at : Option ℕ)
    (reason : String) (key : ℕ) (db : Db) where
  abbrev reason_or_default : String
  reason_or_default = if str_eq reason "" then "Message restored." else reason

  -- The parts of a restoring that runs, and the database between them.
  pub record RestoreRun (m : Message) (db' : Db) : Type 0 where
    pub expiry_at : ℕ
    pub locked : Message
    pub renumbered : Db
    pub unused : find (has_key message.pk key) db.commands ≡ none
    pub given : future_expiry_at ≡ some expiry_at
    pub lock : lock_message message.pk expected db ≡ ok (locked, db)
    pub add : add_restored_version env actor expiry_at locked db ≡ ok (tt, renumbered)
    pub move :
        transition env message.pk
          (some actor.pk)
          expected
          key
          Command.restore
          (Status.archived ∷ [])
          Status.effective
          reason_or_default
          renumbered
        ≡ ok (m, db')

  pub restore_ran :
      {m : Message} {db' : Db}
      → restore_message env actor message expected future_expiry_at reason key db ≡ ok (m, db')
      → Replayed message.pk key Command.restore db m db' ⊎ RestoreRun m db'
  unfolding restore_message
  restore_ran {m} done = elim (command_by-ok _ _ _ _ _ _ db done).1 [
    | inl replayed ↦ inl replayed
    | inr (unused, ran) ↦
        let (expiry_at, db₀, given, r₁) =
          bind-ok (or_raise Error.expiry_required future_expiry_at) _ db ran in
        let (u, db₁, in_future, r₂) =
          then-ok (refuse (leb expiry_at env.now) Error.expiry_not_in_future) _ db₀ r₁ in
        let (locked, db₂, lock, r₃) = bind-ok (lock_message message.pk expected) _ db₁ r₂ in
        let (v, renumbered, add, move) =
          then-ok (add_restored_version env actor expiry_at locked) _ db₂ r₃ in
        let e₀ : (db₀ ≡ db) × (future_expiry_at ≡ some expiry_at) = or_raise-ok _ _ given in
        let e₁ : db₁ ≡ db₀ = refuse_same _ _ in_future in
        let e₂ : db₂ ≡ db₁ = lock_same message.pk expected db₁ lock in
        inr (record {
          expiry_at = expiry_at;
          locked = locked;
          renumbered = renumbered;
          unused = unused;
          given = e₀.1;
          lock = cc (lock, e₀.0, e₁, e₂);
          add = cc (add, e₀.0, e₁, e₂);
          move = move;
        })
  ]

  pub restore-Outcome :
      {m : Message} {db' : Db}
      → restore_message env actor message expected future_expiry_at reason key db ≡ ok (m, db')
      → Outcome message.pk expected key Command.restore db m db'
  restore-Outcome {m} {db'} done = elim (restore_ran done) [
    | inl replayed ↦ inl replayed
    | inr r ↦
        let (found, same_pk, at_version) = lock-ok message.pk expected db r.lock in
        let renumbered = add_restored_version-Renumbered env actor r.expiry_at r.locked db r.add in
        elim (transition-Moved env message.pk (some actor.pk) expected key Command.restore
          (Status.archived ∷ []) Status.effective reason_or_default r.renumbered r.move) [
            | inl again ↦ absurd (ground (arith, again.found, r.unused, renumbered.commands))
            | inr h ↦ inr (
                Renumbered-Effect r.locked.row found (rw same_pk at renumbered) h
                  (λ s p. rw (is_in-one s Status.archived p) Step.restore))
          ]
  ]
