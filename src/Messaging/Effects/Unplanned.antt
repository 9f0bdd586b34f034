-- ===== src/Messaging/Effects/Unplanned.antt =====
-- What restoring a message leaves out.
use first_brief.Prelude.{
  ℕ, Option, String, [], ◌∷◌, ◌≡◌, ◌∙◌, inl, inr, ap, if◌then◌else◌, str_eq, some,
}
use first_brief.Errors.{ok}
use first_brief.Identity.Model.{User}
use first_brief.Messaging.Model.{Message, Status, Command}
use first_brief.Messaging.Withdrawal.{restore_message}
use first_brief.Messaging.Transition.Laws.{transition-Moved}
use first_brief.Messaging.Effects.Restoring.{restore_ran, add_restored_version-Renumbered}
use first_brief.Store.{Db, Env}

-- Restoring a message leaves the table of lifecycle jobs as it was: it plans no job for the
-- version that it adds.
pub restore_plans_nothing :
    (env : Env) (actor : User) (message : Message) (expected : ℕ) (future_expiry_at : Option ℕ)
    (reason : String) (key : ℕ) (db : Db) {m : Message} {db' : Db}
    → restore_message env actor message expected future_expiry_at reason key db ≡ ok (m, db')
    → db'.jobs ≡ db.jobs
restore_plans_nothing env actor message expected future_expiry_at reason key db done =
    elim (restore_ran env actor message expected future_expiry_at reason key db done) [
      | inl replayed ↦ ap (λ d. d.jobs) replayed.unchanged
      | inr r ↦
          let renumbered =
            add_restored_version-Renumbered env actor r.expiry_at r.locked db r.add in
          elim (transition-Moved env message.pk (some actor.pk) expected key Command.restore
            (Status.archived ∷ []) Status.effective
            (if str_eq reason "" then "Message restored." else reason) r.renumbered r.move) [
              | inl again ↦ ap (λ d. d.jobs) again.unchanged ∙ renumbered.jobs
              | inr h ↦ h.jobs ∙ renumbered.jobs
            ]
    ]
