-- ===== src/Assurance/Retention/Purge.antt =====
-- What a purge erases, and what it cannot erase.
use first_brief.Messaging.History.{status_of, IsRecorded}
use first_brief.Prelude.{
  ℕ, ◌&&◌, true, false, some, List, [], ◌∷◌, ◌≡◌, refl, arith, filter, contains, update_where, ◌==◌,
  inl, inr, Bool-cases, Option-cases,
}
use first_brief.Prelude.Tables.{Table, lookup, adjust, lookup-adjust}
use first_brief.Errors.{Error, ok, err}
use first_brief.Assurance.Model.{PurgeRun, LegalHold}
use first_brief.Assurance.Retention.{
  is_preview, is_held, candidates_of, retention_candidates, targets_of, mark_purged, erase, erased,
  execute_purge, approve_and_execute_purge, completed, audit_run,
}
use first_brief.Identity.Model.{User}
use first_brief.Identity.Access.{has_capability, manage_retention}
use first_brief.Messaging.Model.{MessageRow, MessageVersion}
use first_brief.Store.{Db, Env, require_capability}

-- What a purge that succeeds found and wrote.
record Purged (env : Env) (actor : User) (run_pk : ℕ) (db : Db) (targets : List ℕ) (db' : Db)
    : Type 0 where
  run : PurgeRun
  may : has_capability actor manage_retention ≡ true
  found : lookup run_pk db.purge_runs ≡ some run
  preview : is_preview run.status ≡ true
  second : (env.retention_policy.require_second_approver && run.requested_by_id == actor.pk) ≡ false
  chosen : targets ≡ targets_of run (retention_candidates env db)
  messages : db'.messages ≡ mark_purged env.now targets db.messages
  versions : db'.versions ≡ update_where (λ v. contains v.message_pk targets) erased db.versions
  runs : db'.purge_runs ≡ adjust run_pk (completed env actor.pk targets) db.purge_runs
  history : db'.history ≡ db.history

purge-Purged :
    (env : Env) (actor : User) (run_pk : ℕ) (db : Db) {targets : List ℕ} {db' : Db}
    → approve_and_execute_purge env actor run_pk db ≡ ok (targets, db')
    → Purged env actor run_pk db targets db'
unfolding approve_and_execute_purge require_capability execute_purge erase audit_run
purge-Purged env actor run_pk db done = elim (Option-cases (lookup run_pk db.purge_runs)) [
  | inl missing ↦ ground arith
  | inr (run, found) ↦ ground arith
]

candidates_skip_held :
    (env : Env) (pk : ℕ) (holds : List LegalHold) (t : Table MessageRow)
    → is_held pk holds ≡ true
    → contains pk (candidates_of env holds t) ≡ false
unfolding candidates_of contains
candidates_skip_held env pk holds [] held = refl
candidates_skip_held env pk holds ((j, r) ∷ t) held =
    let rest = candidates_skip_held env pk holds t held in
    elim (Bool-cases (pk == j)) [
      | inl same ↦ ground (arith, rest)
      | inr other ↦ ground (arith, rest)
    ]

filter_skips :
    (pk : ℕ) (eligible candidates : List ℕ)
    → contains pk eligible ≡ false
    → contains pk (filter (λ j. contains j eligible) candidates) ≡ false
unfolding filter contains
filter_skips pk eligible [] h = refl
filter_skips pk eligible (j ∷ js) h =
    let rest = filter_skips pk eligible js h in
    elim (Bool-cases (pk == j)) [
      | inl same ↦ ground (arith, rest)
      | inr other ↦ ground (arith, rest)
    ]

lookup-mark_purged :
    (now pk : ℕ) (targets : List ℕ) (t : Table MessageRow)
    → contains pk targets ≡ false
    → lookup pk (mark_purged now targets t) ≡ lookup pk t
unfolding mark_purged lookup
lookup-mark_purged now pk targets [] h = refl
lookup-mark_purged now pk targets ((j, r) ∷ t) h =
    let rest = lookup-mark_purged now pk targets t h in
    elim (Bool-cases (pk == j)) [
      | inl same ↦ ground (arith, rest)
      | inr other ↦ ground (arith, rest)
    ]

abbrev pub versions_of : ℕ → List MessageVersion → List MessageVersion
versions_of pk vs = filter (λ v. v.message_pk == pk) vs

versions-erased :
    (pk : ℕ) (targets : List ℕ) (vs : List MessageVersion)
    → contains pk targets ≡ false
    → versions_of pk (update_where (λ v. contains v.message_pk targets) erased vs)
      ≡ versions_of pk vs
unfolding filter update_where
versions-erased pk targets [] h = refl
versions-erased pk targets (v ∷ vs) h =
    let rest = versions-erased pk targets vs h in
    elim (Bool-cases (v.message_pk == pk)) [
      | inl same ↦ ground (arith, rest)
      | inr other ↦ elim (Bool-cases (contains v.message_pk targets)) [
        | inl target ↦ ground (arith, rest)
        | inr kept ↦ ground (arith, rest)
      ]
    ]

-- A purge that succeeds leaves the row and all versions of a message under an active legal hold as
-- they were, also where the hold was set after the preview.
pub purge_spares_held :
    (env : Env) (actor : User) (run_pk pk : ℕ) (db : Db) {targets : List ℕ} {db' : Db}
    → is_held pk db.legal_holds ≡ true
    → approve_and_execute_purge env actor run_pk db ≡ ok (targets, db')
    → (lookup pk db'.messages ≡ lookup pk db.messages)
      × (versions_of pk db'.versions ≡ versions_of pk db.versions)
unfolding retention_candidates
purge_spares_held env actor run_pk pk db {targets} held done =
    let p = purge-Purged env actor run_pk db done in
    let spared : contains pk targets ≡ false = rw p.chosen (
      filter_skips pk (retention_candidates env db) p.run.candidates
        (candidates_skip_held env pk db.legal_holds db.messages held)) in
    (
      rw p.messages (lookup-mark_purged env.now pk targets db.messages spared),
      rw p.versions (versions-erased pk targets db.versions spared),
    )

-- A purge run that was executed cannot be executed again: a second approval, by anyone with the
-- capability, is refused because the run is no longer a preview.
pub purge_runs_once :
    (env : Env) (actor actor' : User) (run_pk : ℕ) (db : Db) {targets : List ℕ} {db' : Db}
    → approve_and_execute_purge env actor run_pk db ≡ ok (targets, db')
    → has_capability actor' manage_retention ≡ true
    → approve_and_execute_purge env actor' run_pk db' ≡ err Error.not_a_preview
unfolding approve_and_execute_purge require_capability
purge_runs_once env actor actor' run_pk db {targets} done may =
    let p = purge-Purged env actor run_pk db done in
    ground (
      arith,
      p.runs,
      lookup-adjust run_pk run_pk (completed env actor.pk targets) db.purge_runs,
      p.found,
    )

status-mark_purged :
    (now pk : ℕ) (targets : List ℕ) (t : Table MessageRow)
    → status_of (lookup pk (mark_purged now targets t)) ≡ status_of (lookup pk t)
unfolding mark_purged lookup
status-mark_purged now pk targets [] = refl
status-mark_purged now pk targets ((j, r) ∷ t) = ground (arith, status-mark_purged now pk targets t)

-- A purge that succeeds keeps the status history true: it changes no status of a message and no
-- entry of the history.
pub purge-IsRecorded :
    (env : Env) (actor : User) (run_pk : ℕ) (db : Db) {targets : List ℕ} {db' : Db}
    → IsRecorded db
    → approve_and_execute_purge env actor run_pk db ≡ ok (targets, db')
    → IsRecorded db'
      × (db'.history ≡ db.history)
      × ((pk : ℕ) → status_of (lookup pk db'.messages) ≡ status_of (lookup pk db.messages))
purge-IsRecorded env actor run_pk db {targets} i done =
    let p = purge-Purged env actor run_pk db done in
    (
      record {
        chain = rw p.history i.chain;
        last = λ pk. ground (
          arith,
          p.history,
          p.messages,
          i.last pk,
          status-mark_purged env.now pk targets db.messages,
        );
      },
      p.history,
      λ pk. rw p.messages (status-mark_purged env.now pk targets db.messages),
    )
