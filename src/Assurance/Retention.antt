-- ===== src/Assurance/Retention.antt =====
-- `retention_candidates`, `preview_purge` and `approve_and_execute_purge` of
-- firstbrief/assurance/services.py.
pub mod Purge
use first_brief.Prelude.{
  ℕ, ◌+◌, ◌-◌, ◌*◌, Bool, true, false, ◌&&◌, ◌||◌, not, none, some, List, [], ◌∷◌, ◌++◌, String,
  length, any, contains, filter, update_where, ltb, ◌==◌, if◌then◌else◌, is_some,
}
use first_brief.Prelude.Tables.{Table, lookup, adjust}
use first_brief.Errors.{Error, ok}
use first_brief.Assurance.Model.{Datum, LegalHold, PurgeRun, PurgeStatus}
use first_brief.Assurance.Audit.{record_event}
use first_brief.Identity.Model.{User}
use first_brief.Identity.Access.{manage_retention}
use first_brief.Messaging.Model.{Status, MessageRow, MessageVersion, status_eq}
use first_brief.Notifications.QuietHours.{day}
use first_brief.Store.{
  ◌>>=◌, ◌>>◌, Env, Db, Tx, pure, gets, modify, guard, refuse, or_raise, require_capability,
}

-- `_months_ago`
abbrev pub months_ago : Env → ℕ → ℕ
months_ago env months = env.now - months * 30 * day

-- The two filters on messages that are archived or expired for long enough and not purged.
abbrev pub is_old : Env → MessageRow → Bool
is_old env r =
    not (is_some r.purged_at)
    && (status_eq r.status Status.archived
          && ltb r.updated_at (months_ago env env.retention_policy.archived_months)
        || status_eq r.status Status.expired
          && ltb r.updated_at (months_ago env env.retention_policy.expired_months))

-- `legal_holds__active=True`
unfoldable pub is_held : ℕ → List LegalHold → Bool
is_held pk holds = any (λ h. h.message_pk == pk && h.active) holds

candidates_of : Env → List LegalHold → Table MessageRow → List ℕ
candidates_of env holds [] = []
candidates_of env holds ((pk, r) ∷ t) =
    let rest = candidates_of env holds t in
    if is_old env r && not (is_held pk holds) then pk ∷ rest else rest

unfoldable pub retention_candidates : Env → Db → List ℕ
unfolding candidates_of
retention_candidates env db = candidates_of env db.legal_holds db.messages

-- `record_event(action, actor=…, subject=run, after=…)`
unfoldable pub audit_run : Env → String → ℕ → ℕ → List (String × Datum) → Tx (Unit {0})
audit_run env action actor run_pk after db = ok (
  tt,
  record db {
    audit =
        record_event env.context action (some actor)
          (some (record { class_name = "PurgeRun"; key = run_pk })) [] after "" db.audit;
  },
)

-- The run's primary key is a fresh `uuid4`.
unfoldable pub preview_purge : Env → User → Tx ℕ
unfolding require_capability retention_candidates audit_run
preview_purge env actor = do
  require_capability actor manage_retention
  run_pk ← gets env.fresh_uuid
  candidates ← gets (retention_candidates env)
  modify (λ db. record db {
    purge_runs =
        db.purge_runs
        ++ (
          run_pk,
          record {
            status = PurgeStatus.preview;
            candidates = candidates;
            requested_by_id = actor.pk;
            approved_by_id = none;
            completed_at = none;
            evidence_sha256 = "";
          },
        )
          ∷ [];
  })
  audit_run env "retention.purge.previewed" actor.pk run_pk []
  pure run_pk

abbrev pub is_preview : PurgeStatus → Bool
is_preview PurgeStatus.preview = true
is_preview PurgeStatus.approved = false
is_preview PurgeStatus.complete = false

-- `[pk for pk in locked.candidates if pk in eligible]`
abbrev pub targets_of : PurgeRun → List ℕ → List ℕ
targets_of run eligible = filter (λ pk. contains pk eligible) run.candidates

abbrev pub erased : MessageVersion → MessageVersion
erased v = record v {
  summary = "[Purged under retention policy]";
  text_content = "";
  searchable_content = "";
}

mark_purged : ℕ → List ℕ → Table MessageRow → Table MessageRow
mark_purged now targets [] = []
mark_purged now targets ((pk, r) ∷ t) =
    (pk, (if contains pk targets then record r { purged_at = some now } else r))
    ∷ mark_purged now targets t

-- The two updates of the versions and the messages of the targets.
unfoldable pub erase : ℕ → List ℕ → Db → Db
unfolding mark_purged
erase now targets db = record db {
  versions = update_where (λ v. contains v.message_pk targets) erased db.versions;
  messages = mark_purged now targets db.messages;
}

-- The run with its approver and the digest of its targets.
abbrev pub completed : Env → ℕ → List ℕ → PurgeRun → PurgeRun
completed env actor targets run = record run {
  approved_by_id = some actor;
  status = PurgeStatus.complete;
  completed_at = some env.now;
  evidence_sha256 = env.sha256 targets;
}

-- What `approve_and_execute_purge` writes.
unfoldable pub execute_purge : Env → ℕ → ℕ → List ℕ → Tx (Unit {0})
unfolding erase audit_run
execute_purge env actor run_pk targets = do
  modify (erase env.now targets)
  modify
      (λ db. record db { purge_runs = adjust run_pk (completed env actor targets) db.purge_runs })
  audit_run env "retention.purge.completed" actor run_pk
      (("count", Datum.number (length targets)) ∷ ("sha256", Datum.text (env.sha256 targets)) ∷ [])

unfoldable pub approve_and_execute_purge : Env → User → ℕ → Tx (List ℕ)
unfolding require_capability retention_candidates execute_purge
approve_and_execute_purge env actor run_pk = do
  require_capability actor manage_retention
  stored ← gets (λ db. lookup run_pk db.purge_runs)
  locked ← or_raise Error.does_not_exist stored
  guard (is_preview locked.status) Error.not_a_preview
  refuse (env.retention_policy.require_second_approver && locked.requested_by_id == actor.pk)
      Error.different_approver_required
  eligible ← gets (retention_candidates env)
  execute_purge env actor.pk run_pk (targets_of locked eligible)
  pure (targets_of locked eligible)
