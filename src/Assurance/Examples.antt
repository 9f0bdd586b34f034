-- ===== src/Assurance/Examples.antt =====
-- The theorems about the purge, applied to a run over two old messages, one of them held.
use first_brief.Prelude.Tables.{lookup}
use first_brief.Prelude.{
  contains, ℕ, none, some, true, List, [], ◌∷◌, ◌≡◌, refl, any, filter, arith,
}
use first_brief.Errors.{Result, Error, ok, err}
use first_brief.Assurance.Model.{PurgeStatus}
use first_brief.Assurance.Retention.{
  approve_and_execute_purge, retention_candidates, execute_purge, erase, audit_run, is_held,
}
use first_brief.Assurance.Retention.Purge.{
  purge_spares_held, purge_runs_once, purge-IsRecorded, versions_of,
}
use first_brief.Identity.Access.{has_capability}
use first_brief.Messaging.Scenarios.{desk, manager, office, live_row}
use first_brief.Messaging.Model.{Status}
use first_brief.Messaging.History.{IsRecorded, IsChain, last_status, status_of}
use first_brief.Store.{Db, Env, require_capability}

-- Some years after the last save of the messages.
abbrev later_desk : Env
later_desk = record desk { context = record { now = 200000000000000; correlation_id = "c2" } }

abbrev archive : Db
archive = record office {
  messages =
      (1, record live_row { status = Status.archived })
      ∷ (2, record live_row { message_id = "B-2"; status = Status.archived })
      ∷ [];
  history =
      record {
        message_pk = 1;
        from_status = none;
        to_status = Status.archived;
        actor_id = some 7;
        reason = "Message created.";
        aggregate_version = 1;
      }
      ∷ record {
        message_pk = 2;
        from_status = none;
        to_status = Status.archived;
        actor_id = some 7;
        reason = "Message created.";
        aggregate_version = 1;
      }
      ∷ [];
  legal_holds = record { message_pk = 2; active = true } ∷ [];
  purge_runs =
      (
        30,
        record {
          status = PurgeStatus.preview;
          candidates = 1 ∷ 2 ∷ [];
          requested_by_id = 8;
          approved_by_id = none;
          completed_at = none;
          evidence_sha256 = "";
        },
      )
      ∷ [];
}

abbrev database_of : Result (List ℕ × Db) → Db
database_of (ok (targets, db)) = db
database_of (err e) = archive

abbrev after_purge : Db
after_purge = database_of (approve_and_execute_purge later_desk manager 30 archive)

purging_runs : approve_and_execute_purge later_desk manager 30 archive ≡ ok (1 ∷ [], after_purge)
unfolding approve_and_execute_purge require_capability has_capability retention_candidates
    execute_purge erase audit_run lookup any filter contains is_held
purging_runs = refl

purge_spares_held_example :
    (lookup 2 after_purge.messages ≡ lookup 2 archive.messages)
    × (versions_of 2 after_purge.versions ≡ versions_of 2 archive.versions)
unfolding is_held any
purge_spares_held_example = purge_spares_held later_desk manager 30 2 archive refl purging_runs

purge_runs_once_example :
    approve_and_execute_purge later_desk manager 30 after_purge ≡ err Error.not_a_preview
unfolding has_capability
purge_runs_once_example = purge_runs_once later_desk manager manager 30 archive purging_runs refl

archive-IsRecorded : IsRecorded archive
unfolding last_status lookup
archive-IsRecorded = record {
  chain = IsChain.snoc _ (IsChain.snoc _ IsChain.nil refl refl) refl refl;
  last = λ pk. ground arith;
}

purge-IsRecorded_example :
    IsRecorded after_purge
    × (after_purge.history ≡ archive.history)
    × ((pk : ℕ)
        → status_of (lookup pk after_purge.messages) ≡ status_of (lookup pk archive.messages))
purge-IsRecorded_example =
    purge-IsRecorded later_desk manager 30 archive archive-IsRecorded purging_runs
