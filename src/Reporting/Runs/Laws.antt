-- ===== src/Reporting/Runs/Laws.antt =====
-- A complete run says how many rows it has.
use first_brief.Prelude.{
  ℕ, ◌≤◌, String, ◌≡◌, refl, inl, inr, Bool, true, false, [], ◌∷◌, ◌++◌, arith, if◌then◌else◌, ltb,
  ◌==◌, All, length, Bool-cases, Option-cases,
}
use first_brief.Identity.Access.{has_capability}
use first_brief.Errors.{Result, ok, Result-cases, err, Error}
use first_brief.Prelude.Tables.{adjust, Table}
use first_brief.Identity.Model.{User}
use first_brief.Reporting.Runs.{
  ReportRun, Runs, Office, build_report, CriteriaOf, create_report_run, limited, store_run, end_run,
  execute_queued_report, ReportResult, queue_run, queued_run, serialise_criteria, fail_run,
  view_reports, complete_run, finish_run, save_run, start_run,
}

-- What a stored run promises.
pub record Truthful (r : ReportRun) : Type 0 where
  pub counted : r.row_count ≡ length r.rows
  pub bounded : length r.rows ≤ 10000

abbrev pub AllTruthful : Runs → Type 0
AllTruthful s = All (λ x. Truthful x.1) s.runs

-- The two ways to work on runs.
pub data Task : Type 0 where
  create : User → String → CriteriaOf → Bool → Task
  execute : ℕ → ReportRun → Task

abbrev state_after : Runs → Result (ℕ × Runs) → Runs
state_after s (ok (pk, s')) = s'
state_after s (err e) = s

-- The state after a task, also where it raised.
unfoldable pub after : Office → Task → Runs → Runs
after o (Task.create actor report_code criteria force_async) s =
    state_after s (create_report_run o actor report_code criteria force_async s)
after o (Task.execute pk run) s = (execute_queued_report o pk run s).state

build_report-bounded :
    (o : Office) (actor : User) (report_code : String) (criteria : CriteriaOf) {r : ReportResult}
    → build_report o actor report_code criteria ≡ ok r
    → length r.rows ≤ 10000
unfolding build_report limited
build_report-bounded o actor report_code criteria {r} done =
    elim (Option-cases (o.builders report_code)) [
      | inl unknown ↦ ground arith
      | inr (build, known) ↦ elim (Result-cases (build actor criteria)) [
        | inr (e, failed) ↦ ground arith
        | inl (result, built) ↦ let same : r ≡ result = ground arith in rw same (ground arith)
      ]
    ]

All-snoc :
    (pk : ℕ) (run : ReportRun) (runs : Table ReportRun)
    → Truthful run
    → All (λ x. Truthful x.1) runs
    → All (λ x. Truthful x.1) (runs ++ (pk, run) ∷ [])
All-snoc pk run [] t h = (t, tt)
All-snoc pk run (x ∷ runs) t (h, hs) = (h, All-snoc pk run runs t hs)

saved-Truthful :
    (pk : ℕ) (f : ReportRun → ReportRun)
    → ((r : ReportRun) → Truthful r → Truthful (f r))
    → (runs : Table ReportRun) → All (λ x. Truthful x.1) runs
    → All (λ x. Truthful x.1) (adjust pk f runs)
unfolding adjust
saved-Truthful pk f keeps [] h = tt
saved-Truthful pk f keeps ((j, r) ∷ runs) (h, hs) = elim (Bool-cases (j == pk)) [
  | inl hit ↦ rw hit (keeps r h, saved-Truthful pk f keeps runs hs)
  | inr miss ↦ rw miss (h, saved-Truthful pk f keeps runs hs)
]

module _ (o : Office) where
  queued-Truthful :
      (actor : User) (report_code : String) (criteria : CriteriaOf) (s : Runs)
      → AllTruthful s
      → AllTruthful (queue_run o actor report_code criteria s)
  queued-Truthful actor report_code criteria s h =
      All-snoc (o.fresh_run s) (queued_run o actor report_code criteria) s.runs
        (record { counted = refl; bounded = ground arith }) h

  store_run-Truthful :
      (actor : User) (report_code : String) (criteria : CriteriaOf) (built : Result ReportResult)
      (s : Runs)
      → ((r : ReportResult) → built ≡ ok r → length r.rows ≤ 10000)
      → AllTruthful s
      → AllTruthful (state_after s (store_run o actor report_code criteria built s))
  unfolding store_run
  store_run-Truthful actor report_code criteria (err e) s bounded h = h
  store_run-Truthful actor report_code criteria (ok r) s bounded h =
      elim (Bool-cases (ltb 500 (length r.rows))) [
        | inl long ↦ rw long (queued-Truthful actor report_code (serialise_criteria criteria) s h)
        | inr short ↦ rw short (
            All-snoc (o.fresh_run s) (complete_run o actor report_code criteria r) s.runs
              (record { counted = refl; bounded = bounded _ refl }) h)
      ]

  end_run-Truthful :
      (pk : ℕ) (run : ReportRun) (built : Result ReportResult) (s : Runs)
      → ((r : ReportResult) → built ≡ ok r → length r.rows ≤ 10000)
      → AllTruthful s
      → AllTruthful (end_run o pk run built s).state
  unfolding end_run
  end_run-Truthful pk run (err e) s bounded h =
      saved-Truthful pk (fail_run o e) (λ r t. record { counted = t.counted; bounded = t.bounded })
        s.runs h
  end_run-Truthful pk run (ok result) s bounded h =
      saved-Truthful pk (finish_run o result)
        (λ r t. record { counted = refl; bounded = bounded _ refl }) s.runs h

  if-AllTruthful :
      (b : Bool) (r : Result (ℕ × Runs)) (e : Error) (s : Runs)
      → AllTruthful s
      → AllTruthful (state_after s r)
      → AllTruthful (state_after s (if b then r else err e))
  if-AllTruthful true r e s h k = k
  if-AllTruthful false r e s h k = h

  -- Creating a report run and executing a queued one, also where they raise, keep every stored run
  -- truthful: it says as many rows as it has, and has at most ten thousand.
  pub after-AllTruthful : (t : Task) (s : Runs) → AllTruthful s → AllTruthful (after o t s)
  unfolding after create_report_run execute_queued_report
  after-AllTruthful (Task.create actor report_code criteria true) s h =
      if-AllTruthful (has_capability actor view_reports) _ Error.no_capability s h
        (queued-Truthful actor report_code (serialise_criteria criteria) s h)
  after-AllTruthful (Task.create actor report_code criteria false) s h =
      let clean = serialise_criteria criteria in
      if-AllTruthful (has_capability actor view_reports) _ Error.no_capability s h (
        store_run-Truthful actor report_code clean (build_report o actor report_code clean) s
          (λ r done. build_report-bounded o actor report_code clean done) h)
  after-AllTruthful (Task.execute pk run) s h =
      end_run-Truthful pk run (build_report o (o.user_of run.actor_pk) run.report_code run.criteria)
        (save_run pk (start_run o) s)
        (λ r done.
          build_report-bounded o (o.user_of run.actor_pk) run.report_code run.criteria done)
        (saved-Truthful pk (start_run o)
          (λ r t. record { counted = t.counted; bounded = t.bounded }) s.runs h)
