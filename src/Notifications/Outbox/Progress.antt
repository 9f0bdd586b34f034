-- ===== src/Notifications/Outbox/Progress.antt =====
-- The worker of the outbox gets through all events that are due.
use first_brief.Notifications.Queue.Laws.{All-due_passed, HasNextAttempt, retry_at-ok}
use first_brief.Prelude.{
  true, All, ℕ, ◌≡◌, ◌∙◌, refl, arith, Option, or_else, List, [], ◌∷◌, String, ◌+◌,
}
use first_brief.Errors.{ok, err, Result}
use first_brief.Messaging.Model.{Message}
use first_brief.Notifications.Model.{OutboxEvent}
use first_brief.Notifications.Outbox.{
  is_available, notify, publish, finish_event, process_event, process_events, process_outbox,
  in_process, save_event, refused, published,
}
use first_brief.Store.{Db, Env, get_message, current_version}
use first_brief.Store.Laws.{bind-run, bind-ok, get_same, Finishes}

-- Only the outbox and the notifications differ.
pub record Queued (db db' : Db) : Type 0 where
  pub rest : db' ≡ record db { outbox = db'.outbox; notifications = db'.notifications }

Queued-trans : {d₀ d₁ d₂ : Db} → Queued d₀ d₁ → Queued d₁ d₂ → Queued d₀ d₂
Queued-trans q r = record { rest = ground (arith, q.rest, r.rest) }

Queued-saved : (e : OutboxEvent) {db d : Db} → Queued db d → Queued db (save_event e d)
Queued-saved e q = record { rest = ground (arith, q.rest) }

notify-Queued :
    (env : Env) (current : ℕ) (e : OutboxEvent) (message : Message) (recipients : List String)
    (db : Db) {u : Unit {0}} {db' : Db}
    → notify env current e message recipients db ≡ ok (u, db')
    → Queued db db'
unfolding notify current_version
notify-Queued env current e message [] db done = ground arith
notify-Queued env current e message (r ∷ rs) db done = ground arith

publish-Queued :
    (env : Env) (current : ℕ) (e : OutboxEvent) (db : Db) {u : Unit {0}} {db' : Db}
    → publish env current e db ≡ ok (u, db')
    → Queued db db'
unfolding publish
publish-Queued env current e db done =
    let (message, d, p, r) = bind-ok (get_message e.message_pk) _ db done in
    let same = get_same e.message_pk db p in rw same at (notify-Queued env current e message _ d r)

finish_event-total :
    (env : Env) (current : ℕ) (e : OutboxEvent) (db : Db) (r : Result (Unit {0} × Db))
    → HasNextAttempt env current e.attempts
    → ((u : Unit {0}) (d : Db) → r ≡ ok (u, d) → Queued db d)
    → (n : ℕ) × (db' : Db) × (finish_event env current (in_process e) db r ≡ ok (n, db'))
      × Queued db db'
unfolding finish_event
finish_event-total env current e db (ok (u, d)) fits queued =
    (_, _, refl, Queued-saved (published current (in_process e)) (queued u d refl))
finish_event-total env current e db (err x) fits queued =
    let (next, same) = retry_at-ok env current e.attempts fits in
    (
      0,
      save_event (refused env next (in_process e) x) db,
      ground (arith, same),
      record { rest = refl },
    )

process_event-total :
    (env : Env) (current : ℕ) (event : OutboxEvent) (db : Db)
    → HasNextAttempt env current event.attempts
    → (n : ℕ) × (db' : Db) × (process_event env current event db ≡ ok (n, db')) × Queued db db'
unfolding process_event
process_event-total env current event db fits =
    let (n, d, e, q) =
      finish_event-total env current event (save_event (in_process event) db) _ fits
        (λ u d. publish-Queued env current (in_process event) _) in
    (n, d, e, Queued-trans (record { rest = refl }) q)

process_events-total :
    (env : Env) (current : ℕ) (events : List (ℕ × OutboxEvent)) (db : Db)
    → All (λ x. HasNextAttempt env current x.1.attempts) events
    → (n : ℕ) × (db' : Db) × (process_events env current events db ≡ ok (n, db')) × Queued db db'
unfolding process_events
process_events-total env current [] db h = (0, db, refl, record { rest = refl })
process_events-total env current ((number, event) ∷ rest) db (p, ps) =
    let (n, d, e, q) = process_event-total env current event db p in
    let (m, d', e', q') = process_events-total env current rest d ps in
    (
      n + m,
      d',
      bind-run (process_event env current event) _ db e
          ∙ bind-run (process_events env current rest) _ d e',
      Queued-trans q q',
    )

-- Where the next attempt of every outbox event that is due, should this one fail, lies within the
-- calendar, the outbox worker always returns, whatever the publishing of single events raises, and
-- every table other than those of the outbox events and of the notifications stays as it was.
pub process_outbox-total :
    (env : Env) (now : Option ℕ) (limit : ℕ) (db : Db)
    → All
        (λ e.
          is_available (or_else now env.now) e ≡ true
          → HasNextAttempt env (or_else now env.now) e.attempts)
        db.outbox
    → Finishes (process_outbox env now limit db) (λ _. Queued db)
unfolding process_outbox
process_outbox-total env now limit db h = process_events-total env (or_else now env.now) _ db (
    All-due_passed (λ e. HasNextAttempt env (or_else now env.now) e.attempts) _
      (λ e. e.available_at) limit db.outbox h)
