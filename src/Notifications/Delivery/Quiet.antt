-- ===== src/Notifications/Delivery/Quiet.antt =====
-- In the quiet hours nothing is sent.
use first_brief.Prelude.{ℕ, ◌≡◌, ◌<◌, ◌∙◌, refl, arith, Option, or_else, List, [], ◌∷◌, ◌+◌}
use first_brief.Errors.{ok}
use first_brief.Notifications.Model.{NotificationJob}
use first_brief.Notifications.Delivery.{
  deliver_at, deliver, deliver_all, deliver_notifications, save_notification,
}
use first_brief.Notifications.QuietHours.{apply_quiet_hours}
use first_brief.Store.{Db, Env}
use first_brief.Store.Laws.{bind-run, Finishes}

-- Nothing was counted as sent, and only the queue of notifications was written.
pub record Postponed (db : Db) (n : ℕ) (db' : Db) : Type 0 where
  pub none_sent : n ≡ 0
  pub rest : db' ≡ record db { notifications = db'.notifications }

module _ (env : Env) (current allowed_at : ℕ) where
  deliver-quiet :
      (number : ℕ) (job : NotificationJob) (db : Db)
      → apply_quiet_hours env current ≡ ok allowed_at
      → current < allowed_at
      → (n : ℕ) × (db' : Db) × (deliver env current number job db ≡ ok (n, db'))
        × Postponed db n db'
  unfolding deliver deliver_at
  deliver-quiet number job db allowed later = (
    0,
    save_notification number (record job { next_attempt_at = allowed_at }) db,
    ground arith,
    record { none_sent = refl; rest = refl },
  )

  deliver_all-quiet :
      (jobs : List (ℕ × NotificationJob)) (db : Db)
      → apply_quiet_hours env current ≡ ok allowed_at
      → current < allowed_at
      → (n : ℕ) × (db' : Db) × (deliver_all env current jobs db ≡ ok (n, db')) × Postponed db n db'
  unfolding deliver_all
  deliver_all-quiet [] db allowed later = (0, db, refl, record { none_sent = refl; rest = refl })
  deliver_all-quiet ((number, job) ∷ rest) db allowed later =
      let (n, d, e, p) = deliver-quiet number job db allowed later in
      let (m, d', e', p') = deliver_all-quiet rest d allowed later in
      (
        n + m,
        d',
        bind-run (deliver env current number job) _ db e
            ∙ bind-run (deliver_all env current rest) _ d e',
        record {
          none_sent = omega (arith, p.none_sent, p'.none_sent);
          rest = ground (arith, p.rest, p'.rest);
        },
      )

-- While the quiet hours put delivery off to a later time, the delivery worker returns, counts no
-- notification as sent, and writes nothing but the notifications, so that the audit log has no new
-- event of a sent one.
pub deliver_notifications-quiet :
    (env : Env) (now : Option ℕ) (limit allowed_at : ℕ) (db : Db)
    → apply_quiet_hours env (or_else now env.now) ≡ ok allowed_at
    → or_else now env.now < allowed_at
    → Finishes (deliver_notifications env now limit db) (Postponed db)
unfolding deliver_notifications
deliver_notifications-quiet env now limit allowed_at db allowed later =
    deliver_all-quiet env (or_else now env.now) allowed_at _ db allowed later
