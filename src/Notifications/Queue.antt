-- ===== src/Notifications/Queue.antt =====
-- What the three workers of firstbrief/notifications/services.py share: the rows that are due, in order
-- of time, and the delay before the next attempt. Rows are never deleted, so a row's primary key is its
-- place in the order of insertion.
pub mod Laws
use first_brief.Prelude.Sorting.{sort_by}
use first_brief.Prelude.{
  ℕ, suc, ◌+◌, ◌-◌, ◌*◌, ◌^◌, Bool, List, [], ◌∷◌, filter, take, leb, if◌then◌else◌,
}
use first_brief.Notifications.QuietHours.{minute}
use first_brief.Errors.{Error, Result, ok, err}
use first_brief.Store.{Env}

module _ {A : Type 0} where
  -- The rows with their primary keys.
  unfoldable pub numbered : ℕ → List A → List (ℕ × A)
  numbered n [] = []
  numbered n (x ∷ xs) = (n, x) ∷ numbered (suc n) xs

  -- `order_by(time, "pk")` of rows in the order of their keys.
  abbrev pub order_by : (A → ℕ) → List (ℕ × A) → List (ℕ × A)
  order_by time = sort_by (λ x y. leb (time x.1) (time y.1))

  -- `filter(…).order_by(time, "pk")[:limit]`
  unfoldable pub due : (A → Bool) → (A → ℕ) → ℕ → List A → List (ℕ × A)
  unfolding numbered
  due test time limit rows = take limit (order_by time (filter (λ x. test x.1) (numbered 1 rows)))

-- The end of the year 9999, in microseconds.
abbrev pub last_time : ℕ
last_time = 253402300799999999

-- `current + timedelta(minutes=retry_delay_minutes * (2 ** (attempts - 1)))`, after attempt
-- number `attempts`; a time behind the last one of `datetime` raises `OverflowError`, also where the
-- `timedelta` itself is too long.
unfoldable pub retry_at : Env → ℕ → ℕ → Result ℕ
retry_at env current attempts =
    let time =
      current + env.notification_policy.retry_delay_minutes * 2 ^ (attempts - 1) * minute in
    if leb time last_time then ok time else err Error.overflow
