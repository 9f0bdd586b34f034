-- ===== src/Notifications/Queue/Laws.antt =====
-- What holds of every row holds of the rows that are due, and the delay before the next attempt.
use first_brief.Store.{Env}
use first_brief.Errors.{ok}
use first_brief.Prelude.{
  true, filter, All-both, filter-All, ◌+◌, ◌-◌, ◌*◌, ◌^◌, ◌≤◌, ◌≡◌, arith, ℕ, zero, suc, Bool, List,
  [], ◌∷◌, leb, All, take, All-filter,
}
use first_brief.Prelude.Sorting.{All-sort_by}
use first_brief.Notifications.Queue.{numbered, due, retry_at}

module _ {A : Type 0} (P : A → Type 0) where
  All-numbered : (n : ℕ) (xs : List A) → All P xs → All (λ x. P x.1) (numbered n xs)
  unfolding numbered
  All-numbered n [] h = tt
  All-numbered n (x ∷ xs) (p, ps) = (p, All-numbered (suc n) xs ps)

module _ {A : Type 0} (P : A → Type 0) where
  All-take : (n : ℕ) (xs : List A) → All P xs → All P (take n xs)
  All-take zero xs h = tt
  All-take (suc n) [] h = tt
  All-take (suc n) (x ∷ xs) (p, ps) = (p, All-take n xs ps)

pub All-due :
    {A : Type 0} (P : A → Type 0) (test : A → Bool) (time : A → ℕ) (limit : ℕ) (rows : List A)
    → All P rows
    → All (λ x. P x.1) (due test time limit rows)
unfolding due
All-due P test time limit rows h =
    All-take (λ x. P x.1) limit _
      (All-sort_by (λ x y. leb (time x.1) (time y.1)) (λ x. P x.1) _
        (All-filter (λ x. P x.1) (λ x. test x.1) (numbered 1 rows) (All-numbered P 1 rows h)))

-- What holds of every row that passes the test holds of the rows that are due.
pub All-due_passed :
    {A : Type 0} (P : A → Type 0) (test : A → Bool) (time : A → ℕ) (limit : ℕ) (rows : List A)
    → All (λ x. test x ≡ true → P x) rows
    → All (λ x. P x.1) (due test time limit rows)
unfolding due
All-due_passed P test time limit rows h =
    let every = numbered 1 rows in
    All-take (λ x. P x.1) limit _
      (All-sort_by (λ x y. leb (time x.1) (time y.1)) (λ x. P x.1) _
        (All-both (λ x. P x.1) (λ x given passed. given passed) (filter (λ x. test x.1) every)
          (All-filter (λ x. test x.1 ≡ true → P x.1) (λ x. test x.1) every
            (All-numbered (λ x. test x ≡ true → P x) 1 rows h))
          (filter-All (λ x. test x.1) every)))

-- After `attempts` attempts another one that fails can still be put off: the time of the next one lies
-- in the calendar.
abbrev pub HasNextAttempt : Env → ℕ → ℕ → Type 0
HasNextAttempt env current attempts =
    current + env.notification_policy.retry_delay_minutes * 2 ^ attempts * 60000000
    ≤ 253402300799999999

pub retry_at-ok :
    (env : Env) (current attempts : ℕ)
    → HasNextAttempt env current attempts
    → (time : ℕ) × (retry_at env current (attempts + 1) ≡ ok time)
unfolding retry_at
retry_at-ok env current attempts fits =
    let same : attempts + 1 - 1 ≡ attempts = omega arith in
    (
      current + env.notification_policy.retry_delay_minutes * 2 ^ attempts * 60000000,
      rw same (ground (arith, fits)),
    )
