-- ===== src/Identity/Login/Guard.antt =====
-- An account that has used up its attempts carries a lock.
use first_brief.Errors.{Result, err, ok}
use first_brief.Prelude.{
  ℕ, ◌≤◌, ◌<◌, [], ◌∷◌, All, is_some, true, ◌≡◌, arith, ◌==◌, Bool-cases, inl, inr, leb, String,
  Option, not, ◌+◌, ◌||◌, ◌*◌, some, refl, none,
}
use first_brief.Prelude.Tables.{Table, adjust}
use first_brief.Identity.Login.{
  Account, Logins, Gate, count_attempt, found_account, sign_in, wrong_password, right_password,
  attempt, authenticate, audit_login, lock_account, announce_lock, is_locked, cached, str_eq,
}

-- From the limit on, `locked_until` holds a time.
abbrev pub IsBound : ℕ → Account → Type 0
IsBound limit a = limit ≤ a.failed_login_count → is_some a.locked_until ≡ true

unfoldable pub IsGuarded : ℕ → Logins → Type 0
IsGuarded limit s = All (λ x. IsBound limit x.1) s.accounts

All-adjust :
    {A : Type 0} (P : A → Type 0) (k : ℕ) (f : A → A) (t : Table A)
    → ((a : A) → P (f a))
    → All (λ x. P x.1) t
    → All (λ x. P x.1) (adjust k f t)
unfolding adjust
All-adjust P k f [] holds h = tt
All-adjust P k f ((j, v) ∷ t) holds (p, ps) = elim (Bool-cases (j == k)) [
  | inl same ↦ rw same (holds v, All-adjust P k f t holds ps)
  | inr other ↦ rw other (p, All-adjust P k f t holds ps)
]

lock_account-IsGuarded :
    (g : Gate) (pk : ℕ) (a : Account) (s : Logins) (sent : Result (Unit {0}))
    → IsGuarded g.max_failed_logins s
    → IsGuarded g.max_failed_logins (lock_account g pk a s sent).state
unfolding lock_account IsGuarded audit_login
lock_account-IsGuarded g pk a s (err e) i = i
lock_account-IsGuarded g pk a s (ok u) i =
    All-adjust (IsBound g.max_failed_logins) pk _ s.accounts (λ row reached. refl) i

wrong_password-IsGuarded :
    (g : Gate) (pk : ℕ) (a : Account) (s : Logins)
    → IsGuarded g.max_failed_logins s
    → IsGuarded g.max_failed_logins (wrong_password g pk a s).state
unfolding wrong_password IsGuarded audit_login
wrong_password-IsGuarded g pk a s i =
    elim (Bool-cases (leb g.max_failed_logins (a.failed_login_count + 1))) [
      | inl over ↦ rw over (lock_account-IsGuarded g pk a s (announce_lock g a) i)
      | inr under ↦
          rw under (
            All-adjust (IsBound g.max_failed_logins) pk _ s.accounts (λ row reached. ground arith)
              i)
    ]

right_password-IsGuarded :
    (g : Gate) (pk key : ℕ) (a : Account) (s : Logins)
    → 0 < g.max_failed_logins
    → IsGuarded g.max_failed_logins s
    → IsGuarded g.max_failed_logins (right_password g pk key a s).state
unfolding right_password IsGuarded audit_login
right_password-IsGuarded g pk key a s positive i =
    All-adjust (IsBound g.max_failed_logins) pk _ s.accounts (λ row reached. ground arith) i

sign_in-IsGuarded :
    (g : Gate) (pk key : ℕ) (a : Account) (word : String) (s : Logins)
    → 0 < g.max_failed_logins
    → IsGuarded g.max_failed_logins s
    → IsGuarded g.max_failed_logins (sign_in g pk key a word s).state
unfolding sign_in IsGuarded audit_login
sign_in-IsGuarded g pk key a word s positive i =
    elim (Bool-cases (not a.local_auth_enabled || is_locked g.now a)) [
      | inl barred ↦ rw barred i
      | inr free ↦ elim (Bool-cases (g.check_password word a.password)) [
        | inl right ↦ rw (free, right) (right_password-IsGuarded g pk key a s positive i)
        | inr wrong ↦ rw (free, wrong) (wrong_password-IsGuarded g pk a s i)
      ]
    ]

found_account-IsGuarded :
    (g : Gate) (key : ℕ) (found : Result (Option (ℕ × Account))) (word : String) (s : Logins)
    → 0 < g.max_failed_logins
    → IsGuarded g.max_failed_logins s
    → IsGuarded g.max_failed_logins (found_account g key found word s).state
unfolding found_account IsGuarded audit_login
found_account-IsGuarded g key (err e) word s positive i = i
found_account-IsGuarded g key (ok none) word s positive i = i
found_account-IsGuarded g key (ok (some (pk, a))) word s positive i =
    sign_in-IsGuarded g pk key a word s positive i

attempt-IsGuarded :
    (g : Gate) (address name word : String) (s : Logins)
    → 0 < g.max_failed_logins
    → IsGuarded g.max_failed_logins s
    → IsGuarded g.max_failed_logins (attempt g address name word s).state
unfolding attempt IsGuarded count_attempt
attempt-IsGuarded g address name word s positive i =
    let key = g.cache_key address name in
    elim (Bool-cases (leb (g.max_failed_logins * 3) (cached g.now key s.cache))) [
      | inl over ↦ rw over i
      | inr under ↦
          rw under (found_account-IsGuarded g key _ word (count_attempt g key s) positive i)
    ]

-- With a positive limit, where every account that has reached the limit of failures has a lock
-- time, this is still so after any sign-in attempt, also one whose mail about the lock fails.
pub authenticate-IsGuarded :
    (g : Gate) (address : String) (username password : Option String) (s : Logins)
    → 0 < g.max_failed_logins
    → IsGuarded g.max_failed_logins s
    → IsGuarded g.max_failed_logins (authenticate g address username password s).state
unfolding authenticate
authenticate-IsGuarded g address none password s positive i = i
authenticate-IsGuarded g address (some name) none s positive i = i
authenticate-IsGuarded g address (some name) (some word) s positive i =
    elim (Bool-cases (str_eq name "")) [
      | inl blank ↦ rw blank i
      | inr given ↦ rw given (attempt-IsGuarded g address name word s positive i)
    ]
