-- ===== src/Identity/Login/Laws.antt =====
-- Who gets in, and who does not.
use first_brief.Prelude.{
  ℕ, ◌+◌, ◌*◌, ◌<◌, ◌≤◌, true, false, Option, none, some, String, ◌≡◌, refl, arith, inl, inr,
  Bool-cases, leb, str_eq, ◌||◌, not, ◌≢◌,
}
use first_brief.Prelude.Tables.{adjust}
use first_brief.Errors.{Result-cases, Error, ok, err}
use first_brief.Identity.Login.{
  Account, Logins, Gate, account_named, is_locked, has_expired, cached, count_attempt,
  found_account, sign_in, wrong_password, announce_lock, right_password, attempt, authenticate,
  audit_login,
}

-- refused
pub authenticate_refuses_locked :
    (g : Gate) (address username password : String) (s : Logins) {pk : ℕ} {a : Account}
    → account_named (g.same_name username) s.accounts ≡ ok (some (pk, a))
    → is_locked g.now a ≡ true
    → let o = authenticate g address (some username) (some password) s in
      (o.result ≡ ok none) × (o.state.accounts ≡ s.accounts)
unfolding authenticate attempt found_account sign_in count_attempt audit_login
authenticate_refuses_locked g address username password s {pk} {a} found locked = ground arith

-- What a sign-in that succeeds rests on, and the account that it leaves.
pub record Admitted (g : Gate) (address : String) (username password : Option String) (s : Logins)
    (pk : ℕ) (s' : Logins) : Type 0 where
  pub name : String
  pub word : String
  pub account : Account
  pub named : username ≡ some name
  pub given : password ≡ some word
  pub found : account_named (g.same_name name) s.accounts ≡ ok (some (pk, account))
  pub below_limit : cached g.now (g.cache_key address name) s.cache < g.max_failed_logins * 3
  pub enabled : account.local_auth_enabled ≡ true
  pub unlocked : is_locked g.now account ≡ false
  pub checked : g.check_password word account.password ≡ true
  pub cleared :
      s'.accounts
      ≡ adjust pk
          (λ row. record row {
            failed_login_count = 0;
            locked_until = none;
            must_change_password = account.must_change_password || has_expired g account;
          })
          s.accounts

abbrev refreshed : Gate → Account → Account → Account
refreshed g a row = record row {
  failed_login_count = 0;
  locked_until = none;
  must_change_password = a.must_change_password || has_expired g a;
}

wrong_password-none :
    (g : Gate) (pk : ℕ) (a : Account) (s : Logins) {k : ℕ}
    → (wrong_password g pk a s).result ≢ ok (some k)
unfolding wrong_password
wrong_password-none g pk a s done = ground arith

sign_in-ok :
    (g : Gate) (j key : ℕ) (a : Account) (word : String) (s : Logins) {pk : ℕ}
    → (sign_in g j key a word s).result ≡ ok (some pk)
    → (a.local_auth_enabled ≡ true)
      × (is_locked g.now a ≡ false)
      × (g.check_password word a.password ≡ true)
      × (pk ≡ j)
      × ((sign_in g j key a word s).state.accounts ≡ adjust j (refreshed g a) s.accounts)
unfolding sign_in right_password audit_login
sign_in-ok g j key a word s {pk} done =
    elim (Bool-cases (not a.local_auth_enabled || is_locked g.now a)) [
      | inl barred ↦ ground arith
      | inr free ↦ elim (Bool-cases (g.check_password word a.password)) [
        | inl right ↦ ground arith
        | inr wrong ↦ absurd (wrong_password-none g j a s {k = pk} (ground arith))
      ]
    ]

module _ (g : Gate) (address : String) (s : Logins) {pk : ℕ} where
  attempt-Admitted :
      (name word : String)
      → (attempt g address name word s).result ≡ ok (some pk)
      → Admitted g address (some name) (some word) s pk (attempt g address name word s).state
  unfolding attempt found_account count_attempt audit_login
  attempt-Admitted name word done =
      elim (Bool-cases
        (leb (g.max_failed_logins * 3) (cached g.now (g.cache_key address name) s.cache))) [
          | inl over ↦ ground arith
          | inr under ↦ elim (Result-cases (account_named (g.same_name name) s.accounts)) [
            | inr (e, several) ↦ ground arith
            | inl (none, missing) ↦ ground arith
            | inl (some (j, a), found) ↦
                let key = g.cache_key address name in
                let (enabled, unlocked, checked, same, cleared) =
                  sign_in-ok g j key a word (count_attempt g key s) {pk = pk} (ground arith) in
                record {
                  name = name;
                  word = word;
                  account = a;
                  named = refl;
                  given = refl;
                  found = rw same found;
                  below_limit = ground arith;
                  enabled = enabled;
                  unlocked = unlocked;
                  checked = checked;
                  cleared = ground (arith, cleared, same, found, under);
                }
          ]
        ]

-- A sign-in that succeeds had a name and a password, fewer counted attempts than three times the
-- limit, and an account of that name that is enabled for local sign-in, not locked at the time,
-- and whose password checks; it clears the failures and the lock of the account, which must change
-- its password if it had to before or if the password has expired, and changes no other account.
pub authenticate-Admitted :
    (g : Gate) (address : String) (username password : Option String) (s : Logins) {pk : ℕ}
    → (authenticate g address username password s).result ≡ ok (some pk)
    → Admitted g address username password s pk (authenticate g address username password s).state
unfolding authenticate
authenticate-Admitted g address none password s done = ground arith
authenticate-Admitted g address (some name) none s done = ground arith
authenticate-Admitted g address (some name) (some word) s {pk} done =
    elim (Bool-cases (str_eq name "")) [
      | inl blank ↦ ground arith
      | inr given ↦ rw given (attempt-Admitted g address s {pk = pk} name word (rw given at done))
    ]

-- Where the mail about a lock cannot be sent, the wrong password that reaches the limit leaves all
-- accounts as they were: neither the failure nor the lock is saved.
pub failed_mail_forgets :
    (g : Gate) (address username password : String) (s : Logins) {pk : ℕ} {a : Account} {e : Error}
    → account_named (g.same_name username) s.accounts ≡ ok (some (pk, a))
    → g.check_password password a.password ≡ false
    → g.max_failed_logins ≤ a.failed_login_count + 1
    → announce_lock g a ≡ err e
    → (authenticate g address (some username) (some password) s).state.accounts ≡ s.accounts
unfolding authenticate attempt found_account sign_in count_attempt audit_login wrong_password
failed_mail_forgets g address username password s {pk} {a} found wrong over failing = ground arith
