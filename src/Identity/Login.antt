-- ===== src/Identity/Login.antt =====
-- `LocalAccountBackend.authenticate` of firstbrief/identity/backends.py. It runs outside a transaction:
-- what it wrote before an exception stays, so its outcome is a result with the state in either case.
pub mod Laws
pub mod Guard
pub mod Lockout
use first_brief.Prelude.{
  filter, ℕ, ◌+◌, ◌-◌, ◌*◌, ◌/◌, Bool, ◌&&◌, ◌||◌, not, Option, none, some, List, [], ◌∷◌, String,
  ltb, leb, if◌then◌else◌, some_and, str_eq, ◌==◌,
}
use first_brief.Prelude.Tables.{Table, lookup, adjust}
use first_brief.Errors.{Error, Result, ok, err}
use first_brief.Assurance.Model.{AuditEvent}
use first_brief.Assurance.Audit.{Context, Subject, record_event}

-- Microseconds.
abbrev pub minute : ℕ
minute = 60000000

abbrev pub day : ℕ
day = 86400000000

-- The columns of a user that logging in reads or writes.
pub record Account : Type 0 where
  pub username : String
  pub password : String
  pub local_auth_enabled : Bool
  pub failed_login_count : ℕ
  pub locked_until : Option ℕ
  pub password_changed_at : Option ℕ
  pub must_change_password : Bool

-- A counter of the cache, which is forgotten when it expires.
pub record Counter : Type 0 where
  pub attempts : ℕ
  pub expires_at : ℕ

pub record Logins : Type 0 where
  pub accounts : Table Account
  pub cache : Table Counter
  pub audit : List AuditEvent

-- The policy, the clock and the code outside the repository: `check_password` of Django's hashers,
-- `same_name` for the database's `iexact`, `cache_key` for the SHA-256 of address and casefolded name,
-- and the mail server. `lock_recipients` is `account_lock_distribution_list`, split and stripped.
pub record Gate : Type 0 where
  pub context : Context
  pub open context use *
  pub max_failed_logins : ℕ
  pub lockout_minutes : ℕ
  pub password_expiry_days : ℕ
  pub lock_recipients : List String
  pub check_password : String → String → Bool
  pub same_name : String → String → Bool
  pub cache_key : String → String → ℕ
  pub send_mail : String → List String → Result (Unit {0})

-- The primary key of the user who is let in, if one is.
pub record Outcome : Type 0 where
  pub result : Result (Option ℕ)
  pub state : Logins

-- `cache.get(key, 0)`
unfoldable pub cached : ℕ → ℕ → Table Counter → ℕ
cached now key cache = elim (lookup key cache) [
  | none ↦ 0
  | some c ↦ if ltb now c.expires_at then c.attempts else 0
]

-- `cache.set(key, attempts + 1, timeout=300)`
unfoldable pub count_attempt : Gate → ℕ → Logins → Logins
unfolding cached
count_attempt g key s = record s {
  cache =
      (key, record { attempts = cached g.now key s.cache + 1; expires_at = g.now + 5 * minute })
      ∷ s.cache;
}

-- What `get` makes of the rows that match: `none` for `DoesNotExist`, which the caller handles, and an
-- exception that it does not handle where there are several.
unfoldable pub the_only : List (ℕ × Account) → Result (Option (ℕ × Account))
the_only [] = ok none
the_only (x ∷ []) = ok (some x)
the_only (x ∷ y ∷ xs) = err Error.several_objects

-- `User.objects.get(username__iexact=username)`
unfoldable pub account_named : (String → Bool) → Table Account → Result (Option (ℕ × Account))
unfolding the_only
account_named same t = the_only (filter (λ x. same x.1.username) t)

unfoldable pub audit_login : Gate → String → Option ℕ → Option ℕ → String → Logins → Logins
audit_login g action actor subject reason s = record s {
  audit = record_event g.context action actor (user_subject subject) [] [] reason s.audit;
}
  where
    user_subject : Option ℕ → Option Subject
    user_subject none = none
    user_subject (some pk) = some (record { class_name = "User"; key = pk })

-- `user.locked_until and user.locked_until > now`
abbrev pub is_locked : ℕ → Account → Bool
is_locked now a = some_and a.locked_until (λ t. ltb now t)

-- `user.save(update_fields=(…))`
abbrev pub save_account : ℕ → (Account → Account) → Logins → Logins
save_account pk f s = record s { accounts = adjust pk f s.accounts }

-- The account after one more wrong password.
abbrev pub counted : Account → Account
counted a = record a { failed_login_count = a.failed_login_count + 1 }

abbrev pub locked_out : Gate → Account → Account
locked_out g a = record a {
  failed_login_count = a.failed_login_count + 1;
  locked_until = some (g.now + g.lockout_minutes * minute);
}

-- `if recipients: send_mail(…)`
unfoldable pub announce_lock : Gate → Account → Result (Unit {0})
announce_lock g a = mail g.lock_recipients
  where
    mail : List String → Result (Unit {0})
    mail [] = ok tt
    mail (r ∷ rs) = g.send_mail a.username (r ∷ rs)

abbrev save_failure : ℕ → Account → Logins → Logins
save_failure pk a s =
    save_account pk
      (λ row. record row {
        failed_login_count = a.failed_login_count;
        locked_until = a.locked_until;
      })
      s

-- Locking the account; the mail goes out before the row is saved.
unfoldable pub lock_account : Gate → ℕ → Account → Logins → Result (Unit {0}) → Outcome
unfolding audit_login
lock_account g pk a s (err e) = record { result = err e; state = s }
lock_account g pk a s (ok u) = record {
  result = ok none;
  state =
      audit_login g "identity.account.locked" none (some pk) ""
        (save_failure pk (locked_out g a) s);
}

-- The branch of a wrong password.
unfoldable pub wrong_password : Gate → ℕ → Account → Logins → Outcome
unfolding announce_lock audit_login lock_account
wrong_password g pk a s =
    if leb g.max_failed_logins (a.failed_login_count + 1)
    then lock_account g pk a s (announce_lock g a)
    else record {
      result = ok none;
      state =
          audit_login g "identity.login.failed" none (some pk) "" (save_failure pk (counted a) s);
    }

-- `(now - user.password_changed_at).days >= policy.password_expiry_days`
abbrev pub has_expired : Gate → Account → Bool
has_expired g a =
    some_and a.password_changed_at
      (λ t. leb t g.now && leb g.password_expiry_days ((g.now - t) / day))

-- `cache.delete(key)`
unfoldable pub forget : ℕ → Table Counter → Table Counter
forget key [] = []
forget key ((j, c) ∷ t) = let rest = forget key t in if j == key then rest else (j, c) ∷ rest

unfoldable pub right_password : Gate → ℕ → ℕ → Account → Logins → Outcome
unfolding audit_login forget
right_password g pk key a s =
    let saved : Logins =
      save_account pk
        (λ row. record row {
          failed_login_count = 0;
          locked_until = none;
          must_change_password = a.must_change_password || has_expired g a;
        })
        s in
    record {
      result = ok (some pk);
      state =
          audit_login g "identity.login.succeeded" (some pk) (some pk) ""
            (record saved { cache = forget key saved.cache });
    }

abbrev denied : Logins → Outcome
denied s = record { result = ok none; state = s }

-- Behind the lookup of the account.
unfoldable pub sign_in : Gate → ℕ → ℕ → Account → String → Logins → Outcome
unfolding audit_login wrong_password right_password
sign_in g pk key a password s =
    if not a.local_auth_enabled || is_locked g.now a
    then denied (audit_login g "identity.login.blocked" none (some pk) "account_locked" s)
    else if not (g.check_password password a.password)
    then wrong_password g pk a s
    else right_password g pk key a s

unfoldable pub found_account : Gate → ℕ → Result (Option (ℕ × Account)) → String → Logins → Outcome
unfolding audit_login sign_in
found_account g key (err e) password s = record { result = err e; state = s }
found_account g key (ok none) password s =
    denied (audit_login g "identity.login.failed" none none "unknown_account" s)
found_account g key (ok (some (pk, a))) password s = sign_in g pk key a password s

-- Behind the test of the arguments.
unfoldable pub attempt : Gate → String → String → String → Logins → Outcome
unfolding cached count_attempt account_named found_account
attempt g address username password s =
    let key = g.cache_key address username in
    if leb (g.max_failed_logins * 3) (cached g.now key s.cache)
    then denied s
    else found_account g key (account_named (g.same_name username) s.accounts) password
        (count_attempt g key s)

unfoldable pub authenticate : Gate → String → Option String → Option String → Logins → Outcome
unfolding attempt
authenticate g address (some username) (some password) s =
    if str_eq username "" then denied s else attempt g address username password s
authenticate g address none password s = denied s
authenticate g address (some username) none s = denied s
