-- ===== src/Identity/Examples.antt =====
-- The theorems about signing in and passwords, applied to one account.
use first_brief.Prelude.{filter}
use first_brief.Prelude.{filter}
use first_brief.Prelude.{filter}
use first_brief.Prelude.{filter}
use first_brief.Prelude.Tables.{lookup}
use first_brief.Prelude.{
  none, some, true, false, [], ◌∷◌, String, ◌≡◌, refl, arith, str_eq, any_char, includes,
  text_length, str_eq_refl,
}
use first_brief.Errors.{Result, Error, ok, err, Gives}
use first_brief.Identity.Access.{has_capability}
use first_brief.Identity.Login.{
  Account, Logins, Gate, Outcome, authenticate, attempt, account_named, cached, count_attempt,
  found_account, sign_in, right_password, announce_lock,
}
use first_brief.Identity.Login.Laws.{Admitted, authenticate-Admitted, failed_mail_forgets}
use first_brief.Identity.Login.Guard.{IsGuarded, authenticate-IsGuarded}
use first_brief.Identity.Login.Lockout.{clock_at, Locked, guesses, lockout_bars}
use first_brief.Identity.Passwords.{
  PasswordPolicy, Library, is_acceptable, problems, categories, names_in,
  generate_compliant_password, draw_until, reset_local_password,
}
use first_brief.Identity.Passwords.Laws.{Compliant, generate_returns, reset_opens}
use first_brief.Messaging.Scenarios.{manager}

abbrev front_gate : Gate
front_gate = record {
  context = record { now = 900000000; correlation_id = "g1" };
  max_failed_logins = 2;
  lockout_minutes = 30;
  password_expiry_days = 90;
  lock_recipients = "desk@example.org" ∷ [];
  check_password = λ given stored. str_eq given stored;
  same_name = λ a b. str_eq a b;
  cache_key = λ address name. 1;
  send_mail = λ name recipients. ok tt;
}

abbrev ada : Account
ada = record {
  username = "ada";
  password = "Secret-123";
  local_auth_enabled = true;
  failed_login_count = 0;
  locked_until = none;
  password_changed_at = none;
  must_change_password = false;
}

abbrev users : Logins
users = record { accounts = (3, ada) ∷ []; cache = []; audit = [] }

abbrev entering : Outcome
entering = authenticate front_gate "10.0.0.1" (some "ada") (some "Secret-123") users

entering_succeeds : entering.result ≡ ok (some 3)
unfolding authenticate attempt cached account_named found_account sign_in count_attempt
    right_password lookup filter
entering_succeeds = refl

authenticate-Admitted_example :
    Admitted front_gate "10.0.0.1" (some "ada") (some "Secret-123") users 3 entering.state
authenticate-Admitted_example =
    authenticate-Admitted front_gate "10.0.0.1" (some "ada") (some "Secret-123") users
      entering_succeeds

authenticate-IsGuarded_example :
    IsGuarded 2 (authenticate front_gate "10.0.0.1" (some "ada") (some "guess") users).state
unfolding IsGuarded
authenticate-IsGuarded_example =
    authenticate-IsGuarded front_gate "10.0.0.1" (some "ada") (some "guess") users (ground arith)
      ((λ reached. ground arith), tt)

-- A gate whose mail server is down, and an account with one failure.
abbrev mute_gate : Gate
mute_gate = record front_gate { send_mail = λ name recipients. err Error.external_failure }

abbrev failing : Logins
failing = record users { accounts = (3, record ada { failed_login_count = 1 }) ∷ [] }

failed_mail_forgets_example :
    (authenticate mute_gate "10.0.0.1" (some "ada") (some "guess") failing).state.accounts
    ≡ failing.accounts
unfolding account_named announce_lock filter
failed_mail_forgets_example =
    failed_mail_forgets mute_gate "10.0.0.1" "ada" "guess" failing refl refl (ground arith) refl

-- Ada's account after two wrong passwords, two minutes apart.
abbrev locking : Logins
locking =
    guesses front_gate "10.0.0.1" "ada" ((900000000, "guess") ∷ (1020000000, "again") ∷ []) users

lockout_bars_example :
    Locked front_gate "ada" 3 2820000000 locking
    × ((authenticate
          (clock_at front_gate 2000000000)
          "10.0.0.9"
          (some "ada")
          (some "Secret-123")
          locking).result
        ≡ ok none)
unfolding announce_lock account_named cached lookup filter
lockout_bars_example =
    lockout_bars front_gate "10.0.0.1" "10.0.0.9" "ada" "Secret-123" "again" "Secret-123" 3 0
      1020000000 2000000000 ((900000000, "guess") ∷ []) users refl (ground arith) refl (λ a. refl)
      (refl, tt) refl
      (record {
        account = ada;
        found = refl;
        enabled = refl;
        unlocked = refl;
        kept = refl;
        count = refl;
        tries = λ now. ground arith;
      })
      (ground arith)

abbrev policy : PasswordPolicy
policy = record { password_min_length = 12; password_max_length = 128 }

abbrev library : Library
library = record {
  casefold = λ s. s;
  normalise = λ s. s;
  is_decimal = λ c. true;
  valid_elsewhere = λ p. true;
  draw = λ i n. "aB3-aB3-aB3-aB3-";
  make_password = λ p. p;
}

generate_returns_example :
    Gives
      (generate_compliant_password policy library ("ada" ∷ []))
      (Compliant policy library ("ada" ∷ []))
unfolding is_acceptable problems categories names_in any_char includes text_length
generate_returns_example = generate_returns policy library ("ada" ∷ []) 0 (ground arith) refl

abbrev resetting : Result (String × Logins)
resetting = reset_local_password front_gate policy library manager 3 ("ada" ∷ []) failing

abbrev state_of : Result (String × Logins) → Logins
state_of (ok (p, s)) = s
state_of (err e) = failing

resetting_runs : resetting ≡ ok ("aB3-aB3-aB3-aB3-", state_of resetting)
unfolding reset_local_password generate_compliant_password draw_until is_acceptable problems
    categories names_in any_char includes text_length has_capability
resetting_runs = refl

reset_opens_example :
    (authenticate front_gate "10.0.0.1"
      (some "ada")
      (some "aB3-aB3-aB3-aB3-")
      (state_of resetting)).result
    ≡ ok (some 3)
unfolding account_named cached lookup filter
reset_opens_example =
    reset_opens front_gate policy library manager 3 ("ada" ∷ []) "10.0.0.1" "ada" failing
      (λ w. str_eq_refl w) refl refl refl (ground arith) resetting_runs
