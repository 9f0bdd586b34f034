-- ===== src/Identity/Passwords.antt =====
-- `FirstBriefPasswordValidator` of firstbrief/identity/validators.py, and `generate_compliant_password`
-- and `reset_local_password` of firstbrief/identity/services.py.
pub mod Laws
use first_brief.Prelude.{
  ℕ, zero, suc, ◌+◌, min, max, Bool, true, false, ◌&&◌, ◌||◌, not, none, some, List, [], ◌∷◌, ◌++◌,
  String, ltb, leb, if◌then◌else◌, text_length, any_char, includes,
}
use first_brief.Errors.{Error, Result, ok, err}
use first_brief.Identity.Model.{User}
use first_brief.Identity.Access.{has_capability, manage_users}
use first_brief.Identity.Login.{Account, Logins, Gate, save_account, audit_login}

pub record PasswordPolicy : Type 0 where
  pub password_min_length : ℕ
  pub password_max_length : ℕ

-- The messages of the validator.
pub data Problem : Type 0 where
  too_short too_long too_few_categories names_user : Problem

-- What stands for Python and Django: `normalise` is `strip().casefold()`, `is_decimal` the class `\d`,
-- `valid_elsewhere` the other validators of the settings, `draw` the password of one try, that many
-- characters chosen by `secrets`, and `make_password` the hasher.
pub record Library : Type 0 where
  pub casefold : String → String
  pub normalise : String → String
  pub is_decimal : ℕ → Bool
  pub valid_elsewhere : String → Bool
  pub draw : ℕ → ℕ → String
  pub make_password : String → String

abbrev is_lower : ℕ → Bool
is_lower c = leb 97 c && leb c 122

abbrev is_upper : ℕ → Bool
is_upper c = leb 65 c && leb c 90

abbrev is_symbol : ℕ → Bool
is_symbol c = not (is_upper c || is_lower c || (leb 48 c && leb c 57))

abbrev one_if : Bool → ℕ
one_if true = 1
one_if false = 0

-- `sum(categories)`
unfoldable pub categories : Library → String → ℕ
unfolding any_char
categories l password =
    one_if (any_char is_lower password)
    + one_if (any_char is_upper password)
    + one_if (any_char l.is_decimal password)
    + one_if (any_char is_symbol password)

-- The loop over `username`, `first_name` and `last_name`, which stops at the first that occurs.
unfoldable pub names_in : Library → String → List String → Bool
unfolding includes
names_in l lowered [] = false
names_in l lowered (name ∷ names) =
    let value = l.normalise name in
    (leb 3 (text_length value) && includes lowered value) || names_in l lowered names

abbrev problem_if : Bool → Problem → List Problem
problem_if true p = p ∷ []
problem_if false p = []

-- `validate`; `names` are the names of the user, none if there is no user.
unfoldable pub problems : PasswordPolicy → Library → List String → String → List Problem
unfolding categories names_in
problems policy l names password =
    problem_if (ltb (text_length password) policy.password_min_length) Problem.too_short
    ++ (problem_if (ltb policy.password_max_length (text_length password)) Problem.too_long
        ++ (problem_if (ltb (categories l password) 3) Problem.too_few_categories
            ++ problem_if (names_in l (l.casefold password) names) Problem.names_user))

abbrev has_none : List Problem → Bool
has_none [] = true
has_none (p ∷ ps) = false

-- `validate_password(password, user)` of Django, with the validators of the settings
unfoldable pub is_acceptable : PasswordPolicy → Library → List String → String → Bool
unfolding problems
is_acceptable policy l names password =
    has_none (problems policy l names password) && l.valid_elsewhere password

-- `min(max(policy.password_min_length, 16), policy.password_max_length)`
abbrev pub drawn_length : PasswordPolicy → ℕ
drawn_length policy = min (max policy.password_min_length 16) policy.password_max_length

-- The loop: `left` tries are left, the next one is number `i`.
unfoldable pub draw_until : PasswordPolicy → Library → List String → ℕ → ℕ → Result String
unfolding is_acceptable
draw_until policy l names i zero = err Error.no_compliant_password
draw_until policy l names i (suc left) =
    let password = l.draw i (drawn_length policy) in
    elim (is_acceptable policy l names password) [
      | true ↦ ok password
      | false ↦ draw_until policy l names (suc i) left
    ]

unfoldable pub generate_compliant_password : PasswordPolicy → Library → List String → Result String
unfolding draw_until
generate_compliant_password policy l names = draw_until policy l names 0 100

-- `set_password` and the other columns of a reset.
abbrev pub reset_account : ℕ → String → Account → Account
reset_account now hashed a = record a {
  password = hashed;
  must_change_password = true;
  password_changed_at = some now;
  failed_login_count = 0;
  locked_until = none;
}

reset_with : Gate → Library → ℕ → ℕ → Result String → Logins → Result (String × Logins)
unfolding audit_login
reset_with g l actor_pk pk (err e) s = err e
reset_with g l actor_pk pk (ok password) s = ok (
  password,
  audit_login g "identity.password.admin_reset" (some actor_pk) (some pk) ""
      (save_account pk (reset_account g.now (l.make_password password)) s),
)

-- `pk` and `names` are the user's.
unfoldable pub reset_local_password :
    Gate → PasswordPolicy → Library → User → ℕ → List String → Logins → Result (String × Logins)
unfolding reset_with generate_compliant_password
reset_local_password g policy l actor pk names s =
    if has_capability actor manage_users
    then reset_with g l actor.pk pk (generate_compliant_password policy l names) s
    else err Error.no_capability
