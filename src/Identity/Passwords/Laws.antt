-- ===== src/Identity/Passwords/Laws.antt =====
-- Generated passwords keep the policy, and open the account that they were set for.
use first_brief.Prelude.{
  [], ◌∷◌, ◌&&◌, ◌||◌, not, leb, any_char, includes, All, if◌then◌else◌, ℕ, zero, suc, ◌+◌, ◌*◌,
  ◌≤◌, ◌<◌, Bool, true, false, some, String, List, ◌≡◌, refl, arith, inl, inr, Bool-cases, str_eq,
  text_length,
}
use first_brief.Prelude.Tables.{adjust}
use first_brief.Errors.{Result, ok, err, Error, Gives}
use first_brief.Identity.Model.{User}
use first_brief.Identity.Access.{has_capability, manage_users}
use first_brief.Identity.Login.{
  Account, Logins, Gate, account_named, cached, authenticate, attempt, found_account, sign_in,
  right_password, count_attempt, audit_login,
}
use first_brief.Identity.Login.Lockout.{account_named-adjust}
use first_brief.Identity.Passwords.{
  PasswordPolicy, Library, categories, names_in, problems, is_acceptable, drawn_length, draw_until,
  generate_compliant_password, reset_account, reset_with, reset_local_password,
}

-- The password has a character of one of two kinds.
abbrev pub HasEither : (ℕ → Bool) → (ℕ → Bool) → String → Type 0
HasEither a b p = (any_char a p || any_char b p) ≡ true

abbrev pub lower_case : ℕ → Bool
lower_case c = leb 97 c && leb c 122

abbrev pub upper_case : ℕ → Bool
upper_case c = leb 65 c && leb c 90

abbrev pub other_sign : ℕ → Bool
other_sign c = not (upper_case c || lower_case c || (leb 48 c && leb c 57))

-- At most one of the four kinds of characters is missing: of any two there is one.
pub record HasThreeKinds (l : Library) (p : String) : Type 0 where
  pub lower_upper : HasEither lower_case upper_case p
  pub lower_digit : HasEither lower_case l.is_decimal p
  pub lower_other : HasEither lower_case other_sign p
  pub upper_digit : HasEither upper_case l.is_decimal p
  pub upper_other : HasEither upper_case other_sign p
  pub digit_other : HasEither l.is_decimal other_sign p

-- No name of three characters or more occurs in the password, whatever the case of either.
abbrev pub HasNoName : Library → String → List String → Type 0
HasNoName l p = All (λ name.
    3 ≤ text_length (l.normalise name) → includes (l.casefold p) (l.normalise name) ≡ false)

-- What the validator asks of a password.
pub record Compliant (policy : PasswordPolicy) (l : Library) (names : List String) (p : String)
    : Type 0 where
  pub long_enough : policy.password_min_length ≤ text_length p
  pub short_enough : text_length p ≤ policy.password_max_length
  pub mixed : HasThreeKinds l p
  pub anonymous : HasNoName l p names
  pub elsewhere : l.valid_elsewhere p ≡ true

categories-HasThreeKinds : (l : Library) (p : String) → 3 ≤ categories l p → HasThreeKinds l p
unfolding categories
categories-HasThreeKinds l p three = record {
  lower_upper = ground (arith, three);
  lower_digit = ground (arith, three);
  lower_other = ground (arith, three);
  upper_digit = ground (arith, three);
  upper_other = ground (arith, three);
  digit_other = ground (arith, three);
}

names_in-HasNoName :
    (l : Library) (p : String) (names : List String)
    → names_in l (l.casefold p) names ≡ false
    → HasNoName l p names
unfolding names_in
names_in-HasNoName l p [] free = tt
names_in-HasNoName l p (name ∷ names) free =
    (λ long. ground (arith, free, long), names_in-HasNoName l p names (ground (arith, free)))

module _ (policy : PasswordPolicy) (l : Library) (names : List String) where
  acceptable-Compliant :
      (p : String) → is_acceptable policy l names p ≡ true → Compliant policy l names p
  unfolding is_acceptable problems
  acceptable-Compliant p fine = record {
    long_enough = ground arith;
    short_enough = ground arith;
    mixed = categories-HasThreeKinds l p (ground arith);
    anonymous = names_in-HasNoName l p names (ground arith);
    elsewhere = ground arith;
  }

  draw_until-Compliant :
      (left i : ℕ) {p : String}
      → draw_until policy l names i left ≡ ok p
      → Compliant policy l names p
  unfolding draw_until
  draw_until-Compliant zero i done = ground arith
  draw_until-Compliant (suc left) i {p} done =
      elim (Bool-cases (is_acceptable policy l names (l.draw i (drawn_length policy)))) [
        | inl fine ↦
            let same : p ≡ l.draw i (drawn_length policy) = ground arith in
            rw same (acceptable-Compliant (l.draw i (drawn_length policy)) fine)
        | inr unfit ↦ draw_until-Compliant left (suc i) {p = p} (ground arith)
      ]

  draw_until_returns :
      (left i j : ℕ)
      → i ≤ j
      → j < i + left
      → is_acceptable policy l names (l.draw j (drawn_length policy)) ≡ true
      → (p : String) × (draw_until policy l names i left ≡ ok p)
  unfolding draw_until
  draw_until_returns zero i j from to fine = absurd (omega arith)
  draw_until_returns (suc left) i j from to fine =
      elim (Bool-cases (is_acceptable policy l names (l.draw i (drawn_length policy)))) [
        | inl now ↦ (l.draw i (drawn_length policy), ground arith)
        | inr later ↦
            let (p, e) =
              draw_until_returns left (suc i) j (ground (arith, fine, later)) (omega arith) fine in
            (p, ground (arith, later, e))
      ]

  -- compliant
  pub generate-Compliant :
      {p : String} → generate_compliant_password policy l names ≡ ok p → Compliant policy l names p
  unfolding generate_compliant_password
  generate-Compliant done = draw_until-Compliant 100 0 done

  -- If any of the first hundred drawn passwords is acceptable, generating a password returns one,
  -- and it keeps the policy: its length is between the limits, it has three of the four kinds of
  -- characters, contains no name of the user of at least three characters, whatever the case, and
  -- passes the other validators.
  pub generate_returns :
      (j : ℕ)
      → j < 100
      → is_acceptable policy l names (l.draw j (drawn_length policy)) ≡ true
      → Gives (generate_compliant_password policy l names) (Compliant policy l names)
  unfolding generate_compliant_password
  generate_returns j below fine =
      let (p, e) = draw_until_returns 100 0 j (omega arith) below fine in
      (p, e, draw_until-Compliant 100 0 e)

reset-written :
    (g : Gate) (policy : PasswordPolicy) (l : Library) (actor : User) (pk : ℕ) (names : List String)
    (s : Logins) {p : String} {s' : Logins}
    → reset_local_password g policy l actor pk names s ≡ ok (p, s')
    → (s'.accounts ≡ adjust pk (reset_account g.now (l.make_password p)) s.accounts)
      × (s'.cache ≡ s.cache)
unfolding reset_local_password reset_with audit_login
reset-written g policy l actor pk names s done =
    go (has_capability actor manage_users) (generate_compliant_password policy l names) done
  where
    go :
        (may : Bool) (r : Result String) {p : String} {s' : Logins}
        → (if may then reset_with g l actor.pk pk r s else err Error.no_capability) ≡ ok (p, s')
        → (s'.accounts ≡ adjust pk (reset_account g.now (l.make_password p)) s.accounts)
          × (s'.cache ≡ s.cache)
    go false r done = ground arith
    go true (err e) done = ground arith
    go true (ok w) done = ground arith

-- A password that an administrator has reset opens the account, locked or not: where hashing and
-- checking agree, the account is the only one of that name and enabled for local sign-in, and
-- fewer attempts than the limit are counted for the address, signing in with the returned password
-- succeeds.
pub reset_opens :
    (g : Gate) (policy : PasswordPolicy) (l : Library) (actor : User) (pk : ℕ) (names : List String)
    (address name : String) (s : Logins) {a : Account} {p : String} {s' : Logins}
    → ((w : String) → g.check_password w (l.make_password w) ≡ true)
    → str_eq name "" ≡ false
    → account_named (g.same_name name) s.accounts ≡ ok (some (pk, a))
    → a.local_auth_enabled ≡ true
    → cached g.now (g.cache_key address name) s.cache < g.max_failed_logins * 3
    → reset_local_password g policy l actor pk names s ≡ ok (p, s')
    → (authenticate g address (some name) (some p) s').result ≡ ok (some pk)
unfolding authenticate attempt found_account sign_in right_password count_attempt
reset_opens g policy l actor pk names address name s {a} {p} hashes named found enabled below done =
    let (accounts, cache) = reset-written g policy l actor pk names s done in
    let opened =
      account_named-adjust (g.same_name name) pk (reset_account g.now (l.make_password p))
        s.accounts {a = a} (λ b. refl) found in
    ground (arith, accounts, cache, opened, hashes p)
