-- ===== src/Identity/Login/Lockout.antt =====
-- As many wrong passwords in a row as the policy allows lock the account.
use first_brief.Identity.Login.Laws.{authenticate_refuses_locked}
use first_brief.Prelude.{
  ◌++◌, ◌≤◌, leb, filter, ℕ, ◌+◌, ◌*◌, ◌<◌, Bool, true, false, none, some, List, [], ◌∷◌, String,
  ◌≡◌, refl, arith, length, All,
}
use first_brief.Prelude.Tables.{Table, lookup, adjust}
use first_brief.Errors.{ok}
use first_brief.Identity.Login.{
  the_only, Account, Logins, Gate, account_named, cached, authenticate, minute, attempt,
  found_account, sign_in, wrong_password, count_attempt, audit_login, str_eq, lock_account,
  announce_lock, counted, locked_out,
}

-- The gate at a time.
abbrev pub clock_at : Gate → ℕ → Gate
clock_at g now = record g { context = record g.context { now = now } }

-- The sign-ins of one name from one address, one after the other, each at its time.
unfoldable pub guesses : Gate → String → String → List (ℕ × String) → Logins → Logins
guesses g address name [] s = s
guesses g address name ((now, word) ∷ words) s =
    guesses g address name words
      (authenticate (clock_at g now) address (some name) (some word) s).state

guesses-append :
    (g : Gate) (address name : String) (first : List (ℕ × String)) (last : ℕ) (word : String)
    (s : Logins)
    → guesses g address name (first ++ (last, word) ∷ []) s
      ≡ (authenticate
          (clock_at g last)
          address
          (some name)
          (some word)
          (guesses g address name first s)).state
unfolding guesses
guesses-append g address name [] last word s = refl
guesses-append g address name ((now, w) ∷ first) last word s =
    guesses-append g address name first last word _

-- An account after `k` wrong passwords, where at most `c` attempts were counted for the address before
-- them.
pub record Trying (g : Gate) (address name password : String) (pk c k : ℕ) (s : Logins)
    : Type 0 where
  pub account : Account
  pub found : account_named (g.same_name name) s.accounts ≡ ok (some (pk, account))
  pub enabled : account.local_auth_enabled ≡ true
  pub unlocked : account.locked_until ≡ none
  pub kept : account.password ≡ password
  pub count : account.failed_login_count ≡ k
  pub tries : (now : ℕ) → cached now (g.cache_key address name) s.cache ≤ c + k

the_only-one : (xs : List (ℕ × Account)) {x : ℕ × Account} → the_only xs ≡ ok (some x) → xs ≡ x ∷ []
unfolding the_only
the_only-one [] only = ground arith
the_only-one (x ∷ []) only = ground arith
the_only-one (x ∷ y ∷ xs) only = ground arith

filter-adjust :
    (same : String → Bool) (pk : ℕ) (f : Account → Account) (t : Table Account)
    → ((b : Account) → (f b).username ≡ b.username)
    → filter (λ x. same x.1.username) (adjust pk f t)
      ≡ adjust pk f (filter (λ x. same x.1.username) t)
unfolding filter adjust
filter-adjust same pk f [] keeps = refl
filter-adjust same pk f ((j, b) ∷ t) keeps =
    ground (arith, filter-adjust same pk f t keeps, keeps b)

pub account_named-adjust :
    (same : String → Bool) (pk : ℕ) (f : Account → Account) (t : Table Account) {a : Account}
    → ((b : Account) → (f b).username ≡ b.username)
    → account_named same t ≡ ok (some (pk, a))
    → account_named same (adjust pk f t) ≡ ok (some (pk, f a))
unfolding account_named adjust the_only
account_named-adjust same pk f t {a} keeps found =
    let one = the_only-one (filter (λ x. same x.1.username) t) found in
    ground (arith, one, filter-adjust same pk f t keeps)

-- The account of a name holds a lock up to a time.
pub record Locked (g : Gate) (name : String) (pk until : ℕ) (s : Logins) : Type 0 where
  pub account : Account
  pub found : account_named (g.same_name name) s.accounts ≡ ok (some (pk, account))
  pub locked : account.locked_until ≡ some until

module _ (g : Gate) (address name password : String) (pk c : ℕ) where
  abbrev after : ℕ → String → Logins → Logins
  after now word s = (authenticate (clock_at g now) address (some name) (some word) s).state

  abbrev tried : ℕ → Logins → Logins
  tried now s = count_attempt (clock_at g now) (g.cache_key address name) s

  refused :
      (now : ℕ) (word : String) (k : ℕ) (s : Logins)
      → str_eq name "" ≡ false
      → c + k < g.max_failed_logins * 3
      → g.check_password word password ≡ false
      → (t : Trying g address name password pk c k s)
      → after now word s ≡ (wrong_password (clock_at g now) pk t.account (tried now s)).state
  unfolding authenticate attempt found_account sign_in
  refused now word k s named below wrong t =
      ground (arith, t.found, t.enabled, t.unlocked, t.kept, t.tries now)

  tries-tried :
      (now k : ℕ) (s : Logins)
      → ((later : ℕ) → cached later (g.cache_key address name) s.cache ≤ c + k)
      → (later : ℕ) → cached later (g.cache_key address name) (tried now s).cache ≤ c + (k + 1)
  unfolding count_attempt cached lookup
  tries-tried now k s tries later = ground (arith, tries now)

  step :
      (now : ℕ) (word : String) (k : ℕ) (s : Logins)
      → str_eq name "" ≡ false
      → c ≤ g.max_failed_logins * 2
      → k + 1 < g.max_failed_logins
      → g.check_password word password ≡ false
      → Trying g address name password pk c k s
      → Trying g address name password pk c (k + 1) (after now word s)
  unfolding wrong_password count_attempt audit_login
  step now word k s named few below wrong t =
      let same = refused now word k s named (omega arith) wrong t in
      let under : leb g.max_failed_logins (t.account.failed_login_count + 1) ≡ false =
        ground (arith, t.count) in
      rw same (
        rw under (record {
          account = counted t.account;
          found =
              account_named-adjust (g.same_name name) pk
                (λ row. record row {
                  failed_login_count = (counted t.account).failed_login_count;
                  locked_until = (counted t.account).locked_until;
                })
                s.accounts {a = t.account} (λ b. refl) t.found;
          enabled = t.enabled;
          unlocked = t.unlocked;
          kept = t.kept;
          count = omega (arith, t.count);
          tries = tries-tried now k s t.tries;
        }))

  last_step :
      (now : ℕ) (word : String) (k : ℕ) (s : Logins)
      → str_eq name "" ≡ false
      → c ≤ g.max_failed_logins * 2
      → k + 1 ≡ g.max_failed_logins
      → ((a : Account) → announce_lock (clock_at g now) a ≡ ok tt)
      → g.check_password word password ≡ false
      → Trying g address name password pk c k s
      → Locked g name pk (now + g.lockout_minutes * minute) (after now word s)
  unfolding wrong_password count_attempt audit_login lock_account
  last_step now word k s named few reached sends wrong t =
      let same = refused now word k s named (omega arith) wrong t in
      let over : leb g.max_failed_logins (t.account.failed_login_count + 1) ≡ true =
        ground (arith, t.count) in
      rw same (
        rw (over, sends t.account)
          (record {
            account = locked_out (clock_at g now) t.account;
            found =
                account_named-adjust (g.same_name name) pk
                  (λ row. record row {
                    failed_login_count = (locked_out (clock_at g now) t.account).failed_login_count;
                    locked_until = (locked_out (clock_at g now) t.account).locked_until;
                  })
                  s.accounts {a = t.account} (λ b. refl) t.found;
            locked = refl;
          }))

  guesses-Trying :
      (words : List (ℕ × String)) (k n : ℕ) (s : Logins)
      → str_eq name "" ≡ false
      → c ≤ g.max_failed_logins * 2
      → length words + k ≡ n
      → n < g.max_failed_logins
      → All (λ x. g.check_password x.1 password ≡ false) words
      → Trying g address name password pk c k s
      → Trying g address name password pk c n (guesses g address name words s)
  unfolding guesses
  guesses-Trying [] k n s named few all below wrong t =
      let same : k ≡ n = omega (arith, all) in rw same at t
  guesses-Trying ((now, word) ∷ words) k n s named few all below (w, ws) t =
      guesses-Trying words (k + 1) n (after now word s) named few (omega (arith, all)) below ws
        (step now word k s named few (omega (arith, all, below)) w t)

-- After as many wrong passwords as the limit, given at any times from one address to an enabled
-- account without failures or lock, the only one of its name, where at most twice the limit of
-- attempts were counted for that address before and the mail about the lock is sent, the account
-- is locked until the lockout time after the last of them, and every sign-in to it at an earlier
-- time than that is refused, from any address and with any password, the right one included.
pub lockout_bars :
    (g : Gate) (address address' name password word any_word : String) (pk c last later : ℕ)
    (first : List (ℕ × String)) (s : Logins)
    → str_eq name "" ≡ false
    → c ≤ g.max_failed_logins * 2
    → length first + 1 ≡ g.max_failed_logins
    → ((a : Account) → announce_lock (clock_at g last) a ≡ ok tt)
    → All (λ x. g.check_password x.1 password ≡ false) first
    → g.check_password word password ≡ false
    → Trying g address name password pk c 0 s
    → later < last + g.lockout_minutes * minute
    → let s' = guesses g address name (first ++ (last, word) ∷ []) s in
      Locked g name pk (last + g.lockout_minutes * minute) s'
      × ((authenticate (clock_at g later) address' (some name) (some any_word) s').result ≡ ok none)
lockout_bars g address address' name password word any_word pk c last later first s named few all
      sends wrong wrong_last t soon =
    let tried =
      guesses-Trying g address name password pk c first 0 (length first) s named few (omega arith)
        (omega arith) wrong t in
    let h =
      last_step g address name password pk c last word (length first)
        (guesses g address name first s) named few (omega arith) sends wrong_last tried in
    rw (guesses-append g address name first last word s) (
      h,
      (authenticate_refuses_locked (clock_at g later) address' name any_word _ h.found
          (ground (arith, h.locked))).0,
    )
