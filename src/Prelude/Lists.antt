-- ===== src/Prelude/Lists.antt =====
-- Lists measured by native numbers, Boolean quantifiers and filters, and a predicate by recursion.
use first_brief.Prelude.Tests.{◌==◌, if◌then◌else◌, Bool-cases}
use mathlib.Core.Logic.{inl, inr}
use Prim.Native.Nat.{ℕ, zero, suc, ◌+◌, ◌≤◌}
use mathlib.Core.Path.{◌≡◌, refl, ap}
use mathlib.Core.Bool.{Bool, true, false, ◌&&◌, ◌||◌}
use mathlib.Core.Option.{Option, none, some}
use mathlib.Core.List.{List, [], ◌∷◌, ◌++◌}
use native.Mathlib.Omega.{arith}

module _ {ℓ} {A : Type ℓ} where
  abbrev pub length : List A → ℕ
  length [] = 0
  length (x ∷ xs) = suc (length xs)

  abbrev pub take : ℕ → List A → List A
  take zero xs = []
  take (suc n) [] = []
  take (suc n) (x ∷ xs) = x ∷ take n xs

  -- `any(p(x) for x in xs)` and `queryset.filter(p).exists()`
  unfoldable pub any : (A → Bool) → List A → Bool
  any p [] = false
  any p (x ∷ xs) = p x || any p xs

  -- `all(p(x) for x in xs)`
  unfoldable pub all : (A → Bool) → List A → Bool
  all p [] = true
  all p (x ∷ xs) = p x && all p xs

  -- `queryset.filter(p)` and `[x for x in xs if p(x)]`
  unfoldable pub filter : (A → Bool) → List A → List A
  filter p [] = []
  filter p (x ∷ xs) = let rest = filter p xs in if p x then x ∷ rest else rest

  -- `queryset.filter(p).first()`
  unfoldable pub find : (A → Bool) → List A → Option A
  find p [] = none
  find p (x ∷ xs) = if p x then some x else find p xs

  -- `queryset.filter(p).update(f)`
  unfoldable pub update_where : (A → Bool) → (A → A) → List A → List A
  update_where p f [] = []
  update_where p f (x ∷ xs) = (if p x then f x else x) ∷ update_where p f xs

  abbrev pub All {κ} : (A → Type κ) → List A → Type κ
  All P [] = Unit
  All P (x ∷ xs) = P x × All P xs

  pub length-append : (xs ys : List A) → length (xs ++ ys) ≡ length xs + length ys
  length-append [] ys = omega arith
  length-append (x ∷ xs) ys = omega (arith, length-append xs ys)

  pub length-take : (n : ℕ) (xs : List A) → length (take n xs) ≤ n
  length-take zero xs = omega arith
  length-take (suc n) [] = omega arith
  length-take (suc n) (x ∷ xs) = omega (arith, length-take n xs)

  -- What is cut off nowhere is there as a whole.
  pub take-all : (n : ℕ) (xs : List A) → length xs ≤ length (take n xs) → take n xs ≡ xs
  take-all zero [] long = refl
  take-all zero (x ∷ xs) long = absurd (omega (arith, long))
  take-all (suc n) [] long = refl
  take-all (suc n) (x ∷ xs) long = ap (λ ys. x ∷ ys) (take-all n xs (omega (arith, long)))

module _ {ℓ κ κ'} {A : Type ℓ} {P : A → Type κ} {Q : A → Type κ'} (f : (x : A) → P x → Q x) where
  pub All-map : (xs : List A) → All P xs → All Q xs
  All-map [] h = tt
  All-map (x ∷ xs) (p, ps) = (f x p, All-map xs ps)

-- `n in ns` for primary keys.
unfoldable pub contains : ℕ → List ℕ → Bool
contains n [] = false
contains n (m ∷ ms) = n == m || contains n ms

module _ {ℓ} {A : Type ℓ} (p : A → Bool) where
  pub find-append_none : (xs ys : List A) → find p xs ≡ none → find p (xs ++ ys) ≡ find p ys
  unfolding find
  find-append_none [] ys h = refl
  find-append_none (x ∷ xs) ys h = ground (arith, find-append_none xs ys)

  pub find-append_some : (xs ys : List A) {x : A} → find p xs ≡ some x → find p (xs ++ ys) ≡ some x
  unfolding find
  find-append_some [] ys {x} h = cc
  find-append_some (y ∷ xs) ys {x} h = ground (arith, find-append_some xs ys {x = x})

module _ {ℓ} {A : Type ℓ} where
  pub all_mono :
      (p q : A → Bool)
      → ((x : A) → p x ≡ true → q x ≡ true)
      → (xs : List A) → all p xs ≡ true
      → all q xs ≡ true
  unfolding all
  all_mono p q f [] h = refl
  all_mono p q f (x ∷ xs) h = ground (arith, f x, all_mono p q f xs)

  pub filter-append :
      (p : A → Bool) (xs ys : List A) → filter p (xs ++ ys) ≡ filter p xs ++ filter p ys
  unfolding filter
  filter-append p [] ys = refl
  filter-append p (x ∷ xs) ys = ground (arith, filter-append p xs ys)

  pub filter-none : (p : A → Bool) (xs : List A) → All (λ x. p x ≡ false) xs → filter p xs ≡ []
  unfolding filter
  filter-none p [] h = refl
  filter-none p (x ∷ xs) (h, hs) = ground (arith, h, filter-none p xs hs)

module _ {ℓ κ} {A : Type ℓ} (P : A → Type κ) (p : A → Bool) where
  pub All-filter : (xs : List A) → All P xs → All P (filter p xs)
  unfolding filter
  All-filter [] h = tt
  All-filter (x ∷ xs) (q, qs) = elim (Bool-cases (p x)) [
    | inl kept ↦ rw kept (q, All-filter xs qs)
    | inr left_out ↦ rw left_out (All-filter xs qs)
  ]

  -- What holds of all elements holds of the one that is found.
  pub find-All : (xs : List A) {x : A} → find p xs ≡ some x → All P xs → P x
  unfolding find
  find-All [] {x} found h = ground arith
  find-All (y ∷ ys) {x} found (q, qs) = elim (Bool-cases (p y)) [
    | inl kept ↦ let same : x ≡ y = ground (arith, found, kept) in rw same q
    | inr left_out ↦ find-All ys {x = x} (rw left_out at found) qs
  ]

module _ {ℓ} {A : Type ℓ} (p : A → Bool) where
  -- What a filter leaves passes its test.
  pub filter-All : (xs : List A) → All (λ x. p x ≡ true) (filter p xs)
  unfolding filter
  filter-All [] = tt
  filter-All (x ∷ xs) = elim (Bool-cases (p x)) [
    | inl kept ↦ rw kept (kept, filter-All xs)
    | inr left_out ↦ rw left_out (filter-All xs)
  ]

  pub find-holds : (xs : List A) {x : A} → find p xs ≡ some x → p x ≡ true
  unfolding find
  find-holds [] {x} found = ground arith
  find-holds (y ∷ ys) {x} found = ground (arith, find-holds ys {x = x})

module _ {ℓ κ κ' κ''} {A : Type ℓ} {P : A → Type κ} {Q : A → Type κ'} (R : A → Type κ'')
    (f : (x : A) → P x → Q x → R x) where
  pub All-both : (xs : List A) → All P xs → All Q xs → All R xs
  All-both [] h k = tt
  All-both (x ∷ xs) (p, ps) (q, qs) = (f x p q, All-both xs ps qs)

module _ {ℓ κ} {A : Type ℓ} {P : A → Type κ} (f : (x : A) → P x) where
  pub All-every : (xs : List A) → All P xs
  All-every [] = tt
  All-every (x ∷ xs) = (f x, All-every xs)
