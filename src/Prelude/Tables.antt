-- ===== src/Prelude/Tables.antt =====
-- A database table as a list of rows with their primary keys, in the order of insertion.
use first_brief.Prelude.{◌==◌, if◌then◌else◌}
use Prim.Native.Nat.{ℕ}
use mathlib.Core.Path.{◌≡◌}
use mathlib.Core.Option
use mathlib.Core.Option.{Option, none, some}
use mathlib.Core.List.{List, [], ◌∷◌, ◌++◌}
use native.Mathlib.Omega.{arith}

abbrev pub Table {ℓ} : Type ℓ → Type ℓ
Table A = List (ℕ × A)

module _ {ℓ} {A : Type ℓ} where
  -- `objects.get(pk=k)`, with `none` for `DoesNotExist`
  unfoldable pub lookup : ℕ → Table A → Option A
  lookup k [] = none
  lookup k ((j, v) ∷ t) = if j == k then some v else lookup k t

  -- `objects.filter(pk=k).update(...)`
  unfoldable pub adjust : ℕ → (A → A) → Table A → Table A
  adjust k f [] = []
  adjust k f ((j, v) ∷ t) = (j, (if j == k then f v else v)) ∷ adjust k f t

  pub lookup-adjust :
      (j k : ℕ) (f : A → A) (t : Table A)
      → lookup j (adjust k f t) ≡ (if k == j then Option.map f (lookup j t) else lookup j t)
  unfolding lookup adjust
  lookup-adjust j k f [] = ground arith
  lookup-adjust j k f ((i, v) ∷ t) = ground (arith, lookup-adjust j k f t)

  -- A new row under a fresh key.
  pub lookup-append :
      (j k : ℕ) (v : A) (t : Table A)
      → lookup j (t ++ (k, v) ∷ [])
        ≡ elim (lookup j t) [ some w ↦ some w | none ↦ if k == j then some v else none ]
  unfolding lookup
  lookup-append j k v [] = ground arith
  lookup-append j k v ((i, w) ∷ t) = ground (arith, lookup-append j k v t)
