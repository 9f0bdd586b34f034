-- ===== src/Operations/Reading/Touched.antt =====
-- The receipt of one reader and message, which reading, printing and mailing create or update.
use first_brief.Prelude.{
  ℕ, ◌≡◌, refl, inl, inr, true, false, ◌&&◌, some, List, [], ◌∷◌, ◌++◌, arith, any, find, filter,
  or_else, update_where, Bool-cases, ◌==◌,
}
use first_brief.Operations.Model.{MessageReceipt}
use first_brief.Operations.Reading.{is_receipt, with_receipt, new_receipt}

-- From one table of receipts to the next only the receipt of a reader and a message changes, which is
-- created where there is none.
pub record Touched (user pk : ℕ) (f : MessageReceipt → MessageReceipt)
    (rs rs' : List MessageReceipt) : Type 0 where
  pub own :
      find (is_receipt user pk) rs'
      ≡ some (f (or_else (find (is_receipt user pk) rs) (new_receipt user pk)))
  pub others :
      (u p : ℕ)
      → (u == user && p == pk) ≡ false
      → filter (is_receipt u p) rs' ≡ filter (is_receipt u p) rs

module _ (user pk : ℕ) (f : MessageReceipt → MessageReceipt)
    (keeps : (r : MessageReceipt)
      → ((f r).user_pk ≡ r.user_pk) × ((f r).message_pk ≡ r.message_pk)) where
  own-there :
      (rs : List MessageReceipt)
      → any (is_receipt user pk) rs ≡ true
      → find (is_receipt user pk) (update_where (is_receipt user pk) f rs)
        ≡ some (f (or_else (find (is_receipt user pk) rs) (new_receipt user pk)))
  unfolding find any update_where
  own-there [] there = ground arith
  own-there (r ∷ rs) there = let (a, b) = keeps r in ground (arith, a, b, own-there rs)

  own-free :
      (rs : List MessageReceipt)
      → any (is_receipt user pk) rs ≡ false
      → find
          (is_receipt user pk)
          (update_where (is_receipt user pk) f (rs ++ new_receipt user pk ∷ []))
        ≡ some (f (or_else (find (is_receipt user pk) rs) (new_receipt user pk)))
  unfolding find any update_where
  own-free [] free = let (a, b) = keeps (new_receipt user pk) in ground (arith, a, b)
  own-free (r ∷ rs) free = ground (arith, own-free rs)

  others-updated :
      (u p : ℕ) (rs : List MessageReceipt)
      → (u == user && p == pk) ≡ false
      → filter (is_receipt u p) (update_where (is_receipt user pk) f rs)
        ≡ filter (is_receipt u p) rs
  unfolding filter update_where
  others-updated u p [] other = refl
  others-updated u p (r ∷ rs) other =
      let (a, b) = keeps r in ground (arith, a, b, others-updated u p rs other)

  others-snoc :
      (u p : ℕ) (rs : List MessageReceipt)
      → (u == user && p == pk) ≡ false
      → filter (is_receipt u p) (rs ++ new_receipt user pk ∷ []) ≡ filter (is_receipt u p) rs
  unfolding filter
  others-snoc u p [] other = ground arith
  others-snoc u p (r ∷ rs) other = ground (arith, others-snoc u p rs other)

  pub with_receipt-Touched :
      (rs : List MessageReceipt)
      → Touched user pk f rs (update_where (is_receipt user pk) f (with_receipt user pk rs))
  unfolding with_receipt
  with_receipt-Touched rs = elim (Bool-cases (any (is_receipt user pk) rs)) [
    | inl there ↦
        rw there
          (record { own = own-there rs there; others = λ u p other. others-updated u p rs other })
    | inr free ↦ rw free (record {
      own = own-free rs free;
      others = λ u p other. ground (
        arith,
        others-updated u p (rs ++ new_receipt user pk ∷ []) other,
        others-snoc u p rs other,
      );
    })
  ]
