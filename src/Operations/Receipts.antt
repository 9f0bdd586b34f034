-- ===== src/Operations/Receipts.antt =====
-- The calls that write receipts, and what it means that there is one receipt for each reader and
-- message.
pub mod Preserved
use first_brief.Prelude.{
  ℕ, ◌+◌, ◌-◌, ◌≤◌, String, ◌≡◌, refl, inl, inr, Bool, false, none, List, [], ◌∷◌, ◌++◌, arith,
  if◌then◌else◌, any, filter, length, update_where, Bool-cases,
}
use first_brief.Messaging.Model.{Message}
use first_brief.Operations.Actions.{stamped, record_print, submit_feedback, email_message_to_self}
use first_brief.Store.{Db}
use first_brief.Identity.Model.{User}
use first_brief.Operations.Reading.{
  with_receipt, is_receipt, open_message_view, close_message_view, save_reading_position,
  new_receipt,
}
use first_brief.Operations.Access.{Desk}
use first_brief.Operations.Model.{Viewed, Readings, MessageReceipt, EventType, ℤ}
use first_brief.Errors.{Result, ok, err}

-- The calls that write receipts, with their arguments.
pub data Call : Type 0 where
  view : ℕ → Viewed → String → ℕ → Call
  close : ℕ → Viewed → ℕ → ℤ → Bool → Bool → Call
  position : ℕ → Viewed → ℕ → ℤ → ℤ → Call
  print : User → Message → String → Call
  mail : User → Message → String → String → Call
  feedback : User → Message → String → String → String → Call

abbrev second : {A : Type 0} → Result (A × Readings) → Result Readings
second (ok (a, rs)) = ok rs
second (err e) = err e

unfoldable pub call : Desk → Db → Call → Readings → Result Readings
call desk db (Call.view actor message browser pk) rs =
    open_message_view desk.context actor message browser pk db.versions rs
call desk db (Call.close actor message pk active clear changed) rs =
    close_message_view desk.context actor message pk active clear changed rs
call desk db (Call.position actor message pk page total) rs =
    second (save_reading_position actor message pk page total rs)
call desk db (Call.print actor message browser) rs = ok (record_print desk actor message browser rs)
call desk db (Call.mail actor message browser url) rs =
    second (email_message_to_self desk actor message browser url db rs)
call desk db (Call.feedback actor message subject body browser) rs =
    second (submit_feedback desk actor message subject body browser db rs)

abbrev kept : ℕ → ℕ → List MessageReceipt → ℕ
kept user pk rs = length (filter (is_receipt user pk) rs)

-- At most one receipt for a reader and a message.
unfoldable pub IsUnique : List MessageReceipt → Type 0
IsUnique rs = (user pk : ℕ) → kept user pk rs ≤ 1

kept-update :
    (user pk : ℕ) (test : MessageReceipt → Bool) (f : MessageReceipt → MessageReceipt)
    → ((r : MessageReceipt) → ((f r).user_pk ≡ r.user_pk) × ((f r).message_pk ≡ r.message_pk))
    → (rs : List MessageReceipt) → kept user pk (update_where test f rs) ≡ kept user pk rs
unfolding filter update_where
kept-update user pk test f keeps [] = refl
kept-update user pk test f keeps (r ∷ rs) =
    let (a, b) = keeps r in ground (arith, a, b, kept-update user pk test f keeps rs)

kept-none :
    (user pk : ℕ) (rs : List MessageReceipt)
    → any (is_receipt user pk) rs ≡ false
    → kept user pk rs ≡ 0
unfolding filter any
kept-none user pk [] free = refl
kept-none user pk (r ∷ rs) free = ground (arith, kept-none user pk rs)

kept-snoc :
    (user pk : ℕ) (rs : List MessageReceipt) (r : MessageReceipt)
    → kept user pk (rs ++ r ∷ []) ≡ kept user pk rs + (if is_receipt user pk r then 1 else 0)
unfolding filter
kept-snoc user pk [] r = ground arith
kept-snoc user pk (s ∷ rs) r = ground (arith, kept-snoc user pk rs r)

with_receipt-IsUnique :
    (user pk : ℕ) (rs : List MessageReceipt) → IsUnique rs → IsUnique (with_receipt user pk rs)
unfolding IsUnique with_receipt
with_receipt-IsUnique user pk rs one u p = elim (Bool-cases (any (is_receipt user pk) rs)) [
  | inl there ↦ rw there (one u p)
  | inr free ↦
      rw free
        (ground (arith, one u p, kept-none user pk rs free, kept-snoc u p rs (new_receipt user pk)))
]

pub touched-IsUnique :
    (user pk : ℕ) (f : MessageReceipt → MessageReceipt)
    → ((r : MessageReceipt) → ((f r).user_pk ≡ r.user_pk) × ((f r).message_pk ≡ r.message_pk))
    → (rs : List MessageReceipt) → IsUnique rs
    → IsUnique (update_where (is_receipt user pk) f (with_receipt user pk rs))
unfolding IsUnique
touched-IsUnique user pk f keeps rs one u p = ground (
  arith,
  kept-update u p (is_receipt user pk) f keeps (with_receipt user pk rs),
  with_receipt-IsUnique user pk rs one u p,
)

pub stamped-keeps :
    (now : ℕ) (type : EventType) (r : MessageReceipt)
    → ((stamped now type r).user_pk ≡ r.user_pk) × ((stamped now type r).message_pk ≡ r.message_pk)
stamped-keeps now EventType.opened r = (refl, refl)
stamped-keeps now EventType.acknowledged r = (refl, refl)
stamped-keeps now EventType.cleared r = (refl, refl)
stamped-keeps now EventType.read r = (refl, refl)
stamped-keeps now EventType.printed r = (refl, refl)
stamped-keeps now EventType.emailed r = (refl, refl)
stamped-keeps now EventType.feedback r = (refl, refl)
