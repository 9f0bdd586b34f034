-- ===== src/Messaging/History.antt =====
-- The status history tells the truth: every entry starts where the one before it ended, and the last
-- entry of a message is its status.
pub mod Preserved
use first_brief.Prelude.{
  ℕ, Option, none, some, List, [], ◌∷◌, ◌++◌, ◌≡◌, arith, ◌==◌, if◌then◌else◌,
}
use first_brief.Prelude.Tables.{lookup}
use first_brief.Messaging.Model.{Status, MessageRow, MessageStatusHistory}
use first_brief.Store.{Db}

-- The status in which the history leaves a message.
unfoldable pub last_status : ℕ → List MessageStatusHistory → Option Status
last_status pk [] = none
last_status pk (h ∷ hs) = elim (last_status pk hs) [
  | some s ↦ some s
  | none ↦ if h.message_pk == pk then some h.to_status else none
]

pub last_status-snoc :
    (pk : ℕ) (hs : List MessageStatusHistory) (h : MessageStatusHistory)
    → last_status pk (hs ++ h ∷ [])
      ≡ (if h.message_pk == pk then some h.to_status else last_status pk hs)
unfolding last_status
last_status-snoc pk [] h = ground arith
last_status-snoc pk (g ∷ hs) h = ground (arith, last_status-snoc pk hs h)

-- A history in which each entry starts from the status that the entries before it left.
pub data IsChain : List MessageStatusHistory → Type 0 where
  nil : IsChain []
  snoc :
      {hs hs' : List MessageStatusHistory} (h : MessageStatusHistory)
      → IsChain hs
      → h.from_status ≡ last_status h.message_pk hs
      → hs' ≡ hs ++ h ∷ []
      → IsChain hs'

abbrev pub status_of : Option MessageRow → Option Status
status_of none = none
status_of (some r) = some r.status

pub record IsRecorded (db : Db) : Type 0 where
  pub chain : IsChain db.history
  pub last : (pk : ℕ) → last_status pk db.history ≡ status_of (lookup pk db.messages)
