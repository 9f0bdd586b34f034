-- ===== src/Notifications/Recipients.antt =====
-- `_deduplicated_recipients` and the recipient lists of firstbrief/notifications/services.py.
use Prim.Native.Nat.{Ordering}
use Prim.Native.String.{compare}
use first_brief.Prelude.{
  ℕ, Option, none, some, List, [], ◌∷◌, ◌++◌, map, String, is_blank, filter, not, str_eq,
  if◌then◌else◌,
}
use first_brief.Messaging.Model.{Message}
use first_brief.Store.{Env}

-- One more member of a set that is kept as a sorted list.
unfoldable pub insert_sorted : String → List String → List String
insert_sorted s [] = s ∷ []
insert_sorted s (t ∷ ts) = elim (compare s t) [
  | Ordering.lt ↦ s ∷ t ∷ ts
  | Ordering.eq ↦ t ∷ ts
  | Ordering.gt ↦ t ∷ insert_sorted s ts
]

unfoldable pub deduplicated_recipients : (String → String) → List String → List String
unfolding insert_sorted
deduplicated_recipients normalise [] = []
deduplicated_recipients normalise (value ∷ values) =
    let rest = deduplicated_recipients normalise values in
    if is_blank value then rest else insert_sorted (normalise value) rest

distributions : Env → Option ℕ → List String
distributions env none = []
distributions env (some subtype_id) = elim (env.message_subtype subtype_id) [
  | none ↦ []
  | some subtype ↦ subtype.distribution_emails
]

-- `_creation_recipients`
unfoldable pub creation_recipients : Env → Message → List String
unfolding distributions
creation_recipients env message = deduplicated_recipients env.normalise (
    filter (λ email. not (str_eq email "")) (map env.user_email message.approvers)
    ++ distributions env message.subtype_id)

-- `_approval_recipients`
unfoldable pub approval_recipients : Env → Message → List String
unfolding distributions
approval_recipients env message =
    deduplicated_recipients env.normalise
      (env.identity_policy.approval_notification_email ∷ distributions env message.subtype_id)

-- `_unapproved_recipients`
unfoldable pub unapproved_recipients : Env → List String
unapproved_recipients env =
    deduplicated_recipients env.normalise (env.identity_policy.policy_notification_email ∷ [])
