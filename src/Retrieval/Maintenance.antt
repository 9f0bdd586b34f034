-- ===== src/Retrieval/Maintenance.antt =====
-- `permitted_maintenance_actions` of firstbrief/retrieval/services.py.
pub mod Complete
use first_brief.Prelude.{
  ℕ, Bool, true, false, ◌&&◌, ◌||◌, List, [], ◌∷◌, ◌++◌, ltb, ◌==◌, if◌then◌else◌,
}
use first_brief.Identity.Model.{User}
use first_brief.Identity.Access.{has_capability, approve_messages, manage_messages}
use first_brief.Messaging.Model.{Status, Message, status_eq, is_in}
use first_brief.Store.{◌>>=◌, ◌>>◌, Env, Tx, pure, current_version}

-- The texts that the function returns, one constructor for each.
pub data Action : Type 0 where
  edit approve unapprove withdraw cancel restore : Action

abbrev action_code : Action → ℕ
action_code Action.edit = 0
action_code Action.approve = 1
action_code Action.unapprove = 2
action_code Action.withdraw = 3
action_code Action.cancel = 4
action_code Action.restore = 5

-- `action in actions`
unfoldable pub offers : Action → List Action → Bool
offers a [] = false
offers a (b ∷ bs) = action_code a == action_code b || offers a bs

abbrev pub when : Bool → Action → List Action
when true a = a ∷ []
when false a = []

-- The version is looked at only if the two tests before it hold.
unfoldable pub may_unapprove : Env → User → Message → Tx Bool
may_unapprove env actor message =
    if status_eq message.status Status.approved_pending_release
      && has_capability actor approve_messages
    then (do version ← current_version message; pure (ltb env.now version.release_at))
    else pure false

abbrev pub before_unapprove : User → Message → List Action
before_unapprove actor message =
    when (has_capability actor manage_messages) Action.edit
    ++ when (status_eq message.status Status.draft && has_capability actor approve_messages)
        Action.approve

abbrev pub after_unapprove : User → Message → List Action
after_unapprove actor message =
    if has_capability actor manage_messages
    then when
        (is_in message.status
          (Status.approved_pending_release ∷ Status.released_pending_effective ∷ []))
        Action.withdraw
      ++ (when (is_in message.status (Status.released_pending_effective ∷ Status.effective ∷ []))
            Action.cancel
          ++ when (status_eq message.status Status.archived) Action.restore)
    else []

unfoldable pub permitted_maintenance_actions : Env → User → Message → Tx (List Action)
unfolding may_unapprove
permitted_maintenance_actions env actor message = do
  unapprovable ← may_unapprove env actor message
  pure (
      before_unapprove actor message
      ++ (when unapprovable Action.unapprove ++ after_unapprove actor message))
