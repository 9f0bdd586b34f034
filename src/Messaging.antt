-- ===== src/Messaging.antt =====
-- firstbrief/messaging: the message aggregate, its versions, its lifecycle commands and its audience.
pub mod Model
pub mod Validation
pub mod Rights
pub mod Transition
pub mod Authoring
pub mod Lifecycle
pub mod Withdrawal
pub mod Requests
pub mod StateMachine
pub mod Effects
pub mod Guarantees
pub mod Replay
pub mod History
pub mod Scenarios
mod Examples
