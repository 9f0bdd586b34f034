-- ===== src/Operations.antt =====
-- firstbrief/operations: reading messages, with viewing sessions, receipts and reading positions.
pub mod Access
pub mod Listing
pub mod Actions
pub mod Dashboard
pub mod Model
pub mod Policy
pub mod Receipts
pub mod Reading
mod Examples
pub mod DeskExamples
