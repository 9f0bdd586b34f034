-- ===== src/Notifications.antt =====
-- firstbrief/notifications: lifecycle schedule, outbox and delivery.
pub mod Model
pub mod Recipients
pub mod QuietHours
pub mod Schedule
pub mod Queue
pub mod DueJobs
pub mod Outbox
pub mod Delivery
mod Examples
