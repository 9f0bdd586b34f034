-- ===== src/Assurance.antt =====
-- firstbrief/assurance: the append-only audit log, legal holds, retention and purge.
pub mod Model
pub mod Audit
pub mod Retention
mod Examples
