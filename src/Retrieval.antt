-- ===== src/Retrieval.antt =====
-- firstbrief/retrieval: what the search and the maintenance pages show.
pub mod Maintenance
pub mod Search
mod Examples
