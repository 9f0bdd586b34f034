-- ===== src/SapImport.antt =====
-- firstbrief/sapimport: staging a file of users, and committing the rows that were selected.
pub mod Model
pub mod Parsing
pub mod Staging
pub mod Committing
mod Examples
