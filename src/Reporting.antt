-- ===== src/Reporting.antt =====
-- firstbrief/reporting: the runs of reports.
pub mod Runs
mod Examples
