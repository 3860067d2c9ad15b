-- ===== src/Storage.antt =====
-- src/app/storage/memory: the tables in memory and the adapters over them.
pub mod State
pub mod Listing
pub mod Queue
pub mod Jobs
pub mod Submission
pub mod Objects
pub mod Artifacts
pub mod Briefs
pub mod Principals
pub mod Rows
