-- ===== src/Orchestration.antt =====
-- src/app/orchestration: the workflow engine and the use cases.
pub mod Policy
pub mod Ports
pub mod Runner
pub mod Service
pub mod Reads
pub mod Sweeper
