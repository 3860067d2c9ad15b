-- ===== src/Examples.antt =====
-- Concrete data, runs of the definitions on it, and the theorems at it.
pub mod Data
pub mod Ids
pub mod Queue
pub mod Tables
pub mod Runs
pub mod Claims
pub mod Custody
pub mod Service
pub mod Sweeps
pub mod Cursors
pub mod Objects
pub mod Intake
pub mod Pipeline
pub mod Rendering
pub mod Edge
pub mod Api
