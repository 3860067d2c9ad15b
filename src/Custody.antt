-- ===== src/Custody.antt =====
-- src/app/custody: the bytes that a worker made are pulled, verified, stored and served.
pub mod Candidates
pub mod Verifier
pub mod Harvester
pub mod Store
pub mod Service
