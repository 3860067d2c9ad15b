-- ===== src/Generation.antt =====
-- src/app/generation: what a worker claims, and what of it is accepted.
pub mod Manifest
pub mod Paths
pub mod Acl
pub mod Service
