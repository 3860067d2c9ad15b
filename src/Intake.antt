-- ===== src/Intake.antt =====
-- src/app/intake: a stored body becomes a sealed brief.
pub mod Sanitiser
pub mod Fences
pub mod Templates
pub mod Sealer
pub mod Stored
pub mod Rendering
pub mod Service
