-- ===== src/Effects.antt =====
-- Python calls that may raise: a result for pure code, and actions on a state, which keep what was
-- written before a raise.
mod Outcome
pub mod Pure
pub mod Exec
pub mod Triples
pub mod Frames
pub use Outcome.{Result, ok, err, Result-cases}
