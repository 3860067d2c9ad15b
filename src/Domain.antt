-- ===== src/Domain.antt =====
-- src/app/domain: vocabularies, errors, identifiers, records and output contracts.
pub mod Enums
pub mod Values
pub mod Errors
pub mod Json
pub mod Ids
pub mod Records
pub mod Contracts
pub mod Cursors
pub mod Briefs
