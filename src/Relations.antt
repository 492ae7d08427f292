-- ===== src/Relations.antt =====
-- The relations on types that src/frontend/checker_relations.ts computes.
pub mod Outcome
pub mod Same
pub mod Provides
pub mod Subtype
pub mod Split
pub mod ResultSplit
pub mod OptionSplit
