-- ===== src/Checker/Sound.antt =====
-- The checks of src/frontend/checker.ts on statements are sound for the paths through them, and
-- where they return.
pub mod Ensures
pub mod Keeps
pub mod Ready
pub mod Simple
pub mod Assignments
pub mod Scopes
pub mod Blocks
pub mod Branches
pub mod Merges
pub mod Returns
pub mod Conditionals
pub mod Choices
pub mod Matches
pub mod Sequences
pub mod Tree
pub mod Bodies
