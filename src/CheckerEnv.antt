-- ===== src/CheckerEnv.antt =====
-- src/frontend/checker_environment.ts: what the checker knows of the variables at a program point.
pub mod Syntax
pub mod Operations
pub mod Merge
pub mod Extends
pub mod Frames
