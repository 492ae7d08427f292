-- ===== src/Checker.antt =====
-- `checkStatement` and `checkBodyImplementation` of src/frontend/checker.ts: the checks of a body's
-- statements and how they flow the environment.
pub mod Syntax
pub mod Report
pub mod Variables
pub mod Assign
pub mod Flow
pub mod Statements
pub mod Paths
pub mod Sound
pub mod Captured
