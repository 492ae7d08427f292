-- ===== src/Types.antt =====
-- src/frontend/type.ts: namespaces, type signatures, template maps and constraint scopes.
pub mod Syntax
pub mod Namespace
pub mod Keys
pub mod Mapper
pub mod Constraints
