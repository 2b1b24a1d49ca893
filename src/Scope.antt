-- ===== src/Scope.antt =====
-- internal/scope/scope.go: repository paths and write scopes.
pub mod Names
pub mod Matching
pub mod Rules
