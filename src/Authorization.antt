-- ===== src/Authorization.antt =====
-- Who may do what: server/bbz_core/authorization.
pub mod Keys
pub mod Grants
pub mod Resolve
pub mod Service
