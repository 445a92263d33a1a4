-- ===== src/Login.antt =====
-- Signing in: server/bbz_core/auth and its stores.
pub mod Policy
pub mod Local
pub mod Totp
pub mod Sessions
