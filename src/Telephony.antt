-- ===== src/Telephony.antt =====
-- The telephony domain: server/bbz_core/domain/telephony.
pub mod State
pub mod Call
