-- ===== src/Events.antt =====
-- The event domain: server/bbz_core/domain/events.
pub mod State
pub mod Aggregate
