-- ===== src/Triggers.antt =====
-- Technical triggers: server/bbz_core/domain/triggers (the normalized signals and the rules over
-- them).
pub mod Signals
pub mod Rules
pub mod Actions
pub mod Alarms
