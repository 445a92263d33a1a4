-- ===== src/Audit.antt =====
-- The audit log: its hash chain (server/bbz_core/infra/repositories/audit_chain.py).
pub mod Chain
