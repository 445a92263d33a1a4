-- ===== src/Monitor.antt =====
-- Monitor and KVM routing: server/bbz_core/domain/monitor (the catalogue and the layout rules) and
-- the writes of server/bbz_core/infra/repositories/monitor_routing.py.
pub mod Layout
pub mod Routing
