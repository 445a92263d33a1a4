-- ===== src/Delivery.antt =====
-- Side effects and deliveries that happen once: server/bbz_core/infra (the outbox, the inbox, the
-- idempotency store, the rate limiter) and server/bbz_core/workers/outbox_dispatcher.py.
pub mod Outbox
pub mod Dispatcher
pub mod Idempotency
pub mod RateLimit
pub mod Inbox
