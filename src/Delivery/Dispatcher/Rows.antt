-- ===== src/Delivery/Dispatcher/Rows.antt =====
-- server/bbz_core/workers/outbox_dispatcher.py: what one transaction writes of a row, and how the
-- table holds it.
use bbz_platform.Prelude.{ℕ, List, nat_eq, length, filter}
use bbz_platform.Delivery.Outbox.{OutboxStatus, pending, max_attempts}
use bbz_platform.Delivery.Dispatcher.{AuditEntry}

-- The attempts that a row of this status may have used.
abbrev pub allowance : OutboxStatus → ℕ
allowance pending = 7
allowance _ = max_attempts

-- The audit rows that an action of this status has.
abbrev pub entries_due : OutboxStatus → ℕ
entries_due pending = 0
entries_due _ = 1

abbrev pub entries_of : ℕ → List AuditEntry → ℕ
entries_of id audit = length (filter (λ entry. nat_eq entry.target_id id) audit)
