-- ===== src/Delivery/Outbox/Backoff.antt =====
-- server/bbz_core/infra/outbox.py: the delay before an action is tried again.
use Prim.Native.Nat.{◌^◌}
use bbz_platform.Prelude.{ℕ, zero, suc, ◌*◌, ◌≤◌, arith}
use bbz_platform.Delivery.Outbox.{delay, base_backoff, max_backoff}

pow-pos : (n : ℕ) → 1 ≤ 2 ^ n
pow-pos zero = omega arith
pow-pos (suc n) = omega (arith, pow-pos n)

-- It never shrinks from one attempt to the next, doubles until the cap, and stays within the base
-- delay and the cap.
pub delay_grows :
    (n : ℕ)
    → (delay n ≤ delay (suc n))
      × (delay (suc n) ≤ 2 * delay n)
      × (base_backoff ≤ delay n)
      × (delay n ≤ max_backoff)
unfolding delay
delay_grows n = ground (arith, pow-pos n)
