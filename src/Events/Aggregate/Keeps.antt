-- ===== src/Events/Aggregate/Keeps.antt =====
-- The rule for a `do` block: a predicate that each part keeps, whether it returns or raises, holds
-- after the block.
use bbz_platform.Prelude.{Result, ok, err}
use bbz_platform.Events.Aggregate.{EventAggregate, EventDomainError, then_run}

pub then_run-keeps {ℓ κ ν} :
    {A : Type ℓ} {B : Type κ} (P : EventAggregate → Type ν)
    (m : Result EventDomainError A × EventAggregate)
    (f : A → EventAggregate → Result EventDomainError B × EventAggregate)
    → P m.1
    → ((x : A) (b : EventAggregate) → P b → P (f x b).1)
    → P (then_run m f).1
then_run-keeps P (ok x, a) f w k = k x a w
then_run-keeps P (err e, a) f w k = w
