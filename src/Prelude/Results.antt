-- ===== src/Prelude/Results.antt =====
-- A Python call that may raise: its value, or the exception. The exceptions of a component are a
-- data type of its own.
use mathlib.Core.Path.{◌≡◌, refl}
use mathlib.Core.Logic.{◌⊎◌, inl, inr}
use mathlib.Core.Bool.{Bool, true, false}

pub data Result {ℓ} (E : Type 0) (A : Type ℓ) : Type ℓ where
  ok : A → Result E A
  err : E → Result E A

-- `if not test: raise e`
abbrev pub guard : {E : Type 0} → Bool → E → Result E (Unit {0})
guard test e = elim test [ false ↦ err e | true ↦ ok tt ]

-- a statement, and what follows where it returns
infixl 5 ◌>>=◌ ◌>>◌
abbrev pub ◌>>=◌ {κ ℓ} :
    {B : Type κ} {E : Type 0} {A : Type ℓ} → Result E A → (A → Result E B) → Result E B
call >>= next = elim call [ err raised ↦ err raised | ok value ↦ next value ]

abbrev pub ◌>>◌ {κ} : {B : Type κ} {E : Type 0} → Result E (Unit {0}) → Result E B → Result E B
call >> next = call >>= λ done. next

pub Result-cases {ℓ} :
    {E : Type 0} {A : Type ℓ} (r : Result E A) → ((a : A) × (r ≡ ok a)) ⊎ ((e : E) × (r ≡ err e))
Result-cases (ok a) = inl (a, refl)
Result-cases (err e) = inr (e, refl)

abbrev pub is_ok {ℓ} : {E : Type 0} {A : Type ℓ} → Result E A → Bool
is_ok (ok _) = true
is_ok (err _) = false

-- A sequence that returns: its first part returned, and so did the rest.
pub >>=-eq-ok {ℓ κ} :
    {B : Type κ} {E : Type 0} {A : Type ℓ} (call : Result E A) (next : A → Result E B) {final : B}
    → (call >>= next) ≡ ok final
    → (value : A) × (call ≡ ok value) × (next value ≡ ok final)
>>=-eq-ok (err raised) next returned = absurd (cc returned)
>>=-eq-ok (ok value) next returned = (value, refl, returned)

pub ok_injective {ℓ} :
    {E : Type 0} {A : Type ℓ} {a b : A} → ◌≡◌ {A = Result E A} (ok a) (ok b) → a ≡ b
ok_injective p = cc

-- A test that a returning sequence begins with has passed.
pub guard-eq-ok {ℓ} :
    {E : Type 0} {B : Type ℓ} (b : Bool) (e : E) (k : Result E B) {x : B}
    → (guard b e >> k) ≡ ok x
    → (b ≡ true) × (k ≡ ok x)
guard-eq-ok true e k h = (refl, h)
guard-eq-ok false e k h = cc
