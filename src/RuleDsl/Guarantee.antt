-- ===== src/RuleDsl/Guarantee.antt =====
-- What the check at publish time guarantees: in a context whose values have the types of the schema,
-- an accepted rule does not raise.
use bbz_platform.Prelude.{
  ℕ, zero, suc, ◌+◌, ◌≤◌, String, Bool, true, false, none, some, ◌≡◌, ◌≢◌, refl, Result, ok, err,
  arith, is_ok, is_some, if◌then◌else◌, Bool-cases, Result-cases, inl, inr, >>=-eq-ok,
}
use bbz_platform.RuleDsl.Value.{Value, int, str, list, object, order, within}
use bbz_platform.RuleDsl.Parse.{
  DslError, Operator, op_eq, op_ne, op_in, op_not_in, op_lt, op_lte, op_gt, op_gte, op_and, op_or,
  op_not, op_exists, Expr, node, Args, done, arg, Operand, nested, field_ref, literal,
}
use bbz_platform.RuleDsl.Eval.{
  Context, get, eval, all_true, any_true, only_truth, binary, truthy, value, field_exists, evaluate,
  apply_binary, max_depth,
}
use bbz_platform.RuleDsl.Context.{
  ContextSchema, FieldType, number, datetime, orderable, literal_matches, field_type, check,
  check_all, check_operand, check_pair, check_exists, check_types,
}

-- Each field of the schema has a value of its type.
abbrev pub HasTypes : ContextSchema → Context → Type 0
HasTypes schema ctx =
    (s : String) (ft : FieldType)
    → field_type schema s ≡ ok ft
    → literal_matches ft (get ctx s) ≡ true

-- The comparisons put a field on the left and a literal on the right, `and`, `or` and `not` have
-- operands enough, and expressions nest at most `k` deep.
unfoldable mutual
  pub IsSimple : Expr → ℕ → Type 0
  IsSimple (node o xs) k = elim o [
    | op_and ↦ AreSimple xs k × IsFilled xs
    | op_or ↦ AreSimple xs k × IsFilled xs
    | op_not ↦ AreSimple xs k × IsSingle xs
    | op_exists ↦ Unit
    | _ ↦ IsComparison xs
  ]

  pub AreSimple : Args → ℕ → Type 0
  AreSimple done k = Unit
  AreSimple (arg a xs) k = IsSimpleOperand a k × AreSimple xs k

  pub IsSimpleOperand : Operand → ℕ → Type 0
  IsSimpleOperand (nested e) k = elim k [ zero ↦ ⊥ | suc j ↦ IsSimple e j ]
  IsSimpleOperand _ k = Unit

  pub IsFilled : Args → Type 0
  IsFilled done = ⊥
  IsFilled (arg a xs) = Unit

  pub IsSingle : Args → Type 0
  IsSingle (arg a done) = Unit
  IsSingle _ = ⊥

  pub IsComparison : Args → Type 0
  IsComparison (arg (field_ref s) (arg (literal v) done)) = Unit
  IsComparison _ = ⊥

order_returns :
    (ft : FieldType) (l r : Value)
    → orderable ft ≡ true
    → literal_matches ft l ≡ true
    → literal_matches ft r ≡ true
    → is_some (order l r) ≡ true
unfolding order
order_returns number (int m) (int n) o p q = refl
order_returns datetime (str s) (str t) o p q = refl
order_returns ft l r o p q = cc

-- the check of an order, of a literal against a field of type `ft`
abbrev order_check : FieldType → Value → Result DslError (Unit {0})
order_check ft r = check_types op_lt (some ft) none (field_ref "") (literal r)

order_checked :
    (ft : FieldType) (r : Value)
    → order_check ft r ≡ ok tt
    → (orderable ft ≡ true) × (literal_matches ft r ≡ true)
order_checked ft r k = elim (Bool-cases (orderable ft)) [
  | inl e ↦
      (e, elim (Bool-cases (literal_matches ft r)) [ inl f ↦ f | inr f ↦ ground (arith, e, f) ])
  | inr e ↦ ground (arith, e)
]

test_returns :
    (ft : FieldType) (l r : Value)
    → literal_matches ft l ≡ true
    → order_check ft r ≡ ok tt
    → is_some (order l r) ≡ true
test_returns ft l r p k = let (o, q) = order_checked ft r k in order_returns ft l r o p q

within_returns :
    (ft : FieldType) (s : String) (l r : Value)
    → check_types op_in (some ft) none (field_ref s) (literal r) ≡ ok tt
    → is_some (within l r) ≡ true
unfolding within
within_returns ft s l (list vs) k = refl
within_returns ft s l r k = cc

apply_returns :
    (o : Operator) (ft : FieldType) (s : String) (l r : Value)
    → literal_matches ft l ≡ true
    → check_types o (some ft) none (field_ref s) (literal r) ≡ ok tt
    → (o ≢ op_and) × (o ≢ op_or) × (o ≢ op_not) × (o ≢ op_exists)
    → is_ok (apply_binary o l r) ≡ true
unfolding apply_binary
apply_returns op_eq ft s l r p k n = refl
apply_returns op_ne ft s l r p k n = refl
apply_returns op_in ft s l r p k n = ground (arith, within_returns ft s l r k)
apply_returns op_not_in ft s l r p k n = ground (arith, within_returns ft s l r k)
apply_returns op_lt ft s l r p k n = ground (arith, test_returns ft l r p k)
apply_returns op_lte ft s l r p k n = ground (arith, test_returns ft l r p k)
apply_returns op_gt ft s l r p k n = ground (arith, test_returns ft l r p k)
apply_returns op_gte ft s l r p k n = ground (arith, test_returns ft l r p k)
apply_returns op_and ft s l r p k n = absurd (n.0 refl)
apply_returns op_or ft s l r p k n = absurd (n.1 refl)
apply_returns op_not ft s l r p k n = absurd (n.2 refl)
apply_returns op_exists ft s l r p k n = absurd (n.3 refl)

abbrev IsTest : Operator → Type 0
IsTest o = (o ≢ op_and) × (o ≢ op_or) × (o ≢ op_not) × (o ≢ op_exists)

abbrev is_object : Value → Bool
is_object (object _) = true
is_object _ = false

literal_checked :
    (o : Operator) (ft : FieldType) (s : String) (r : Value)
    → check_types o (some ft) none (field_ref s) (literal r) ≡ ok tt
    → IsTest o
    → is_object r ≡ false
literal_checked op_and ft s r k n = absurd (n.0 refl)
literal_checked op_or ft s r k n = absurd (n.1 refl)
literal_checked op_not ft s r k n = absurd (n.2 refl)
literal_checked op_exists ft s r k n = absurd (n.3 refl)
literal_checked op_eq ft s r k n = ground arith
literal_checked op_ne ft s r k n = ground arith
literal_checked op_in ft s r k n = ground arith
literal_checked op_not_in ft s r k n = ground arith
literal_checked o ft s r k n = ground arith

value-literal :
    (v : Value) (ctx : Context) (n : ℕ) → is_object v ≡ false → value (literal v) ctx n ≡ ok v
unfolding value
value-literal v ctx n h = ground arith

binary-literal :
    (o : Operator) (s : String) (v : Value) (ctx : Context) (n : ℕ)
    → is_object v ≡ false
    → binary o (arg (field_ref s) (arg (literal v) done)) ctx n ≡ apply_binary o (get ctx s) v
unfolding binary value
binary-literal o s v ctx n h = ground arith

pair_types :
    (schema : ContextSchema) (o : Operator) (s : String) (v : Value)
    → check_pair schema o (arg (field_ref s) (arg (literal v) done)) ≡ ok tt
    → (ft : FieldType) × (field_type schema s ≡ ok ft)
      × (check_types o (some ft) none (field_ref s) (literal v) ≡ ok tt)
unfolding check_pair
pair_types schema o s v k = elim (Result-cases (field_type schema s)) [
  | inl (ft, e) ↦ (ft, e, rw e at k)
  | inr (x, e) ↦ absurd (cc (rw e at k))
]

-- the two short-circuit steps
every_returns :
    (r s : Result DslError Bool)
    → is_ok r ≡ true
    → is_ok s ≡ true
    → is_ok {A = Bool} (elim r [ err e ↦ err e | ok b ↦ if b then s else ok false ]) ≡ true
every_returns (ok true) s p q = q
every_returns (ok false) s p q = refl
every_returns (err e) s p q = p

some_returns :
    (r s : Result DslError Bool)
    → is_ok r ≡ true
    → is_ok s ≡ true
    → is_ok {A = Bool} (elim r [ err e ↦ err e | ok b ↦ if b then ok true else s ]) ≡ true
some_returns (ok true) s p q = refl
some_returns (ok false) s p q = q
some_returns (err e) s p q = p

module _ (schema : ContextSchema) (ctx : Context) (typed : HasTypes schema ctx) where
  comparison_returns :
      (o : Operator) (s : String) (v : Value) (n : ℕ)
      → IsTest o
      → check_pair schema o (arg (field_ref s) (arg (literal v) done)) ≡ ok tt
      → is_ok (binary o (arg (field_ref s) (arg (literal v) done)) ctx n) ≡ true
  comparison_returns o s v n test k =
      let (ft, e, t) = pair_types schema o s v k in
      rw (binary-literal o s v ctx n (literal_checked o ft s v t test))
        (apply_returns o ft s (get ctx s) v (typed s ft e) t test)

  exists_returns : (xs : Args) → check_exists schema xs ≡ ok tt → is_ok (field_exists xs ctx) ≡ true
  unfolding check_exists field_exists
  exists_returns done k = cc
  exists_returns (arg (nested e) xs) k = cc
  exists_returns (arg (literal v) xs) k = cc
  exists_returns (arg (field_ref s) done) k = refl
  exists_returns (arg (field_ref s) (arg b xs)) k = cc

  tests_return :
      (o : Operator) (xs : Args) (n : ℕ)
      → IsTest o
      → IsComparison xs
      → check_pair schema o xs ≡ ok tt
      → is_ok (binary o xs ctx n) ≡ true
  unfolding IsComparison
  tests_return o (arg (field_ref s) (arg (literal v) done)) n t h k = comparison_returns o s v n t k
  tests_return o done n t h k = absurd h
  tests_return o (arg a xs) n t h k = absurd h

  mutual
    unfolding eval all_true any_true only_truth truthy check check_all check_operand IsSimple
        AreSimple IsSimpleOperand IsFilled IsSingle

    eval_returns :
        (e : Expr) (n k : ℕ)
        → n + k ≤ max_depth
        → IsSimple e k
        → check schema e ≡ ok tt
        → is_ok (eval e ctx n) ≡ true
    eval_returns (node op_and done) n k b h c = absurd h.1
    eval_returns (node op_and (arg a xs)) n k b h c =
        ground (arith, all_true_returns (arg a xs) n k b h.0 c)
    eval_returns (node op_or done) n k b h c = absurd h.1
    eval_returns (node op_or (arg a xs)) n k b h c =
        ground (arith, any_true_returns (arg a xs) n k b h.0 c)
    eval_returns (node op_not xs) n k b h c = ground (arith, only_truth_returns xs n k b h.1 h.0 c)
    eval_returns (node op_exists xs) n k b h c = ground (arith, exists_returns xs c)
    eval_returns (node op_eq xs) n k b h c =
        ground (arith, tests_return op_eq xs n ((λ e. cc), (λ e. cc), (λ e. cc), (λ e. cc)) h c)
    eval_returns (node o xs) n k b h c =
        ground (arith, tests_return o xs n ((λ e. cc), (λ e. cc), (λ e. cc), (λ e. cc)) h c)

    all_true_returns :
        (xs : Args) (n k : ℕ)
        → n + k ≤ max_depth
        → AreSimple xs k
        → check_all schema xs ≡ ok tt
        → is_ok (all_true xs ctx n) ≡ true
    all_true_returns done n k b h c = refl
    all_true_returns (arg a xs) n k b h c =
        let (u, p, q) = >>=-eq-ok (check_operand schema a) (λ _. check_all schema xs) c in
        every_returns (truthy a ctx n) (all_true xs ctx n) (truthy_returns a n k b h.0 p)
          (all_true_returns xs n k b h.1 q)

    any_true_returns :
        (xs : Args) (n k : ℕ)
        → n + k ≤ max_depth
        → AreSimple xs k
        → check_all schema xs ≡ ok tt
        → is_ok (any_true xs ctx n) ≡ true
    any_true_returns done n k b h c = refl
    any_true_returns (arg a xs) n k b h c =
        let (u, p, q) = >>=-eq-ok (check_operand schema a) (λ _. check_all schema xs) c in
        some_returns (truthy a ctx n) (any_true xs ctx n) (truthy_returns a n k b h.0 p)
          (any_true_returns xs n k b h.1 q)

    only_truth_returns :
        (xs : Args) (n k : ℕ)
        → n + k ≤ max_depth
        → IsSingle xs
        → AreSimple xs k
        → check_all schema xs ≡ ok tt
        → is_ok (only_truth xs ctx n) ≡ true
    only_truth_returns done n k b s h c = absurd s
    only_truth_returns (arg a done) n k b s h c =
        let (u, p, q) = >>=-eq-ok (check_operand schema a) (λ _. ok tt) c in
        truthy_returns a n k b h.0 p
    only_truth_returns (arg a (arg d xs)) n k b s h c = absurd s

    truthy_returns :
        (a : Operand) (n k : ℕ)
        → n + k ≤ max_depth
        → IsSimpleOperand a k
        → check_operand schema a ≡ ok tt
        → is_ok (truthy a ctx n) ≡ true
    truthy_returns (nested e) n zero b h c = absurd h
    truthy_returns (nested e) n (suc k) b h c = eval_returns e (suc n) k (omega arith) h c
    truthy_returns (field_ref s) n k b h c = refl
    truthy_returns (literal v) n k b h c = refl

-- An expression that the check of a schema accepts does not raise in a context that gives every field of
-- the schema, none left out, a value of the field's type, if its comparisons put a field on the left and a
-- literal on the right, its `and`, `or` and `not` have operands enough, and it nests at most 64 deep. A
-- context that lacks a field is not covered.
pub evaluate_returns :
    (schema : ContextSchema) (e : Expr) (ctx : Context)
    → HasTypes schema ctx
    → IsSimple e 64
    → check schema e ≡ ok tt
    → is_ok (evaluate e ctx) ≡ true
unfolding evaluate
evaluate_returns schema e ctx typed simple checked =
    eval_returns schema ctx typed e 0 64 (omega arith) simple checked
