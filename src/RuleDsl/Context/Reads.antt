-- ===== src/RuleDsl/Context/Reads.antt =====
-- A checked expression reads only fields of its context, as long as no comparison has a nested
-- expression for an operand.
use bbz_platform.Prelude.{ℕ, suc, String, true, ◌≡◌, refl, ok, arith, is_ok, >>=-eq-ok, ap}
use bbz_platform.RuleDsl.Parse.{
  Operator, op_and, op_or, op_not, op_exists, Expr, node, Args, done, arg, Operand, nested,
  field_ref, literal,
}
use bbz_platform.RuleDsl.Eval.{
  Context, get, eval, all_true, any_true, only_truth, binary, truthy, value, field_exists, evaluate,
}
use bbz_platform.RuleDsl.Context.{
  ContextSchema, field_type, check, check_all, check_operand, check_pair, check_exists,
  operand_type,
}

abbrev pub IsLeaf : Operand → Type 0
IsLeaf (nested e) = ⊥
IsLeaf _ = Unit

abbrev pub AreLeaves : Args → Type 0
AreLeaves done = Unit
AreLeaves (arg a xs) = IsLeaf a × AreLeaves xs

-- no comparison has a nested expression for an operand
unfoldable mutual
  pub IsFlat : Expr → Type 0
  IsFlat (node o xs) = elim o [
    | op_and ↦ AreFlat xs
    | op_or ↦ AreFlat xs
    | op_not ↦ AreFlat xs
    | op_exists ↦ Unit
    | _ ↦ AreLeaves xs
  ]

  pub AreFlat : Args → Type 0
  AreFlat done = Unit
  AreFlat (arg a xs) = IsFlatOperand a × AreFlat xs

  pub IsFlatOperand : Operand → Type 0
  IsFlatOperand (nested e) = IsFlat e
  IsFlatOperand _ = Unit

-- two contexts agree on every field of the schema
abbrev pub Agree : ContextSchema → Context → Context → Type 0
Agree schema c d = (s : String) → is_ok (field_type schema s) ≡ true → get c s ≡ get d s

pair_checked :
    (schema : ContextSchema) (o : Operator) (a b : Operand)
    → check_pair schema o (arg a (arg b done)) ≡ ok tt
    → (is_ok (operand_type schema a) ≡ true) × (is_ok (operand_type schema b) ≡ true)
unfolding check_pair
pair_checked schema o a b k =
    let (lt, p, q) = >>=-eq-ok (operand_type schema a) _ k in
    let (rt, r, t) = >>=-eq-ok (operand_type schema b) _ q in (ap is_ok p, ap is_ok r)

module _ (schema : ContextSchema) (c d : Context) (same : Agree schema c d) where
  leaf_agree :
      (a : Operand) (n : ℕ)
      → IsLeaf a
      → is_ok (operand_type schema a) ≡ true
      → value a c n ≡ value a d n
  unfolding value
  leaf_agree (nested e) n h k = absurd h
  leaf_agree (field_ref s) n h k = ground (arith, same s)
  leaf_agree (literal v) n h k = refl

  pair_agree :
      (o : Operator) (xs : Args) (n : ℕ)
      → AreLeaves xs
      → check_pair schema o xs ≡ ok tt
      → binary o xs c n ≡ binary o xs d n
  unfolding check_pair binary
  pair_agree o done n h k = refl
  pair_agree o (arg a done) n h k = refl
  pair_agree o (arg a (arg b done)) n h k =
      let (p, q) = pair_checked schema o a b k in
      ground (arith, leaf_agree a n h.0 p, leaf_agree b n h.1.0 q)
  pair_agree o (arg a (arg b (arg e xs))) n h k = refl

  exists_agree :
      (xs : Args) → check_exists schema xs ≡ ok tt → field_exists xs c ≡ field_exists xs d
  unfolding check_exists field_exists
  exists_agree done k = refl
  exists_agree (arg (nested e) done) k = refl
  exists_agree (arg (literal v) done) k = refl
  exists_agree (arg (field_ref s) done) k = ground (arith, same s)
  exists_agree (arg (nested e) (arg b xs)) k = refl
  exists_agree (arg (literal v) (arg b xs)) k = refl
  exists_agree (arg (field_ref s) (arg b xs)) k = refl

  mutual
    unfolding eval all_true any_true only_truth truthy check check_all check_operand IsFlat AreFlat

    eval_agree : (e : Expr) (n : ℕ) → IsFlat e → check schema e ≡ ok tt → eval e c n ≡ eval e d n
    eval_agree (node op_and xs) n h k = ground (arith, all_true_agree xs n h k)
    eval_agree (node op_or xs) n h k = ground (arith, any_true_agree xs n h k)
    eval_agree (node op_not xs) n h k = ground (arith, only_truth_agree xs n h k)
    eval_agree (node op_exists xs) n h k = ground (arith, exists_agree xs k)
    eval_agree (node o xs) n h k = ground (arith, pair_agree o xs n h k)

    all_true_agree :
        (xs : Args) (n : ℕ)
        → AreFlat xs
        → check_all schema xs ≡ ok tt
        → all_true xs c n ≡ all_true xs d n
    all_true_agree done n h k = refl
    all_true_agree (arg a xs) n h k =
        let (u, p, q) = >>=-eq-ok (check_operand schema a) (λ _. check_all schema xs) k in
        ground (arith, truthy_agree a n h.0 p, all_true_agree xs n h.1 q)

    any_true_agree :
        (xs : Args) (n : ℕ)
        → AreFlat xs
        → check_all schema xs ≡ ok tt
        → any_true xs c n ≡ any_true xs d n
    any_true_agree done n h k = refl
    any_true_agree (arg a xs) n h k =
        let (u, p, q) = >>=-eq-ok (check_operand schema a) (λ _. check_all schema xs) k in
        ground (arith, truthy_agree a n h.0 p, any_true_agree xs n h.1 q)

    only_truth_agree :
        (xs : Args) (n : ℕ)
        → AreFlat xs
        → check_all schema xs ≡ ok tt
        → only_truth xs c n ≡ only_truth xs d n
    only_truth_agree done n h k = refl
    only_truth_agree (arg a done) n h k =
        let (u, p, q) = >>=-eq-ok (check_operand schema a) (λ _. ok tt) k in truthy_agree a n h.0 p
    only_truth_agree (arg a (arg b xs)) n h k = refl

    truthy_agree :
        (a : Operand) (n : ℕ)
        → IsFlatOperand a
        → check_operand schema a ≡ ok tt
        → truthy a c n ≡ truthy a d n
    truthy_agree (nested e) n h k = eval_agree e (suc n) h k
    truthy_agree (field_ref s) n h k = ground (arith, same s)
    truthy_agree (literal v) n h k = refl

-- An expression that a context's check accepts, and that has no nested expression among the operands
-- of a comparison or membership test, evaluates alike (value or error) in any two contexts that
-- agree on the fields of the schema.
pub evaluate-Agree :
    (schema : ContextSchema) (e : Expr) (c d : Context)
    → IsFlat e
    → check schema e ≡ ok tt
    → Agree schema c d
    → evaluate e c ≡ evaluate e d
unfolding evaluate
evaluate-Agree schema e c d flat checked same = eval_agree schema c d same e 0 flat checked
