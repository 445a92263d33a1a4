-- ===== src/Prelude/Text/Order.antt =====
-- The order of texts.
use Prim.Native.Nat.{ℕ, Ordering}
use Prim.Native.Nat.{compare as compare_ℕ}
use Prim.Native.Char.{code}
use Prim.Native.String.{String, [], ◌∷◌, then}
use Prim.Native.String.{compare}
use Prim.Native.String.compare
use mathlib.Core.Path.{◌≡◌, refl, sym, ap, ◌∙◌}
use mathlib.Core.Bool.{Bool, true, false}
use native.Mathlib.Omega.{arith}
use bbz_platform.Prelude.Text.{str_lt}

abbrev is_lt : Ordering → Bool
is_lt o = elim o [ Ordering.lt ↦ true | _ ↦ false ]

abbrev flip : Ordering → Ordering
flip Ordering.lt = Ordering.gt
flip Ordering.eq = Ordering.eq
flip Ordering.gt = Ordering.lt

flip-compare : (m n : ℕ) → compare_ℕ n m ≡ flip (compare_ℕ m n)
flip-compare m n = ground arith

flip-then : (o p : Ordering) → then (flip o) (flip p) ≡ flip (then o p)
flip-then Ordering.lt p = refl
flip-then Ordering.eq p = refl
flip-then Ordering.gt p = refl

compare-flip : (s t : String) → compare t s ≡ flip (compare s t)
compare-flip [] [] = compare.nil-nil ∙ ap flip (sym compare.nil-nil)
compare-flip [] (d ∷ t) = compare.cons-nil d t ∙ ap flip (sym (compare.nil-cons d t))
compare-flip (c ∷ s) [] = compare.nil-cons c s ∙ ap flip (sym (compare.cons-nil c s))
compare-flip (c ∷ s) (d ∷ t) =
    compare.cons-cons d c t s
    ∙ (ap (λ o. then o (compare t s)) (flip-compare (code c) (code d))
        ∙ (ap (then (flip (compare_ℕ (code c) (code d)))) (compare-flip s t)
            ∙ (flip-then (compare_ℕ (code c) (code d)) (compare s t)
                ∙ ap flip (sym (compare.cons-cons c d s t)))))

flipped : (o : Ordering) → is_lt o ≡ true → is_lt (flip o) ≡ false
flipped Ordering.lt h = refl
flipped Ordering.eq h = absurd (cc h)
flipped Ordering.gt h = absurd (cc h)

pub str_lt_asym : (s t : String) → str_lt s t ≡ true → str_lt t s ≡ false
str_lt_asym s t h = ap is_lt (compare-flip s t) ∙ flipped (compare s t) h
