-- ===== src/Prelude/Text/Strip.antt =====
-- What `str.strip()` returns has no white space at either end, and stripping it again changes
-- nothing.
use Prim.Native.Char.{Char, code}
use Prim.Native.String.{String, [], ◌∷◌}
use mathlib.Core.Path.{◌≡◌, refl, ◌∙◌, ap}
use mathlib.Core.Logic.{inl, inr}
use mathlib.Core.Bool.{Bool, true, false, ◌&&◌, ◌||◌}
use bbz_platform.Prelude.Tests.{Bool-cases, if◌then◌else◌}
use bbz_platform.Prelude.Text.{is_space, is_blank, lstrip, rstrip, strip}

abbrev NoLeading : String → Type 0
NoLeading [] = Unit
NoLeading (c ∷ s) = is_space (code c) ≡ false

-- the last character is no white space
abbrev trailing : String → Bool
trailing [] = false
trailing (c ∷ s) = let rest = trailing s in if is_blank s then is_space (code c) else rest

lstrip-NoLeading : (s : String) → NoLeading (lstrip s)
unfolding lstrip
lstrip-NoLeading [] = tt
lstrip-NoLeading (c ∷ s) = elim (Bool-cases (is_space (code c))) [
  | inl e ↦ rw e (lstrip-NoLeading s)
  | inr e ↦ rw e e
]

lstrip-id : (s : String) → NoLeading s → lstrip s ≡ s
unfolding lstrip
lstrip-id [] h = refl
lstrip-id (c ∷ s) h = rw h

trailing-lstrip : (s : String) → trailing s ≡ false → trailing (lstrip s) ≡ false
unfolding lstrip
trailing-lstrip [] h = refl
trailing-lstrip (c ∷ []) h = rw h h
trailing-lstrip (c ∷ d ∷ s) h = elim (Bool-cases (is_space (code c))) [
  | inl e ↦ rw e (trailing-lstrip (d ∷ s) h)
  | inr e ↦ rw e h
]

trailing-cons :
    (c : Char) (s : String)
    → (is_blank s && is_space (code c)) ≡ false
    → trailing s ≡ false
    → trailing (c ∷ s) ≡ false
trailing-cons c [] h t = h
trailing-cons c (d ∷ s) h t = t

trailing-rstrip : (s : String) → trailing (rstrip s) ≡ false
unfolding rstrip
trailing-rstrip [] = refl
trailing-rstrip (c ∷ s) = elim (Bool-cases (is_blank (rstrip s) && is_space (code c))) [
  | inl e ↦ rw e refl
  | inr e ↦ rw e (trailing-cons c (rstrip s) e (trailing-rstrip s))
]

rstrip-id : (s : String) → trailing s ≡ false → rstrip s ≡ s
unfolding rstrip
rstrip-id [] h = refl
rstrip-id (c ∷ []) h = rw h
rstrip-id (c ∷ d ∷ s) h = rw (rstrip-id (d ∷ s) h)

pub strip_idem : (s : String) → strip (strip s) ≡ strip s
unfolding strip
strip_idem s =
    ap lstrip (rstrip-id (lstrip (rstrip s)) (trailing-lstrip (rstrip s) (trailing-rstrip s)))
    ∙ lstrip-id (lstrip (rstrip s)) (lstrip-NoLeading (rstrip s))

abbrev pub has_space : String → Bool
has_space [] = false
has_space (c ∷ s) = is_space (code c) || has_space s

has_space-first : (a b : Bool) → (a || b) ≡ false → (a ≡ false) × (b ≡ false)
has_space-first false b none = (refl, none)
has_space-first true b none = absurd (cc none)

no_space-trailing : (s : String) → has_space s ≡ false → trailing s ≡ false
no_space-trailing [] none = refl
no_space-trailing (c ∷ []) none = (has_space-first (is_space (code c)) false none).0
no_space-trailing (c ∷ d ∷ s) none =
    no_space-trailing (d ∷ s) (has_space-first (is_space (code c)) (has_space (d ∷ s)) none).1

no_space-NoLeading : (s : String) → has_space s ≡ false → NoLeading s
no_space-NoLeading [] none = tt
no_space-NoLeading (c ∷ s) none = (has_space-first (is_space (code c)) (has_space s) none).0

-- A text without white space is stripped already.
pub strip-no_space : (s : String) → has_space s ≡ false → strip s ≡ s
unfolding strip
strip-no_space s none =
    ap lstrip (rstrip-id s (no_space-trailing s none)) ∙ lstrip-id s (no_space-NoLeading s none)
