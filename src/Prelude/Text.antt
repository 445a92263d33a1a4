-- ===== src/Prelude/Text.antt =====
-- Python `str` methods that the program uses, over the native texts.
pub mod Strip
pub mod Order
use Prim.Native.Nat.{ℕ, zero, suc, ◌+◌, Ordering}
use Prim.Native.Char.{Char, code}
use Prim.Native.String.{String, [], ◌∷◌, compare}
use mathlib.Core.List
use mathlib.Core.Bool.{Bool, true, false, ◌&&◌, ◌||◌}
use bbz_platform.Prelude.Tests.{leb, nat_eq, if◌then◌else◌}

-- The code points that `str.strip()` removes and that `\s` matches (`str.isspace`).
abbrev pub is_space : ℕ → Bool
is_space c =
    (leb 9 c && leb c 13)
    || (leb 28 c && leb c 32)
    || nat_eq c 0x85
    || nat_eq c 0xa0
    || nat_eq c 0x1680
    || (leb 0x2000 c && leb c 0x200a)
    || nat_eq c 0x2028
    || nat_eq c 0x2029
    || nat_eq c 0x202f
    || nat_eq c 0x205f
    || nat_eq c 0x3000

abbrev pub is_blank : String → Bool
is_blank [] = true
is_blank (_ ∷ _) = false

-- `len(s)` counts code points
abbrev pub str_len : String → ℕ
str_len [] = 0
str_len (_ ∷ s) = suc (str_len s)

-- the characters, for `for c in s`
abbrev pub chars : String → List.List Char
chars [] = List.[]
chars (c ∷ s) = List.◌∷◌ c (chars s)

-- `s.replace(c, "")` for one character
abbrev pub remove_char : ℕ → String → String
remove_char c [] = []
remove_char c (d ∷ s) = let rest = remove_char c s in if nat_eq (code d) c then rest else d ∷ rest

-- `s[:n]`
abbrev pub str_take : ℕ → String → String
str_take zero s = []
str_take (suc n) [] = []
str_take (suc n) (c ∷ s) = c ∷ str_take n s

pub lstrip : String → String
lstrip [] = []
lstrip (c ∷ s) = let rest = lstrip s in if is_space (code c) then rest else c ∷ s

pub rstrip : String → String
rstrip [] = []
rstrip (c ∷ s) = let rest = rstrip s in if is_blank rest && is_space (code c) then [] else c ∷ rest

unfoldable pub strip : String → String
unfolding lstrip rstrip
strip s = lstrip (rstrip s)

-- Python's `<` on texts goes by code points, which is the order of their UTF-8 bytes.
abbrev pub str_lt : String → String → Bool
str_lt s t = elim (compare s t) [ Ordering.lt ↦ true | _ ↦ false ]

abbrev lower_code : ℕ → ℕ
lower_code c = if leb 65 c && leb c 90 then c + 32 else c

-- `s.lower() == word`, for a word of small letters other than k: no character outside ASCII lowers to
-- one of them alone
abbrev pub lowers_to : String → String → Bool
lowers_to [] s = is_blank s
lowers_to (w ∷ ws) [] = false
lowers_to (w ∷ ws) (c ∷ s) = nat_eq (lower_code (code c)) (code w) && lowers_to ws s
