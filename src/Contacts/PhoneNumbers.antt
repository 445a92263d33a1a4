-- ===== src/Contacts/PhoneNumbers.antt =====
-- server/bbz_core/domain/contacts/phone_numbers.py: the normal form of a telephone number. The digits
-- outside ASCII that `\d` matches are a parameter: they go by the version of Unicode.
pub mod Shape
pub mod Spellings
mod Tests
use Prim.Native.Char.{Char, code}
use Prim.Native.String.{String, [], ◌∷◌, ◌++◌}
use mathlib.Core.List
use bbz_platform.Prelude.{
  ℕ, zero, suc, Bool, true, false, not, ◌&&◌, ◌||◌, Option, none, some, is_some, leb, nat_eq,
  lookup, Dict, is_space, is_blank, str_len, str_take, strip, lowers_to, if◌then◌else◌,
}

pub record NumberParts : Type 0 where
  pub raw : String
  pub e164 : Option String
  pub extension : Option String

abbrev pub is_e164 : NumberParts → Bool
is_e164 p = is_some p.e164

-- a region's country code, national trunk prefix and international call prefix
pub record Region : Type 0 where
  pub country_code : String
  pub trunk : String
  pub intl : String

abbrev pub germany : Region
germany = record { country_code = "49"; trunk = "0"; intl = "00" }

abbrev pub regions : Dict Region
regions = List.◌∷◌ ("DE", germany) List.[]

-- the default of `_REGIONS.get`, which is `_REGIONS[DEFAULT_REGION]`
abbrev pub or_germany : Option Region → Region
or_germany none = germany
or_germany (some region) = region

abbrev pub region_of : String → Region
region_of region = or_germany (lookup region regions)

abbrev pub max_extension_len : ℕ
max_extension_len = 6

-- `_SEPARATORS`: white space and ( ) / . -
unfoldable pub is_separator : ℕ → Bool
is_separator c =
    is_space c || nat_eq c 40 || nat_eq c 41 || nat_eq c 47 || nat_eq c 46 || nat_eq c 45

-- `_SEPARATORS.sub("", s)`
unfoldable pub remove_separators : String → String
remove_separators [] = []
remove_separators (c ∷ s) =
    let rest = remove_separators s in if is_separator (code c) then rest else c ∷ rest

-- `s[n:]`
abbrev pub str_drop : ℕ → String → String
str_drop zero s = s
str_drop (suc n) [] = []
str_drop (suc n) (c ∷ s) = str_drop n s

-- `s.startswith(prefix)`
abbrev pub starts_with : String → String → Bool
starts_with [] s = true
starts_with (p ∷ ps) [] = false
starts_with (p ∷ ps) (c ∷ s) = nat_eq (code c) (code p) && starts_with ps s

unfoldable pub clean : String → String
unfolding strip
clean raw =
    let s = strip raw in
    remove_separators (if lowers_to "tel:" (str_take 4 s) then str_drop 4 s else s)

module _ (is_digit_beyond : ℕ → Bool) where
  -- `\d`
  abbrev pub is_digit : ℕ → Bool
  is_digit c = (leb 48 c && leb c 57) || is_digit_beyond c

  -- `\d*$` from here on; `$` also stands before a new line at the end
  unfoldable pub digits_to_end : String → Bool
  digits_to_end [] = true
  digits_to_end (c ∷ s) =
      let rest = digits_to_end s in
      if is_digit (code c) then rest else nat_eq (code c) 10 && is_blank s

  unfoldable pub count_digits : String → ℕ
  count_digits [] = 0
  count_digits (c ∷ s) = let rest = count_digits s in if is_digit (code c) then suc rest else 0

  -- `_DIGITS.match`
  abbrev pub is_digits : String → Bool
  is_digits s = leb 1 (count_digits s) && digits_to_end s

  -- `[1-9]\d{7,14}$` from here on, where 7 is `_MIN_E164_DIGITS - 1`
  abbrev pub matches_number : String → Bool
  matches_number [] = false
  matches_number (c ∷ s) =
      (leb 49 (code c) && leb (code c) 57)
      && (digits_to_end s && (leb 7 (count_digits s) && leb (count_digits s) 14))

  -- `_E164.match`
  abbrev pub matches_e164 : String → Bool
  matches_e164 [] = false
  matches_e164 (c ∷ s) = nat_eq (code c) 43 && matches_number s

  -- `_valid`
  abbrev pub valid : String → Option String
  valid candidate = if matches_e164 candidate then some candidate else none

  abbrev pub parts : String → Option String → Option String → NumberParts
  parts raw e164 extension = record { raw = raw; e164 = e164; extension = extension }

  abbrev pub normalize_cleaned : Region → String → String → NumberParts
  normalize_cleaned region raw cleaned =
      if starts_with "+" cleaned
      then parts raw (valid cleaned) none
      else if not (is_digits cleaned)
      then parts raw none none
      else if starts_with region.intl cleaned
      then parts raw (valid ("+" ++ str_drop (str_len region.intl) cleaned)) none
      else if starts_with region.trunk cleaned
      then parts raw
          (valid ("+" ++ (region.country_code ++ str_drop (str_len region.trunk) cleaned))) none
      else if leb (str_len cleaned) max_extension_len
      then parts raw none (some cleaned)
      else parts raw none none

  unfoldable pub normalize_number : String → String → NumberParts
  unfolding clean
  normalize_number raw region = normalize_cleaned (region_of region) raw (clean raw)
