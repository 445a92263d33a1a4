-- ===== src/Contacts/PhoneNumbers/Shape.antt =====
-- server/bbz_core/domain/contacts/phone_numbers.py: what a normal form looks like, and that it is one.
use Prim.Native.Char.{code}
use Prim.Native.String.{String, [], ◌∷◌, ◌++◌}
use text.Mathlib.TextLemmas.{nil-append, cons-append}
use bbz_platform.Prelude.{
  ℕ, zero, suc, ◌≤◌, Bool, true, false, not, ◌&&◌, ◌||◌, Option, none, some, is_none, ◌≡◌, refl,
  sym, ap, ◌∙◌, subst, inl, inr, ◌==◌, leb, nat_eq, str_len, strip, Bool-cases, arith,
}
use bbz_platform.Contacts.PhoneNumbers.{
  NumberParts, Region, germany, region_of, is_separator, remove_separators, str_drop, starts_with,
  clean, is_digit, digits_to_end, count_digits, is_digits, matches_e164, valid, parts,
  normalize_cleaned, normalize_number,
}

-- The second of two tests that hold.
pub &&-right : (a b : Bool) → (a && b) ≡ true → b ≡ true
&&-right true b both = both
&&-right false b both = absurd (cc both)

abbrev pub HoldsOf : (String → Type 0) → Option String → Type 0
HoldsOf P none = Unit
HoldsOf P (some t) = P t

-- A text without separators.
abbrev pub is_free : String → Bool
is_free [] = true
is_free (c ∷ s) = not (is_separator (code c)) && is_free s

pub remove_separators-is_free : (s : String) → is_free (remove_separators s) ≡ true
unfolding remove_separators
remove_separators-is_free [] = refl
remove_separators-is_free (c ∷ s) = elim (Bool-cases (is_separator (code c))) [
  | inl sep ↦ rw sep (remove_separators-is_free s)
  | inr kept ↦ rw kept (rw kept (remove_separators-is_free s))
]

pub remove_separators-id : (s : String) → is_free s ≡ true → remove_separators s ≡ s
unfolding remove_separators
remove_separators-id [] free = refl
remove_separators-id (c ∷ s) free = elim (Bool-cases (is_separator (code c))) [
  | inl sep ↦ absurd (ground (arith, sep, free))
  | inr kept ↦ rw kept (ap (λ t. c ∷ t) (remove_separators-id s (rw kept at free)))
]

pub append-is_free : (s t : String) → is_free s ≡ true → is_free t ≡ true → is_free (s ++ t) ≡ true
append-is_free [] t free frees = ap is_free (nil-append t) ∙ frees
append-is_free (c ∷ s) t free frees =
    let rest = append-is_free s t (&&-right (not (is_separator (code c))) (is_free s) free) frees in
    ap is_free (cons-append c s t) ∙ ground (arith, free, rest)

pub str_drop-is_free : (n : ℕ) (s : String) → is_free s ≡ true → is_free (str_drop n s) ≡ true
str_drop-is_free zero s free = free
str_drop-is_free (suc n) [] free = free
str_drop-is_free (suc n) (c ∷ s) free =
    str_drop-is_free n s (&&-right (not (is_separator (code c))) (is_free s) free)

-- Germany is the only region, and the default.
pub region_of-germany : (region : String) → region_of region ≡ germany
region_of-germany region = elim (Bool-cases ("DE" == region)) [
  | inl here ↦ rw here refl
  | inr other ↦ rw other refl
]

module _ (is_digit_beyond : ℕ → Bool) where
  abbrev pub all_digits : String → Bool
  all_digits [] = true
  all_digits (c ∷ s) = is_digit is_digit_beyond (code c) && all_digits s

  new_line_separates : (n : ℕ) → nat_eq n 10 ≡ true → is_separator n ≡ true
  unfolding is_separator
  new_line_separates n same = ground (arith, same)

  -- Where no separator is left, `$` stands at the very end.
  pub digits_to_end-all_digits :
      (s : String)
      → is_free s ≡ true
      → digits_to_end is_digit_beyond s ≡ true
      → (all_digits s ≡ true) × (count_digits is_digit_beyond s ≡ str_len s)
  unfolding digits_to_end count_digits
  digits_to_end-all_digits [] free ends = (refl, refl)
  digits_to_end-all_digits (c ∷ s) free ends =
      elim (Bool-cases (is_digit is_digit_beyond (code c))) [
        | inl digit ↦
            let (all, counted) =
              digits_to_end-all_digits s (&&-right (not (is_separator (code c))) (is_free s) free)
                (rw digit at ends) in
            (rw digit all, rw digit (ap suc counted))
        | inr other ↦ absurd (ground (arith, new_line_separates (code c), free, rw other at ends))
      ]

  abbrev pub first_code : String → ℕ
  first_code [] = 0
  first_code (c ∷ s) = code c

  -- A plus, a digit from 1 to 9, and digits up to the end, 8 to 15 in all.
  abbrev pub IsE164 : String → Type 0
  IsE164 s =
      (first_code s ≡ 43)
      × (49 ≤ first_code (str_drop 1 s))
      × (first_code (str_drop 1 s) ≤ 57)
      × (all_digits (str_drop 1 s) ≡ true)
      × (9 ≤ str_len s)
      × (str_len s ≤ 16)

  matches_e164-IsE164 :
      (s : String) → is_free s ≡ true → matches_e164 is_digit_beyond s ≡ true → IsE164 s
  matches_e164-IsE164 [] free found = absurd (cc found)
  matches_e164-IsE164 (p ∷ []) free found = absurd (ground (arith, found))
  matches_e164-IsE164 (p ∷ c ∷ s) free found =
      let tail = &&-right (not (is_separator (code p))) (is_free (c ∷ s)) free in
      let rest = &&-right (not (is_separator (code c))) (is_free s) tail in
      let ends : digits_to_end is_digit_beyond s ≡ true = ground (arith, found) in
      let (all, counted) = digits_to_end-all_digits s rest ends in
      (
        ground (arith, found),
        ground (arith, found),
        ground (arith, found),
        ground (arith, found, all),
        ground (arith, found, counted),
        ground (arith, found, counted),
      )

  abbrev pub IsNumber : String → Type 0
  IsNumber t = (matches_e164 is_digit_beyond t ≡ true) × (is_free t ≡ true) × IsE164 t

  -- One to six digits, and no 0 in front.
  abbrev pub IsExtension : String → Type 0
  IsExtension x =
      (all_digits x ≡ true) × (1 ≤ str_len x) × (str_len x ≤ 6) × (starts_with "0" x ≡ false)

  -- What holds of the parts of any text: never both a number and an extension.
  abbrev pub IsNormal : String → NumberParts → Type 0
  IsNormal raw p =
      (p.raw ≡ raw)
      × HoldsOf IsNumber p.e164
      × HoldsOf IsExtension p.extension
      × ((is_none p.e164 || is_none p.extension) ≡ true)

  nothing-IsNormal : (raw : String) → IsNormal raw (parts is_digit_beyond raw none none)
  nothing-IsNormal raw = (refl, tt, tt, refl)

  valid-IsNumber : (s : String) → is_free s ≡ true → HoldsOf IsNumber (valid is_digit_beyond s)
  valid-IsNumber s free = elim (Bool-cases (matches_e164 is_digit_beyond s)) [
    | inl matched ↦ rw matched (matched, free, matches_e164-IsE164 s free matched)
    | inr other ↦ rw other tt
  ]

  number-IsNormal :
      (raw s : String)
      → is_free s ≡ true
      → IsNormal raw (parts is_digit_beyond raw (valid is_digit_beyond s) none)
  number-IsNormal raw s free = (refl, valid-IsNumber s free, tt, ground (arith))

  extension-IsNormal :
      (raw s : String)
      → is_free s ≡ true
      → is_digits is_digit_beyond s ≡ true
      → starts_with "0" s ≡ false
      → leb (str_len s) 6 ≡ true
      → IsNormal raw (parts is_digit_beyond raw none (some s))
  extension-IsNormal raw s free digits prefix short =
      let ends : digits_to_end is_digit_beyond s ≡ true = ground (arith, digits) in
      let (all, counted) = digits_to_end-all_digits s free ends in
      (refl, tt, (all, ground (arith, digits, counted), ground (arith, short), prefix), refl)

  plus-is_free : (s : String) → is_free s ≡ true → is_free ("+" ++ s) ≡ true
  unfolding is_separator
  plus-is_free s free = append-is_free "+" s refl free

  country-is_free : (s : String) → is_free s ≡ true → is_free ("+" ++ ("49" ++ s)) ≡ true
  unfolding is_separator
  country-is_free s free = plus-is_free ("49" ++ s) (append-is_free "49" s refl free)

  normalize_cleaned-IsNormal :
      (raw s : String)
      → is_free s ≡ true
      → IsNormal raw (normalize_cleaned is_digit_beyond germany raw s)
  normalize_cleaned-IsNormal raw s free = elim (Bool-cases (starts_with "+" s)) [
    | inl international ↦ rw international (number-IsNormal raw s free)
    | inr national ↦ rw national (elim (Bool-cases (is_digits is_digit_beyond s)) [
      | inr other ↦ rw other (nothing-IsNormal raw)
      | inl digits ↦ rw digits (elim (Bool-cases (starts_with "00" s)) [
        | inl abroad ↦
            rw abroad (number-IsNormal raw _ (plus-is_free _ (str_drop-is_free 2 s free)))
        | inr home ↦ rw home (elim (Bool-cases (starts_with "0" s)) [
          | inl trunk ↦
              rw trunk (number-IsNormal raw _ (country-is_free _ (str_drop-is_free 1 s free)))
          | inr bare ↦ rw bare (elim (Bool-cases (leb (str_len s) 6)) [
            | inl short ↦ rw short (extension-IsNormal raw s free digits bare short)
            | inr long ↦ rw long (nothing-IsNormal raw)
          ])
        ])
      ])
    ])
  ]

  pub clean-is_free : (raw : String) → is_free (clean raw) ≡ true
  unfolding clean strip
  clean-is_free raw = remove_separators-is_free _

  -- What `normalize_number` returns for any text and any region keeps that text. A number it finds is a
  -- plus, a digit from 1 to 9, and digits up to the end, 8 to 15 in all, and comes without an extension.
  -- An extension it finds has 1 to 6 digits (a single digit too, which the docstring rules out), does not
  -- start with 0, and comes without a number.
  pub normalize_number-IsNormal :
      (raw region : String) → IsNormal raw (normalize_number is_digit_beyond raw region)
  unfolding normalize_number
  normalize_number-IsNormal raw region =
      subst (λ (r : Region). IsNormal raw (normalize_cleaned is_digit_beyond r raw (clean raw)))
        (sym (region_of-germany region))
        (normalize_cleaned-IsNormal raw (clean raw) (clean-is_free raw))
