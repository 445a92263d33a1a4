-- ===== src/Contacts/PhoneNumbers/Spellings.antt =====
-- server/bbz_core/domain/contacts/phone_numbers.py: normal forms are kept, and the national and the two
-- international spellings of a number have one.
use Prim.Native.Char.{Char, code}
use Prim.Native.String.{String, [], ◌∷◌, ◌++◌}
use text.Mathlib.TextLemmas.{nil-append, cons-append}
use bbz_platform.Prelude.{
  ℕ, suc, Bool, true, false, not, none, some, ◌≡◌, refl, sym, ap, ◌∙◌, subst, inl, inr, leb,
  is_space, str_take, strip, strip-no_space, has_space, lowers_to, Bool-cases, arith,
}
use bbz_platform.Contacts.PhoneNumbers.{
  germany, is_separator, starts_with, clean, digits_to_end, count_digits, is_digits, matches_e164,
  valid, normalize_cleaned, normalize_number,
}
use bbz_platform.Contacts.PhoneNumbers.Shape.{
  is_free, &&-right, remove_separators-id, normalize_number-IsNormal, region_of-germany, IsNumber,
  HoldsOf,
}

space-is_separator : (n : ℕ) → is_space n ≡ true → is_separator n ≡ true
unfolding is_separator
space-is_separator n space = rw space refl

free-not_space : (n : ℕ) → is_separator n ≡ false → is_space n ≡ false
free-not_space n kept = elim (Bool-cases (is_space n)) [
  | inl space ↦ absurd (cc (space-is_separator n space, kept))
  | inr other ↦ other
]

free-no_space : (s : String) → is_free s ≡ true → has_space s ≡ false
free-no_space [] free = refl
free-no_space (c ∷ s) free =
    let kept : is_separator (code c) ≡ false = ground (arith, free) in
    rw (free-not_space (code c) kept)
      (free-no_space s (&&-right (not (is_separator (code c))) (is_free s) free))

strip-free : (s : String) → is_free s ≡ true → strip s ≡ s
strip-free s free = strip-no_space s (free-no_space s free)

-- A text that has no separator and does not start with tel: is clean.
clean-free : (s : String) → is_free s ≡ true → lowers_to "tel:" (str_take 4 s) ≡ false → clean s ≡ s
unfolding clean
clean-free s free other = rw (strip-free s free) (rw other (remove_separators-id s free))

append-digit : (c : Char) (s : String) → (c ∷ []) ++ s ≡ c ∷ s
append-digit c s = cons-append c [] s ∙ ap (λ t. c ∷ t) (nil-append s)

append-code : (c d : Char) (s : String) → (c ∷ d ∷ []) ++ s ≡ c ∷ d ∷ s
append-code c d s = cons-append c (d ∷ []) s ∙ ap (λ t. c ∷ t) (append-digit d s)

one_at_least : (n : ℕ) → leb 1 (suc n) ≡ true
one_at_least n = ground arith

module _ (is_digit_beyond : ℕ → Bool) where
  e164-not_tel :
      (s : String) → matches_e164 is_digit_beyond s ≡ true → lowers_to "tel:" (str_take 4 s) ≡ false
  e164-not_tel [] found = refl
  e164-not_tel (c ∷ s) found = let plus : code c ≡ 43 = ground (arith, found) in rw plus refl

  e164-starts : (s : String) → matches_e164 is_digit_beyond s ≡ true → starts_with "+" s ≡ true
  e164-starts [] found = absurd (cc found)
  e164-starts (c ∷ s) found = ground (arith, found)

  -- The number that a text is normalized to, in whatever region, is its own normal form, in any other.
  pub normalize_number-normalize_number :
      (raw region other t : String)
      → (normalize_number is_digit_beyond raw region).e164 ≡ some t
      → normalize_number is_digit_beyond t other
        ≡ record { raw = t; e164 = some t; extension = none }
  unfolding normalize_number
  normalize_number-normalize_number raw region other t found =
      let (_, numbers, _, _) = normalize_number-IsNormal is_digit_beyond raw region in
      let (matched, free, _) = subst (HoldsOf (IsNumber is_digit_beyond)) found numbers in
      rw (region_of-germany other) (
        rw (clean-free t free (e164-not_tel t matched))
          (rw (e164-starts t matched) (rw matched refl)))

  national :
      (s raw : String)
      → is_digits is_digit_beyond s ≡ true
      → starts_with "0" s ≡ false
      → (normalize_cleaned is_digit_beyond germany raw ("0" ++ s)).e164
        ≡ valid is_digit_beyond ("+" ++ ("49" ++ s))
  unfolding digits_to_end count_digits
  national s raw digits bare =
      let ends : digits_to_end is_digit_beyond s ≡ true = ground (arith, digits) in
      rw (append-digit "0" s)
        (rw (one_at_least (count_digits is_digit_beyond s)) (rw ends (rw bare refl)))

  abroad :
      (s raw : String)
      → is_digits is_digit_beyond s ≡ true
      → (normalize_cleaned is_digit_beyond germany raw ("00" ++ ("49" ++ s))).e164
        ≡ valid is_digit_beyond ("+" ++ ("49" ++ s))
  unfolding digits_to_end count_digits
  abroad s raw digits =
      let ends : digits_to_end is_digit_beyond s ≡ true = ground (arith, digits) in
      rw (append-code "4" "9" s) (
        rw (append-code "0" "0" ("4" ∷ "9" ∷ s))
          (rw (one_at_least (suc (suc (suc (count_digits is_digit_beyond s))))) (rw ends refl)))

  signed :
      (s raw : String)
      → (normalize_cleaned is_digit_beyond germany raw ("+" ++ ("49" ++ s))).e164
        ≡ valid is_digit_beyond ("+" ++ ("49" ++ s))
  signed s raw = rw (append-digit "+" ("49" ++ s)) refl

  e164_of :
      (raw region : String) {cleaned : String}
      → clean raw ≡ cleaned
      → (normalize_number is_digit_beyond raw region).e164
        ≡ (normalize_cleaned is_digit_beyond germany raw cleaned).e164
  unfolding normalize_number
  e164_of raw region cleans = rw (region_of-germany region) (rw cleans refl)

  -- Where `s` is a national number without its trunk 0 (digits that do not start with 0), any three
  -- texts that are, cleaned, 0 and `s`, 0049 and `s`, and +49 and `s`, are normalized to the same number,
  -- or all three to none, whatever the region.
  pub normalize_number-spellings :
      (s at_home from_abroad with_plus region : String)
      → clean at_home ≡ "0" ++ s
      → clean from_abroad ≡ "00" ++ ("49" ++ s)
      → clean with_plus ≡ "+" ++ ("49" ++ s)
      → is_digits is_digit_beyond s ≡ true
      → starts_with "0" s ≡ false
      → ((normalize_number is_digit_beyond at_home region).e164
          ≡ (normalize_number is_digit_beyond with_plus region).e164)
        × ((normalize_number is_digit_beyond from_abroad region).e164
            ≡ (normalize_number is_digit_beyond with_plus region).e164)
  unfolding normalize_number
  normalize_number-spellings s at_home from_abroad with_plus region home far plus digits bare =
      let signed_form = e164_of with_plus region plus ∙ signed s with_plus in
      (
        (e164_of at_home region home ∙ national s at_home digits bare) ∙ sym signed_form,
        (e164_of from_abroad region far ∙ abroad s from_abroad digits) ∙ sym signed_form,
      )
