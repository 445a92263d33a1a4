-- ===== src/Contacts/PhoneNumbers/Tests.antt =====
-- Numbers, extensions and texts that are neither, and the theorems on normal forms at some of them.
use bbz_platform.Prelude.{ℕ, String, Bool, true, false, none, some, ◌≡◌, refl, strip}
use bbz_platform.Contacts.PhoneNumbers.{
  NumberParts, is_digits, is_separator, normalize_number, clean, remove_separators, digits_to_end,
  count_digits,
}
use bbz_platform.Contacts.PhoneNumbers.Shape.{IsNormal, normalize_number-IsNormal}
use bbz_platform.Contacts.PhoneNumbers.Spellings.{
  normalize_number-normalize_number, normalize_number-spellings,
}

abbrev ascii_only : ℕ → Bool
ascii_only _ = false

abbrev number : String → String → NumberParts
number raw e164 = record { raw = raw; e164 = some e164; extension = none }

spaced :
    normalize_number ascii_only " tel:0911 / 123-456 " "DE"
    ≡ number " tel:0911 / 123-456 " "+49911123456"
unfolding normalize_number clean remove_separators is_separator digits_to_end count_digits strip
spaced = refl

abroad : normalize_number ascii_only "0043 1 2345678" "AT" ≡ number "0043 1 2345678" "+4312345678"
unfolding normalize_number clean remove_separators is_separator digits_to_end count_digits strip
abroad = refl

short :
    normalize_number ascii_only "(12)34" "DE"
    ≡ record { raw = "(12)34"; e164 = none; extension = some "1234" }
unfolding normalize_number clean remove_separators is_separator digits_to_end count_digits strip
short = refl

single_digit :
    normalize_number ascii_only "7" "DE" ≡ record { raw = "7"; e164 = none; extension = some "7" }
unfolding normalize_number clean remove_separators is_separator digits_to_end count_digits strip
single_digit = refl

-- a block of seven digits without a prefix is not guessed at
unprefixed :
    normalize_number ascii_only "1234567" "DE"
    ≡ record { raw = "1234567"; e164 = none; extension = none }
unfolding normalize_number clean remove_separators is_separator digits_to_end count_digits strip
unprefixed = refl

country_only :
    normalize_number ascii_only "+49" "DE" ≡ record { raw = "+49"; e164 = none; extension = none }
unfolding normalize_number clean remove_separators is_separator digits_to_end count_digits strip
country_only = refl

found : (normalize_number ascii_only "0911/123-456" "DE").e164 ≡ some "+49911123456"
unfolding normalize_number clean remove_separators is_separator digits_to_end count_digits strip
found = refl

normalize_number-IsNormal_example :
    IsNormal ascii_only "0911/123-456" (normalize_number ascii_only "0911/123-456" "DE")
normalize_number-IsNormal_example = normalize_number-IsNormal ascii_only "0911/123-456" "DE"

normalize_number-normalize_number_example :
    normalize_number ascii_only "+49911123456" "CH" ≡ number "+49911123456" "+49911123456"
normalize_number-normalize_number_example =
    normalize_number-normalize_number ascii_only "0911/123-456" "DE" "CH" "+49911123456" found

home : clean "(0911) 123456" ≡ "0911123456"
unfolding clean remove_separators is_separator strip
home = refl

far : clean "0049 911 123456" ≡ "0049911123456"
unfolding clean remove_separators is_separator strip
far = refl

plus : clean "+49 911 123456" ≡ "+49911123456"
unfolding clean remove_separators is_separator strip
plus = refl

digits : is_digits ascii_only "911123456" ≡ true
unfolding digits_to_end count_digits
digits = refl

normalize_number-spellings_example :
    ((normalize_number ascii_only "(0911) 123456" "DE").e164
      ≡ (normalize_number ascii_only "+49 911 123456" "DE").e164)
    × ((normalize_number ascii_only "0049 911 123456" "DE").e164
        ≡ (normalize_number ascii_only "+49 911 123456" "DE").e164)
normalize_number-spellings_example =
    normalize_number-spellings ascii_only "911123456" "(0911) 123456" "0049 911 123456"
      "+49 911 123456" "DE" home far plus digits refl
