-- ===== src/Login/Policy.antt =====
-- server/bbz_core/auth/policy.py: the rules that a new password keeps. What Python's `str` says of
-- characters outside ASCII, and `str.lower`, are parameters.
use Prim.Native.Char.{code}
use text.Mathlib.Text.{find?}
use bbz_platform.Prelude.{
  ℕ, ◌+◌, String, Bool, false, not, ◌&&◌, ◌||◌, List, [], ◌∷◌, ◌++◌, chars, Option, none, some, ltb,
  leb, any, is_some, str_len, contains, Result, ok, err, if◌then◌else◌,
}

pub record PasswordPolicy : Type 0 where
  pub min_length : ℕ
  pub min_char_classes : ℕ

pub data PolicyReason : Type 0 where
  too_short : PolicyReason
  too_few_classes : PolicyReason
  too_common : PolicyReason
  contains_username : PolicyReason

-- `PasswordPolicyError`
pub data PasswordPolicyError : Type 0 where
  policy_error : List PolicyReason → PasswordPolicyError

-- `islower`, `isupper`, `isdigit` and `isalnum` of a character
pub record CharClass : Type 0 where
  pub lower : Bool
  pub upper : Bool
  pub digit : Bool
  pub alnum : Bool

abbrev pub between : ℕ → ℕ → ℕ → Bool
between low high c = leb low c && leb c high

-- `_COMMON`
abbrev pub common : List String
common =
    "password" ∷ "passwort" ∷ "12345678" ∷ "123456789" ∷ "1234567890" ∷ "qwertzuiop" ∷ "qwertyuiop"
    ∷ "letmein" ∷ "changeme" ∷ "admin123" ∷ "welcome1" ∷ "bahnhof1" ∷ "leitstelle" ∷ []

-- `c in string.punctuation`
abbrev pub is_punctuation : ℕ → Bool
is_punctuation c = between 33 47 c || between 58 64 c || between 91 96 c || between 123 126 c

-- `flag in (lower, upper, digit, symbol)` as a number
abbrev pub one_if : Bool → ℕ
one_if b = if b then 1 else 0

abbrev pub reason_if : Bool → PolicyReason → List PolicyReason
reason_if b reason = if b then reason ∷ [] else []

-- `if reasons: raise PasswordPolicyError(reasons)`
abbrev pub raise_reasons : List PolicyReason → Result PasswordPolicyError (Unit {0})
raise_reasons [] = ok tt
raise_reasons (r ∷ rs) = err (policy_error (r ∷ rs))

module _ (beyond_ascii : ℕ → CharClass) (lower_text : String → String) where
  abbrev pub class_of : ℕ → CharClass
  class_of c =
      if ltb c 128
      then record {
        lower = between 97 122 c;
        upper = between 65 90 c;
        digit = between 48 57 c;
        alnum = between 97 122 c || between 65 90 c || between 48 57 c;
      }
      else beyond_ascii c

  abbrev pub is_symbol : ℕ → Bool
  is_symbol c = is_punctuation c || not (class_of c).alnum

  abbrev pub any_char : (ℕ → Bool) → String → Bool
  any_char test s = any (λ c. test (code c)) (chars s)

  unfoldable pub char_classes : String → ℕ
  char_classes pw =
      one_if (any_char (λ c. (class_of c).lower) pw)
      + one_if (any_char (λ c. (class_of c).upper) pw)
      + one_if (any_char (λ c. (class_of c).digit) pw)
      + one_if (any_char is_symbol pw)

  -- `username and len(username) >= 3 and username.lower() in password.lower()`
  abbrev pub has_username : Option String → String → Bool
  has_username none password = false
  has_username (some username) password =
      leb 3 (str_len username) && is_some (find? (lower_text password) (lower_text username))

  abbrev pub reasons_of : PasswordPolicy → Option String → String → List PolicyReason
  reasons_of policy username password =
      reason_if (ltb (str_len password) policy.min_length) too_short
      ++ reason_if (ltb (char_classes password) policy.min_char_classes) too_few_classes
      ++ reason_if (contains (lower_text password) common) too_common
      ++ reason_if (has_username username password) contains_username

  abbrev pub validate :
      PasswordPolicy → Option String → String → Result PasswordPolicyError (Unit {0})
  validate policy username password = raise_reasons (reasons_of policy username password)
