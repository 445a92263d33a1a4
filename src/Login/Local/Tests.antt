-- ===== src/Login/Local/Tests.antt =====
-- server/bbz_core/auth/local.py and server/bbz_core/auth/policy.py: one account, with a hash that is the
-- password itself.
use bbz_platform.Prelude.{
  ℕ, String, Bool, true, false, List, [], ◌∷◌, none, some, ◌≡◌, refl, ◌==◌, eq_iff,
}
use bbz_platform.Login.Policy.{
  PasswordPolicy, CharClass, too_few_classes, too_common, contains_username, reasons_of,
  char_classes,
}
use bbz_platform.Login.Local.{
  CredentialRecord, Settings, success, locked, authenticate, authenticate_found, store_password,
}
use bbz_platform.Login.Local.Password.{authenticate-set_password}

abbrev same : String → String → Bool
same stored word = stored == word

abbrev never : String → Bool
never stored = false

abbrev itself : String → String
itself s = s

abbrev no_class : ℕ → CharClass
no_class c = record { lower = false; upper = false; digit = false; alnum = false }

abbrev settings : Settings
settings = record { login_max_failed_attempts = 2; login_lockout_seconds = 900 }

abbrev policy : PasswordPolicy
policy = record { min_length = 8; min_char_classes = 3 }

abbrev account : CredentialRecord
account = record {
  user_id = 1;
  auth_identity_id = 4;
  username = "operator";
  password_hash = "right";
  must_change = false;
  failed_attempts = 0;
  locked_until = none;
  user_active = true;
}

abbrev rows : List CredentialRecord
rows = account ∷ []

-- After two failures the right password is refused as well, until the lock ends.
abbrev shut : List CredentialRecord
shut =
    (authenticate same never itself settings 20 "operator" "b"
      (authenticate same never itself settings 10 "operator" "a" rows).1).1

still_shut : (authenticate same never itself settings 919 "operator" "right" shut).0.result ≡ locked
still_shut = refl

let_in_again :
    (authenticate same never itself settings 920 "operator" "right" shut).0.result ≡ success
let_in_again = refl

-- The failures are kept when a lock ends: one more locks again.
shut_at_once : (authenticate same never itself settings 920 "operator" "c" shut).0.result ≡ locked
shut_at_once = refl

weak :
    reasons_of no_class itself policy (some "word") "password"
    ≡ too_few_classes ∷ too_common ∷ contains_username ∷ []
unfolding char_classes
weak = refl

abbrev failed_one : CredentialRecord
failed_one = record account { failed_attempts = 1 }

-- A call that read the row before another locked the account tests its password all the same.
raced :
    (authenticate_found same never itself settings 20
      (some failed_one)
      "right"
      (authenticate_found same never itself settings 20
        (some failed_one)
        "b"
        (failed_one ∷ [])).1).0.result
    ≡ success
raced = refl

authenticate-set_password_example :
    (let outcome =
        (authenticate same never itself settings 30 "operator" "Gleis7+Nord"
          (store_password 4 "Gleis7+Nord" true shut)).0 in
      (outcome.result ≡ success)
      × (outcome.user_id ≡ some 1)
      × (outcome.must_change_password ≡ true))
unfolding char_classes
authenticate-set_password_example =
    authenticate-set_password same never itself no_class itself policy settings 30 "operator"
      "Gleis7+Nord" true shut (store_password 4 "Gleis7+Nord" true shut)
      (record account { failed_attempts = 2; locked_until = some 920 })
      (λ word. (eq_iff word word).1 refl) refl refl refl
