-- ===== src/Login/Local.antt =====
-- server/bbz_core/auth/local.py, server/bbz_core/infra/repositories/local_credentials.py and
-- server/bbz_core/auth/policy.py: passwords, with the lockout after failures. Times are seconds. The
-- hash functions of argon2 and the tests of `str` on letters outside ASCII are parameters.
pub mod Lockout
pub mod Password
mod Tests
use Prim.Native.Char
use Prim.Native.String
use text.Mathlib.Text.{find?}
use bbz_platform.Login.Policy.{PasswordPolicyError, PasswordPolicy, CharClass, validate}
use bbz_platform.Prelude.{
  ℕ, suc, ◌+◌, String, Bool, true, false, not, ◌&&◌, ◌||◌, List, [], ◌∷◌, ◌++◌, map, Option, none,
  some, ltb, leb, nat_eq, ◌==◌, find, is_empty, is_some, contains, str_len, Result, ok, err, ◌>>◌,
  if◌then◌else◌,
}

pub data LocalAuthResult : Type 0 where
  success : LocalAuthResult
  bad_credentials : LocalAuthResult
  locked : LocalAuthResult
  disabled : LocalAuthResult

-- A row of `local_credentials`, joined with its identity and its user.
pub record CredentialRecord : Type 0 where
  pub user_id : ℕ
  pub auth_identity_id : ℕ
  pub username : String
  pub password_hash : String
  pub must_change : Bool
  pub failed_attempts : ℕ
  pub locked_until : Option ℕ
  pub user_active : Bool

pub record AuthOutcome : Type 0 where
  result : LocalAuthResult
  user_id : Option ℕ
  must_change_password : Bool
  rehash : Option String

pub record Settings : Type 0 where
  login_max_failed_attempts : ℕ
  login_lockout_seconds : ℕ

abbrev pub refused : LocalAuthResult → AuthOutcome
refused result = record {
  result = result;
  user_id = none;
  must_change_password = false;
  rehash = none;
}

abbrev pub get_by_username : String → List CredentialRecord → Option CredentialRecord
get_by_username username rows = find (λ row. row.username == username) rows

-- `UPDATE … WHERE auth_identity_id = id`
abbrev pub update_where :
    ℕ → (CredentialRecord → CredentialRecord) → List CredentialRecord → List CredentialRecord
update_where id change [] = []
update_where id change (row ∷ rows) =
    let rest = update_where id change rows in
    (if nat_eq row.auth_identity_id id then change row else row) ∷ rest

abbrev pub failed_once : Option ℕ → CredentialRecord → CredentialRecord
failed_once locked_until row = record row {
  failed_attempts = suc row.failed_attempts;
  locked_until = locked_until;
}

abbrev pub record_failure : ℕ → Option ℕ → List CredentialRecord → List CredentialRecord
record_failure id locked_until rows = update_where id (failed_once locked_until) rows

abbrev pub cleared : CredentialRecord → CredentialRecord
cleared row = record row { failed_attempts = 0; locked_until = none }

abbrev pub reset_failures : ℕ → List CredentialRecord → List CredentialRecord
reset_failures id rows = update_where id cleared rows

abbrev pub with_hash : String → CredentialRecord → CredentialRecord
with_hash new_hash row = record row { password_hash = new_hash }

abbrev pub update_hash : ℕ → String → List CredentialRecord → List CredentialRecord
update_hash id new_hash rows = update_where id (with_hash new_hash) rows

-- the row that is there; one that is not is made by the caller
abbrev pub with_password : String → Bool → CredentialRecord → CredentialRecord
with_password new_hash must_change row = record row {
  password_hash = new_hash;
  must_change = must_change;
  failed_attempts = 0;
  locked_until = none;
}

abbrev pub store_password : ℕ → String → Bool → List CredentialRecord → List CredentialRecord
store_password id new_hash must_change rows =
    update_where id (with_password new_hash must_change) rows

-- `locked_until is not None and locked_until > now`
abbrev pub is_locked : Option ℕ → ℕ → Bool
is_locked none now = false
is_locked (some until) now = ltb now until

-- The lock that a further failure sets.
abbrev pub lock_after : Settings → ℕ → ℕ → Option ℕ
lock_after s now attempts =
    if leb s.login_max_failed_attempts attempts then some (now + s.login_lockout_seconds) else none

module _ (verify_password : String → String → Bool) (needs_rehash : String → Bool)
    (hash_password : String → String) where
  abbrev pub rehash_of : CredentialRecord → String → Option String
  rehash_of row password =
      if needs_rehash row.password_hash then some (hash_password password) else none

  abbrev pub rehashed : ℕ → Option String → List CredentialRecord → List CredentialRecord
  rehashed id none rows = rows
  rehashed id (some new_hash) rows = update_hash id new_hash rows

  -- the password is right, or wrong
  abbrev pub checked :
      Bool
      → Settings
      → ℕ
      → CredentialRecord
      → String
      → List CredentialRecord
      → AuthOutcome × List CredentialRecord
  checked false s now row password rows =
      let locked_until = lock_after s now (suc row.failed_attempts) in
      (
        refused (if is_some locked_until then locked else bad_credentials),
        record_failure row.auth_identity_id locked_until rows,
      )
  checked true s now row password rows =
      let rehash = rehash_of row password in
      (
        record {
          result = success;
          user_id = some row.user_id;
          must_change_password = row.must_change;
          rehash = rehash;
        },
        rehashed row.auth_identity_id rehash (reset_failures row.auth_identity_id rows),
      )

  -- `authenticate`, behind the read of the row: the table may have changed since
  abbrev pub authenticate_found :
      Settings
      → ℕ
      → Option CredentialRecord
      → String
      → List CredentialRecord
      → AuthOutcome × List CredentialRecord
  authenticate_found s now none password rows = (refused bad_credentials, rows)
  authenticate_found s now (some row) password rows =
      if is_locked row.locked_until now
      then (refused locked, rows)
      else if not row.user_active
      then (refused disabled, rows)
      else checked (verify_password row.password_hash password) s now row password rows

  -- `authenticate`, with nothing between its read and its writes
  abbrev pub authenticate :
      Settings → ℕ → String → String → List CredentialRecord → AuthOutcome × List CredentialRecord
  authenticate s now username password rows =
      authenticate_found s now (get_by_username username rows) password rows

  -- `LocalAuthService.set_password`, of a credential that is there
  abbrev pub set_password :
      (ℕ → CharClass)
      → (String → String)
      → PasswordPolicy
      → Option String
      → ℕ
      → String
      → Bool
      → List CredentialRecord
      → Result PasswordPolicyError (List CredentialRecord)
  set_password beyond_ascii lower_text policy username id new_password must_change rows =
      validate beyond_ascii lower_text policy username new_password
      >> ok (store_password id (hash_password new_password) must_change rows)
