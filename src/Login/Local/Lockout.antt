-- ===== src/Login/Local/Lockout.antt =====
-- server/bbz_core/auth/local.py: how many passwords can be tried before the account is locked, and
-- when a password signs in.
use bbz_platform.Prelude.{
  ℕ, suc, ◌+◌, ◌-◌, ◌≤◌, String, Bool, true, false, not, ◌&&◌, List, [], ◌∷◌, Option, none, some,
  ◌≡◌, refl, ap, ◌∙◌, inl, inr, leb, nat_eq, ◌==◌, Bool-cases, arith, if◌then◌else◌, some_injective,
}
use bbz_platform.Login.Local.{
  CredentialRecord, Settings, get_by_username, update_where, failed_once, is_locked, authenticate,
  record_failure,
}

abbrev pub changed_at :
    ℕ → (CredentialRecord → CredentialRecord) → CredentialRecord → CredentialRecord
changed_at id change row = if nat_eq row.auth_identity_id id then change row else row

-- An update that keeps the name leaves the row to be found under it.
pub get_by_username-update_where :
    (username : String) (id : ℕ) (change : CredentialRecord → CredentialRecord)
    (rows : List CredentialRecord) {row : CredentialRecord}
    → ((r : CredentialRecord) → (change r).username ≡ r.username)
    → get_by_username username rows ≡ some row
    → get_by_username username (update_where id change rows) ≡ some (changed_at id change row)
get_by_username-update_where username id change [] kept found = absurd (cc found)
get_by_username-update_where username id change (r ∷ rows) {row} kept found =
    let same_name : (changed_at id change r).username ≡ r.username =
      elim (Bool-cases (nat_eq r.auth_identity_id id)) [
        | inl hit ↦ rw hit (kept r)
        | inr miss ↦ rw miss refl
      ] in
    elim (Bool-cases (r.username == username)) [
      | inl here ↦ rw same_name (
          rw here (
            ap (λ (x : CredentialRecord). some (changed_at id change x))
              (some_injective (rw here at found))))
      | inr other ↦
          rw same_name (
            rw other
              (get_by_username-update_where username id change rows kept (rw other at found)))
    ]

-- The call comes to the test of the password.
abbrev pub comes_to_test : ℕ → Option CredentialRecord → Bool
comes_to_test now none = false
comes_to_test now (some row) = not (is_locked row.locked_until now) && row.user_active

abbrev pub is_checked : ℕ → String → List CredentialRecord → Bool
is_checked now username rows = comes_to_test now (get_by_username username rows)

-- The failures that are left before the lock, or one where none is left.
abbrev pub allowance : ℕ → ℕ → ℕ
allowance limit failed = if leb limit failed then 1 else limit - failed

module _ (verify_password : String → String → Bool) (needs_rehash : String → Bool)
    (hash_password : String → String) where
  -- How many of these calls, each with its time and its password, come to that test.
  abbrev pub guesses : Settings → String → List (ℕ × String) → List CredentialRecord → ℕ
  guesses s username [] rows = 0
  guesses s username ((now, password) ∷ more) rows =
      let rest =
        guesses s username more
          (authenticate verify_password needs_rehash hash_password s now username password
            rows).1 in
      if is_checked now username rows then suc rest else rest

  abbrev pub IsWrong : CredentialRecord → ℕ × String → Type 0
  IsWrong row attempt = verify_password row.password_hash attempt.1 ≡ false

  abbrev pub IsWithin : Settings → ℕ → ℕ × String → Type 0
  IsWithin s deadline attempt =
      (suc attempt.0 ≤ deadline) × (deadline ≤ attempt.0 + s.login_lockout_seconds)

  pub failed_row :
      (username : String) (lock : Option ℕ) (rows : List CredentialRecord) {row : CredentialRecord}
      → get_by_username username rows ≡ some row
      → get_by_username username (record_failure row.auth_identity_id lock rows)
        ≡ some (failed_once lock row)
  failed_row username lock rows {row} found =
      let itself : nat_eq row.auth_identity_id row.auth_identity_id ≡ true = ground arith in
      get_by_username-update_where username row.auth_identity_id (failed_once lock) rows (λ r. refl)
        found
      ∙ rw itself refl
