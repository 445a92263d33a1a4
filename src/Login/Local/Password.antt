-- ===== src/Login/Local/Password.antt =====
-- server/bbz_core/auth/local.py: when a password signs in, and that a new one does.
use bbz_platform.Prelude.{
  ℕ, suc, ◌≤◌, String, Bool, true, false, List, [], ◌∷◌, Option, none, some, ◌≡◌, ◌↔◌, refl, ◌∙◌,
  subst, inl, inr, nat_eq, is_some, ok, Bool-cases, arith, >>=-eq-ok, ok_injective,
}
use bbz_platform.Login.Policy.{PasswordPolicy, CharClass, validate}
use bbz_platform.Login.Local.{
  CredentialRecord, Settings, success, get_by_username, is_locked, lock_after, authenticate,
  authenticate_found, set_password, with_password,
}
use bbz_platform.Login.Local.Lockout.{get_by_username-update_where}

module _ (verify_password : String → String → Bool) (needs_rehash : String → Bool)
    (hash_password : String → String) where
  -- A lock that has run out, or none.
  abbrev pub HasRunOut : ℕ → Option ℕ → Type 0
  HasRunOut now none = Unit
  HasRunOut now (some until) = until ≤ now

  is_locked-HasRunOut :
      (now : ℕ) (lock : Option ℕ) → is_locked lock now ≡ false → HasRunOut now lock
  is_locked-HasRunOut now none free = tt
  is_locked-HasRunOut now (some until) free = ground (arith, free)

  HasRunOut-is_locked :
      (now : ℕ) (lock : Option ℕ) → HasRunOut now lock → is_locked lock now ≡ false
  HasRunOut-is_locked now none over = refl
  HasRunOut-is_locked now (some until) over = ground (arith, over)

  -- A credential that is not locked, of an active user, whose hash verifies the password.
  abbrev pub LetsIn : ℕ → String → Option CredentialRecord → Type 0
  LetsIn now password found =
      (row : CredentialRecord) × (found ≡ some row)
      × HasRunOut now row.locked_until
      × (row.user_active ≡ true)
      × (verify_password row.password_hash password ≡ true)

  found_success :
      (s : Settings) (now : ℕ) (found : Option CredentialRecord) (password : String)
      (rows : List CredentialRecord)
      → (authenticate_found verify_password needs_rehash hash_password s now found password
          rows).0.result
        ≡ success
      → LetsIn now password found
  found_success s now none password rows signed_in = absurd (cc signed_in)
  found_success s now (some row) password rows signed_in =
      elim (Bool-cases (is_locked row.locked_until now)) [
        | inl shut ↦ absurd (cc (rw shut at signed_in))
        | inr free ↦ elim (Bool-cases row.user_active) [
          | inr off ↦ absurd (cc (rw off at (rw free at signed_in)))
          | inl on ↦ elim (Bool-cases (verify_password row.password_hash password)) [
            | inl right ↦ (row, refl, is_locked-HasRunOut now row.locked_until free, on, right)
            | inr wrong ↦ elim (Bool-cases (is_some (lock_after s now (suc row.failed_attempts)))) [
              | inl locks ↦
                  absurd (cc (rw locks at (rw wrong at (rw on at (rw free at signed_in)))))
              | inr more ↦ absurd (cc (rw more at (rw wrong at (rw on at (rw free at signed_in)))))
            ]
          ]
        ]
      ]

  -- A call signs in exactly if the name has a credential of an active user, the credential has no lock or
  -- one that has run out by then, and its hash verifies the password.
  pub authenticate-success :
      (s : Settings) (now : ℕ) (username password : String) (rows : List CredentialRecord)
      → ((authenticate verify_password needs_rehash hash_password s now username password
            rows).0.result
          ≡ success)
        ↔ LetsIn now password (get_by_username username rows)
  authenticate-success s now username password rows = (
    found_success s now (get_by_username username rows) password rows,
    λ (row, found, free, on, right).
        rw found (rw (HasRunOut-is_locked now row.locked_until free) (rw on (rw right refl))),
  )

  -- What calls of `authenticate`, each with its time and its password, leave.
  abbrev pub left_by :
      Settings → String → List (ℕ × String) → List CredentialRecord → List CredentialRecord
  left_by s username [] rows = rows
  left_by s username ((now, password) ∷ more) rows =
      left_by s username more
        (authenticate verify_password needs_rehash hash_password s now username password rows).1

  -- A new password that the policy lets through signs its active user in at once, and ends a lock, if a
  -- hash verifies what was hashed.
  pub authenticate-set_password :
      (beyond_ascii : ℕ → CharClass) (lower_text : String → String) (policy : PasswordPolicy)
      (s : Settings) (now : ℕ) (username password : String) (must_change : Bool)
      (rows after : List CredentialRecord) (row : CredentialRecord)
      → ((word : String) → verify_password (hash_password word) word ≡ true)
      → get_by_username username rows ≡ some row
      → row.user_active ≡ true
      → set_password verify_password needs_rehash hash_password beyond_ascii lower_text policy
          (some username)
          row.auth_identity_id
          password
          must_change
          rows
        ≡ ok after
      → (let outcome =
            (authenticate verify_password needs_rehash hash_password s now username password
              after).0 in
          (outcome.result ≡ success)
          × (outcome.user_id ≡ some row.user_id)
          × (outcome.must_change_password ≡ must_change))
  authenticate-set_password beyond_ascii lower_text policy s now username password must_change rows
        after row verifies found on stored =
      let (_, _, written) =
        >>=-eq-ok (validate beyond_ascii lower_text policy (some username) password) _ stored in
      let itself : nat_eq row.auth_identity_id row.auth_identity_id ≡ true = ground arith in
      let change = with_password (hash_password password) must_change in
      let kept =
        get_by_username-update_where username row.auth_identity_id change rows (λ r. refl) found
        ∙ rw itself refl in
      let now_found : get_by_username username after ≡ some (change row) =
        subst (λ table. get_by_username username table ≡ some (change row)) (ok_injective written)
          kept in
      rw now_found (rw on (rw (verifies password) (refl, refl, refl)))
