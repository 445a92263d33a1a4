-- ===== src/Login/Totp.antt =====
-- server/bbz_core/auth/totp.py (the check of a code), server/bbz_core/auth/mfa.py and
-- server/bbz_core/infra/repositories/totp.py: the second factor. `pyotp.TOTP(secret).at`, the cipher,
-- SHA-256 and the digits outside ASCII are parameters. Times are whole seconds, at least one interval
-- after the epoch.
pub mod Fresh
pub mod Recovery
mod Tests
use Prim.Native.Nat.{◌/◌}
use Prim.Native.Char.{code}
use bbz_platform.Prelude.{
  ℕ, suc, ◌-◌, ◌*◌, String, Bool, true, false, not, ◌&&◌, ◌||◌, List, [], ◌∷◌, ◌++◌, Option, none,
  some, ltb, leb, nat_eq, ◌==◌, all, any, filter, chars, strip, remove_char, is_blank, is_none,
  Result, ok, err, if◌then◌else◌, get_row, put_row, delete_rows,
}

-- `TypeError` of `hmac.compare_digest` on a text outside ASCII, and `MultipleResultsFound`
pub data TotpError : Type 0 where
  type_error : TotpError
  multiple_results : TotpError

pub record LocalTotp : Type 0 where
  pub auth_identity_id : ℕ
  pub secret_ciphertext : String
  pub activated : Bool
  pub last_step : Option ℕ

pub record RecoveryCode : Type 0 where
  pub auth_identity_id : ℕ
  pub code_hash : String
  pub used_at : Option ℕ

pub record Tables : Type 0 where
  pub totps : List LocalTotp
  pub recovery : List RecoveryCode

pub data ChallengeResult : Type 0 where
  accepted : ChallengeResult
  refused : ChallengeResult
  recovery_used : ChallengeResult

abbrev pub interval : ℕ
interval = 30

-- `code.strip().replace(" ", "")`
unfoldable pub clean_code : String → String
clean_code entered = remove_char 32 (strip entered)

abbrev pub is_ascii : String → Bool
is_ascii s = all (λ c. ltb (code c) 128) (chars s)

-- `last_step is not None and candidate <= last_step`
abbrev pub is_used : Option ℕ → ℕ → Bool
is_used none candidate = false
is_used (some last) candidate = leb candidate last

abbrev pub candidates : ℕ → List ℕ
candidates now = let step = now / interval in (step - 1) ∷ step ∷ suc step ∷ []

abbrev pub totp_key : LocalTotp → ℕ
totp_key row = row.auth_identity_id

module _ (is_digit_beyond : ℕ → Bool) (code_at : String → ℕ → String) where
  -- `code.isdigit()`
  abbrev pub is_digit : ℕ → Bool
  is_digit c = if ltb c 128 then leb 48 c && leb c 57 else is_digit_beyond c

  abbrev pub all_digits : String → Bool
  all_digits s = not (is_blank s) && all (λ c. is_digit (code c)) (chars s)

  -- the loop over the candidates
  unfoldable pub try_steps : String → String → Option ℕ → List ℕ → Result TotpError (Option ℕ)
  try_steps secret cleaned last [] = ok none
  try_steps secret cleaned last (candidate ∷ more) =
      let rest = try_steps secret cleaned last more in
      if is_used last candidate
      then rest
      else if not (is_ascii cleaned)
      then err type_error
      else if code_at secret (candidate * interval) == cleaned
      then ok (some candidate)
      else rest

  abbrev pub verify_code : String → String → Option ℕ → ℕ → Result TotpError (Option ℕ)
  verify_code secret entered last now =
      let cleaned = clean_code entered in
      if not (all_digits cleaned) then ok none else try_steps secret cleaned last (candidates now)

abbrev pub is_active : ℕ → Tables → Bool
is_active id t = elim (get_row totp_key id t.totps) [ none ↦ false | some row ↦ row.activated ]

-- `start_enrolment`: the secret and the codes of before are gone
abbrev pub put_totp : LocalTotp → Option LocalTotp → List LocalTotp → List LocalTotp
put_totp new none rows = new ∷ rows
put_totp new (some row) rows = put_row totp_key new rows

abbrev pub codes_of : ℕ → List String → List RecoveryCode
codes_of id [] = []
codes_of id (h ∷ hashes) =
    record { auth_identity_id = id; code_hash = h; used_at = none } ∷ codes_of id hashes

abbrev pub recovery_key : RecoveryCode → ℕ
recovery_key row = row.auth_identity_id

abbrev pub start_enrolment : ℕ → String → List String → Tables → Tables
start_enrolment id ciphertext hashes t =
    let new : LocalTotp = record {
      auth_identity_id = id;
      secret_ciphertext = ciphertext;
      activated = false;
      last_step = none;
    } in
    record {
      totps = put_totp new (get_row totp_key id t.totps) t.totps;
      recovery =
          delete_rows recovery_key (λ row. nat_eq row.auth_identity_id id) t.recovery
          ++ codes_of id hashes;
    }

-- `UPDATE local_totp … WHERE auth_identity_id = id`
abbrev pub update_totp :
    (LocalTotp → LocalTotp) → Option LocalTotp → List LocalTotp → List LocalTotp
update_totp change none rows = rows
update_totp change (some row) rows = put_row totp_key (change row) rows

abbrev pub with_step : ℕ → LocalTotp → LocalTotp
with_step step row = record row { last_step = some step }

abbrev pub activated_at : ℕ → LocalTotp → LocalTotp
activated_at step row = record row { activated = true; last_step = some step }

abbrev pub store_activation : ℕ → ℕ → Tables → Tables
store_activation id step t = record t {
  totps = update_totp (activated_at step) (get_row totp_key id t.totps) t.totps;
}

abbrev pub record_step : ℕ → ℕ → Tables → Tables
record_step id step t = record t {
  totps = update_totp (with_step step) (get_row totp_key id t.totps) t.totps;
}

abbrev pub is_open_code : ℕ → String → RecoveryCode → Bool
is_open_code id hash row =
    nat_eq row.auth_identity_id id && (row.code_hash == hash && is_none row.used_at)

abbrev pub mark_used : ℕ → ℕ → String → List RecoveryCode → List RecoveryCode
mark_used now id hash [] = []
mark_used now id hash (row ∷ rows) =
    let rest = mark_used now id hash rows in
    (if is_open_code id hash row then record row { used_at = some now } else row) ∷ rest

-- `scalar_one_or_none()`, and the mark on the row
abbrev pub consume_found :
    ℕ → ℕ → String → List RecoveryCode → Tables → Result TotpError (Bool × Tables)
consume_found now id hash [] t = ok (false, t)
consume_found now id hash (row ∷ []) t =
    ok (true, record t { recovery = mark_used now id hash t.recovery })
consume_found now id hash (row ∷ next ∷ rows) t = err multiple_results

abbrev pub consume_recovery : ℕ → ℕ → String → Tables → Result TotpError (Bool × Tables)
consume_recovery now id hash t =
    consume_found now id hash (filter (is_open_code id hash) t.recovery) t

abbrev pub disable : ℕ → Tables → Tables
disable id t = record {
  totps = delete_rows totp_key (λ row. nat_eq row.auth_identity_id id) t.totps;
  recovery = delete_rows recovery_key (λ row. nat_eq row.auth_identity_id id) t.recovery;
}

module _ (is_digit_beyond : ℕ → Bool) (code_at : String → ℕ → String) (decrypt : String → String)
    (recovery_hash : String → String) where
  abbrev pub after_activate :
      ℕ → Result TotpError (Option ℕ) → Tables → Result TotpError (Bool × Tables)
  after_activate id (err e) t = err e
  after_activate id (ok none) t = ok (false, t)
  after_activate id (ok (some step)) t = ok (true, store_activation id step t)

  abbrev pub activate_found :
      ℕ → ℕ → String → Option LocalTotp → Tables → Result TotpError (Bool × Tables)
  activate_found now id entered none t = ok (false, t)
  activate_found now id entered (some row) t =
      if row.activated
      then ok (false, t)
      else after_activate id
          (verify_code is_digit_beyond code_at (decrypt row.secret_ciphertext) entered none now) t

  abbrev pub activate : ℕ → ℕ → String → Tables → Result TotpError (Bool × Tables)
  activate now id entered t = activate_found now id entered (get_row totp_key id t.totps) t

  abbrev pub after_recovery :
      Result TotpError (Bool × Tables) → Result TotpError (ChallengeResult × Tables)
  after_recovery (err e) = err e
  after_recovery (ok (true, t)) = ok (recovery_used, t)
  after_recovery (ok (false, t)) = ok (refused, t)

  abbrev pub after_verify :
      ℕ
      → ℕ
      → String
      → Result TotpError (Option ℕ)
      → Tables
      → Result TotpError (ChallengeResult × Tables)
  after_verify now id entered (err e) t = err e
  after_verify now id entered (ok (some step)) t = ok (accepted, record_step id step t)
  after_verify now id entered (ok none) t =
      after_recovery (consume_recovery now id (recovery_hash entered) t)

  -- `challenge`, behind the read of the row: the table may have changed since
  abbrev pub challenge_found :
      ℕ → ℕ → String → Option LocalTotp → Tables → Result TotpError (ChallengeResult × Tables)
  challenge_found now id entered none t = ok (refused, t)
  challenge_found now id entered (some row) t =
      if not row.activated
      then ok (refused, t)
      else after_verify now id entered
          (verify_code is_digit_beyond code_at (decrypt row.secret_ciphertext) entered row.last_step
            now)
          t

  -- `challenge`, with nothing between its read and its write
  abbrev pub challenge : ℕ → ℕ → String → Tables → Result TotpError (ChallengeResult × Tables)
  challenge now id entered t = challenge_found now id entered (get_row totp_key id t.totps) t
