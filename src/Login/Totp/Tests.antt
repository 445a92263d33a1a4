-- ===== src/Login/Totp/Tests.antt =====
-- server/bbz_core/auth/mfa.py: one factor whose code is the text of its time.
use bbz_platform.Prelude.{
  ℕ, suc, ◌*◌, ◌≤◌, ◌<◌, String, Bool, true, false, [], ◌∷◌, some, ◌≡◌, refl, nat_eq, ok, err,
  if◌then◌else◌, strip,
}
use Prim.Native.Nat.{◌/◌}
use bbz_platform.Login.Totp.{
  Tables, LocalTotp, accepted, refused, type_error, challenge, challenge_found, activate,
  start_enrolment, try_steps, clean_code, interval,
}
use bbz_platform.Login.Totp.Fresh.{challenge_fresh}

-- The codes of the first steps.
abbrev code_at : String → ℕ → String
code_at secret at = if nat_eq at 300 then "100000" else if nat_eq at 330 then "110000" else "999999"

abbrev itself : String → String
itself s = s

abbrev no_digit : ℕ → Bool
no_digit c = false

-- U+0661, a digit for `str.isdigit`
abbrev arabic_digit : ℕ → Bool
arabic_digit c = nat_eq c 0x661

abbrev enrolled : Tables
enrolled = start_enrolment 5 "secret" ("r1" ∷ []) (record { totps = []; recovery = [] })

abbrev active : Tables
active = record enrolled {
  totps =
      record {
        auth_identity_id = 5;
        secret_ciphertext = "secret";
        activated = true;
        last_step = some 9;
      }
      ∷ [];
}

activated :
    activate no_digit code_at itself itself 301 5 "100 000" enrolled
    ≡ ok (
      true,
      record active {
        totps =
            record {
              auth_identity_id = 5;
              secret_ciphertext = "secret";
              activated = true;
              last_step = some 10;
            }
            ∷ [];
      },
    )
unfolding clean_code try_steps strip
activated = refl

-- A digit outside ASCII passes the test and raises in the comparison.
raises : challenge arabic_digit code_at itself itself 301 5 "\u{661}" active ≡ err type_error
unfolding clean_code try_steps strip
raises = refl

abbrev first : Tables
first = record active {
  totps =
      record {
        auth_identity_id = 5;
        secret_ciphertext = "secret";
        activated = true;
        last_step = some 10;
      }
      ∷ [];
}

abbrev second : Tables
second = record active {
  totps =
      record {
        auth_identity_id = 5;
        secret_ciphertext = "secret";
        activated = true;
        last_step = some 11;
      }
      ∷ [];
}

replayed : challenge no_digit code_at itself itself 302 5 "100000" first ≡ ok (refused, first)
unfolding clean_code try_steps strip
replayed = refl

abbrev last_step_9 : LocalTotp
last_step_9 = record {
  auth_identity_id = 5;
  secret_ciphertext = "secret";
  activated = true;
  last_step = some 9;
}

-- Two challenges at once read the row before either writes it, and the code passes twice.
raced :
    (challenge_found no_digit code_at itself itself 301 5 "100000" (some last_step_9) active
      ≡ ok (accepted, first))
    × (challenge_found no_digit code_at itself itself 301 5 "100000" (some last_step_9) first
        ≡ ok (accepted, first))
unfolding clean_code try_steps strip
raced = (refl, refl)

challenge_fresh_example :
    (secret : String) × (step : ℕ) × (next : ℕ) × (step < next)
    × (code_at secret (step * interval) ≡ clean_code "100000")
    × (code_at secret (next * interval) ≡ clean_code "110000")
    × (301 / interval ≤ suc step)
    × (step ≤ suc (301 / interval))
    × (335 / interval ≤ suc next)
    × (next ≤ suc (335 / interval))
unfolding clean_code try_steps strip
challenge_fresh_example =
    challenge_fresh no_digit code_at itself itself 5 301 335 "100000" "110000"
      ((302, 5, "100000") ∷ []) active {first = first} {second = second} refl refl
