-- ===== src/Login/Totp/Fresh.antt =====
-- server/bbz_core/auth/totp.py and server/bbz_core/auth/mfa.py: a code is accepted in its time, and once.
use Prim.Native.Nat.{◌/◌}
use bbz_platform.Prelude.{
  filter, ℕ, suc, ◌-◌, ◌*◌, ◌≤◌, ◌<◌, String, Bool, false, List, [], ◌∷◌, Option, none, some, ◌≡◌,
  refl, sym, ap, ◌∙◌, subst, inl, inr, nat_eq, ◌==◌, eq_iff, Result, ok, err, ok_injective,
  Bool-cases, Option-cases, arith, get_row, put_row, get_row-key, get_row-put_row,
  get_row-put_row_other, some_injective, All,
}
use bbz_platform.Login.Totp.{
  TotpError, LocalTotp, RecoveryCode, Tables, ChallengeResult, accepted, interval, clean_code,
  is_ascii, is_used, candidates, totp_key, try_steps, verify_code, with_step, record_step,
  is_open_code, consume_found, after_verify, after_recovery, all_digits, challenge,
}

-- No later than the last step.
abbrev pub IsAfter : Option ℕ → ℕ → Type 0
IsAfter none step = Unit
IsAfter (some last) step = last < step

module _ (is_digit_beyond : ℕ → Bool) (code_at : String → ℕ → String) where
  -- The step is one of these, is not used up, and the code is the one of that step.
  abbrev pub IsMatch : String → String → Option ℕ → ℕ → Type 0
  IsMatch secret cleaned last step =
      (is_used last step ≡ false) × (code_at secret (step * interval) ≡ cleaned)

  try_steps-IsMatch :
      (secret cleaned : String) (last : Option ℕ) (low high : ℕ) (steps : List ℕ) {step : ℕ}
      → All (λ s. (low ≤ s) × (s ≤ high)) steps
      → try_steps is_digit_beyond code_at secret cleaned last steps ≡ ok (some step)
      → (low ≤ step) × (step ≤ high) × IsMatch secret cleaned last step
  unfolding try_steps
  try_steps-IsMatch secret cleaned last low high [] bounds found = absurd (cc found)
  try_steps-IsMatch secret cleaned last low high (candidate ∷ more) {step} bounds found =
      let rest = try_steps-IsMatch secret cleaned last low high more in
      elim (Bool-cases (is_used last candidate)) [
        | inl used ↦ rest bounds.1 (rw used at found)
        | inr fresh ↦ elim (Bool-cases (is_ascii cleaned)) [
          | inr other ↦ absurd (cc (rw other at (rw fresh at found)))
          | inl ascii ↦ elim (Bool-cases (code_at secret (candidate * interval) == cleaned)) [
            | inr wrong ↦ rest bounds.1 (rw wrong at (rw ascii at (rw fresh at found)))
            | inl right ↦
                let itself : candidate ≡ step =
                  some_injective (ok_injective (rw right at (rw ascii at (rw fresh at found)))) in
                subst (λ s. (low ≤ s) × (s ≤ high) × IsMatch secret cleaned last s) itself
                  (bounds.0.0, bounds.0.1, (fresh, (eq_iff _ _).0 right))
          ]
        ]
      ]

  verify_code-IsMatch :
      (secret entered : String) (last : Option ℕ) (now step : ℕ)
      → verify_code is_digit_beyond code_at secret entered last now ≡ ok (some step)
      → (now / interval ≤ suc step)
        × (step ≤ suc (now / interval))
        × IsMatch secret (clean_code entered) last step
  verify_code-IsMatch secret entered last now step found =
      elim (Bool-cases (all_digits is_digit_beyond code_at (clean_code entered))) [
        | inr other ↦ absurd (cc (rw other at found))
        | inl digits ↦
            let (above, below, match_) =
              try_steps-IsMatch secret (clean_code entered) last (now / interval - 1)
                (suc (now / interval)) (candidates now)
                (
                  (omega arith, omega arith),
                  ((omega arith, omega arith), ((omega arith, omega arith), tt)),
                )
                (rw digits at found) in
            (omega (arith, above), below, match_)
      ]

module _ (is_digit_beyond : ℕ → Bool) (code_at : String → ℕ → String) (decrypt : String → String)
    (recovery_hash : String → String) where
  -- The factor has this secret, and has used up this step.
  abbrev pub HasStep : ℕ → String → ℕ → Tables → Type 0
  HasStep id ciphertext step t =
      (row : LocalTotp) × (get_row totp_key id t.totps ≡ some row)
      × (row.secret_ciphertext ≡ ciphertext)
      × (last : ℕ) × (row.last_step ≡ some last)
      × (step ≤ last)

  -- A call of `challenge`: its time, whose it is, and the code.
  abbrev pub Call : Type 0
  Call = ℕ × ℕ × String

  abbrev pub left_by : Tables → Result TotpError (ChallengeResult × Tables) → Tables
  left_by t (err e) = t
  left_by t (ok (result, after)) = after

  abbrev pub challenges : List Call → Tables → Tables
  challenges [] t = t
  challenges ((now, id, entered) ∷ calls) t =
      challenges calls
        (left_by t (challenge is_digit_beyond code_at decrypt recovery_hash now id entered t))

  recovery_keeps :
      (now id : ℕ) (hash : String) (codes : List RecoveryCode) (t : Tables)
      → (left_by t (
          after_recovery is_digit_beyond code_at decrypt recovery_hash
            (consume_found now id hash codes t))).totps
        ≡ t.totps
  recovery_keeps now id hash [] t = refl
  recovery_keeps now id hash (row ∷ []) t = refl
  recovery_keeps now id hash (row ∷ next ∷ codes) t = refl

  never_accepted :
      (now id : ℕ) (hash : String) (codes : List RecoveryCode) (t : Tables) {after : Tables}
      → ¬ (
          after_recovery is_digit_beyond code_at decrypt recovery_hash
            (consume_found now id hash codes t)
          ≡ ok (accepted, after))
  never_accepted now id hash [] t result = cc
  never_accepted now id hash (row ∷ []) t result = cc
  never_accepted now id hash (row ∷ next ∷ codes) t result = cc

  -- What an accepted code says of the factor.
  abbrev pub IsAccepted : ℕ → ℕ → String → LocalTotp → ℕ → Type 0
  IsAccepted now id entered row step =
      (now / interval ≤ suc step)
      × (step ≤ suc (now / interval))
      × (is_used row.last_step step ≡ false)
      × (code_at (decrypt row.secret_ciphertext) (step * interval) ≡ clean_code entered)

  verified_accepted :
      (now id : ℕ) (entered : String) (row : LocalTotp) (t : Tables) {after : Tables}
      (verified : Result TotpError (Option ℕ))
      → verify_code is_digit_beyond code_at
          (decrypt row.secret_ciphertext)
          entered
          row.last_step
          now
        ≡ verified
      → after_verify is_digit_beyond code_at decrypt recovery_hash now id entered verified t
        ≡ ok (accepted, after)
      → (step : ℕ) × IsAccepted now id entered row step × (after ≡ record_step id step t)
  verified_accepted now id entered row t (err e) found result = absurd (cc result)
  verified_accepted now id entered row t (ok (some step)) found result =
      let (above, below, (fresh, same)) =
        verify_code-IsMatch is_digit_beyond code_at (decrypt row.secret_ciphertext) entered
          row.last_step now step found in
      (step, (above, below, fresh, same), ap (λ p. p.1) (sym (ok_injective result)))
  verified_accepted now id entered row t (ok none) found result =
      absurd (never_accepted now id (recovery_hash entered) _ t result)

  challenge-accepted :
      (now id : ℕ) (entered : String) (t : Tables) {after : Tables}
      → challenge is_digit_beyond code_at decrypt recovery_hash now id entered t
        ≡ ok (accepted, after)
      → (row : LocalTotp) × (get_row totp_key id t.totps ≡ some row)
        × (step : ℕ) × IsAccepted now id entered row step
        × (after ≡ record_step id step t)
  challenge-accepted now id entered t result = elim (Option-cases (get_row totp_key id t.totps)) [
    | inl missing ↦ absurd (cc (rw missing at result))
    | inr (row, found) ↦ elim (Bool-cases row.activated) [
      | inr off ↦ absurd (cc (rw off at (rw found at result)))
      | inl on ↦
          let (step, fits, left) =
            verified_accepted now id entered row t _ refl (rw on at (rw found at result)) in
          (row, found, step, fits, left)
    ]
  ]

  record_step-HasStep :
      (id step : ℕ) (t : Tables) (row : LocalTotp)
      → get_row totp_key id t.totps ≡ some row
      → HasStep id row.secret_ciphertext step (record_step id step t)
  record_step-HasStep id step t row found =
      let new = with_step step row in
      let key : row.auth_identity_id ≡ id = get_row-key totp_key id t.totps found in
      let written : get_row totp_key id (put_row totp_key new t.totps) ≡ some new =
        subst (λ k. get_row totp_key k (put_row totp_key new t.totps) ≡ some new) key
          (get_row-put_row totp_key new t.totps
            (subst (λ k. get_row totp_key k t.totps ≡ some row) (sym key) found)) in
      rw found (new, written, refl, step, refl, omega arith)

  weaker :
      (id : ℕ) (ciphertext : String) (low high : ℕ) (t : Tables)
      → low ≤ high
      → HasStep id ciphertext high t
      → HasStep id ciphertext low t
  weaker id ciphertext low high t le (row, found, secret, last, at_last, past) =
      (row, found, secret, last, at_last, omega (arith, le, past))

  -- A later step of another row, or a later one of this.
  record_step_keeps :
      (id j step used : ℕ) (ciphertext : String) (t : Tables) (row : LocalTotp)
      → get_row totp_key j t.totps ≡ some row
      → is_used row.last_step step ≡ false
      → HasStep id ciphertext used t
      → HasStep id ciphertext used (record_step j step t)
  record_step_keeps id j step used ciphertext t row found fresh
        (own, there, cipher, last, at_last, past) =
      elim (Bool-cases (nat_eq j id)) [
        | inr other ↦
            let key : row.auth_identity_id ≡ j = get_row-key totp_key j t.totps found in
            rw found (
              own,
              get_row-put_row_other totp_key id (with_step step row) t.totps (rw key other) ∙ there,
              cipher,
              last,
              at_last,
              past,
            )
        | inl same ↦
            let equal : j ≡ id = ground (arith, same) in
            let itself : row ≡ own =
              some_injective
                (sym (subst (λ k. get_row totp_key k t.totps ≡ some row) equal found) ∙ there) in
            let at_row : row.last_step ≡ some last =
              ap (λ (r : LocalTotp). r.last_step) itself ∙ at_last in
            let later : used ≤ step = ground (arith, past, rw at_row at fresh) in
            let secret : row.secret_ciphertext ≡ ciphertext =
              ap (λ (r : LocalTotp). r.secret_ciphertext) itself ∙ cipher in
            subst (λ k. HasStep k ciphertext used (record_step j step t)) equal
              (subst (λ c. HasStep j c used (record_step j step t)) secret
                (weaker j row.secret_ciphertext used step (record_step j step t) later
                  (record_step-HasStep j step t row found)))
      ]

  after_verify_keeps :
      (id now j used : ℕ) (ciphertext entered : String) (t : Tables) (row : LocalTotp)
      (verified : Result TotpError (Option ℕ))
      → verify_code is_digit_beyond code_at
          (decrypt row.secret_ciphertext)
          entered
          row.last_step
          now
        ≡ verified
      → get_row totp_key j t.totps ≡ some row
      → HasStep id ciphertext used t
      → HasStep id ciphertext used (
          left_by t
            (after_verify is_digit_beyond code_at decrypt recovery_hash now j entered verified t))
  after_verify_keeps id now j used ciphertext entered t row (err e) found_step found has = has
  after_verify_keeps id now j used ciphertext entered t row (ok none) found_step found has =
      let same =
        recovery_keeps now j (recovery_hash entered)
          (filter (is_open_code j (recovery_hash entered)) t.recovery) t in
      rw same has
  after_verify_keeps id now j used ciphertext entered t row (ok (some step)) found_step found has =
      let (_, _, (fresh, _)) =
        verify_code-IsMatch is_digit_beyond code_at (decrypt row.secret_ciphertext) entered
          row.last_step now step found_step in
      record_step_keeps id j step used ciphertext t row found fresh has

  challenge-HasStep :
      (id now j used : ℕ) (ciphertext entered : String) (t : Tables)
      → HasStep id ciphertext used t
      → HasStep id ciphertext used
          (left_by t (challenge is_digit_beyond code_at decrypt recovery_hash now j entered t))
  challenge-HasStep id now j used ciphertext entered t has =
      elim (Option-cases (get_row totp_key j t.totps)) [
        | inl missing ↦ rw missing has
        | inr (row, found) ↦ elim (Bool-cases row.activated) [
          | inr off ↦ rw found (rw off has)
          | inl on ↦
              rw found
                (rw on (after_verify_keeps id now j used ciphertext entered t row _ refl found has))
        ]
      ]

  challenges-HasStep :
      (id used : ℕ) (ciphertext : String) (calls : List Call) (t : Tables)
      → HasStep id ciphertext used t
      → HasStep id ciphertext used (challenges calls t)
  challenges-HasStep id used ciphertext [] t has = has
  challenges-HasStep id used ciphertext ((now, j, entered) ∷ calls) t has =
      challenges-HasStep id used ciphertext calls
        (left_by t (challenge is_digit_beyond code_at decrypt recovery_hash now j entered t))
        (challenge-HasStep id now j used ciphertext entered t has)

  -- Where challenges are answered one after the other, and one factor accepts two codes, whatever
  -- challenges come in between, the first is the code of an earlier step than the second, and each is the
  -- code of a step at most one before and at most one after the step of its time. Challenges that overlap
  -- are not covered.
  pub challenge_fresh :
      (id now later : ℕ) (entered again : String) (calls : List Call) (t : Tables)
      {first second : Tables}
      → challenge is_digit_beyond code_at decrypt recovery_hash now id entered t
        ≡ ok (accepted, first)
      → challenge is_digit_beyond code_at decrypt recovery_hash later id again
          (challenges calls first)
        ≡ ok (accepted, second)
      → (secret : String) × (step : ℕ) × (next : ℕ) × (step < next)
        × (code_at secret (step * interval) ≡ clean_code entered)
        × (code_at secret (next * interval) ≡ clean_code again)
        × (now / interval ≤ suc step)
        × (step ≤ suc (now / interval))
        × (later / interval ≤ suc next)
        × (next ≤ suc (later / interval))
  challenge_fresh id now later entered again calls t {first} {second} accepts accepts_again =
      let (row, found, step, (above, upper, _, code), left) =
        challenge-accepted now id entered t accepts in
      let (own, there, own_step, (lower, below, fresh, own_code), _) =
        challenge-accepted later id again (challenges calls first) accepts_again in
      let (same, found_same, secret, last, at_last, past) =
        challenges-HasStep id step row.secret_ciphertext calls first (
          subst (HasStep id row.secret_ciphertext step) (sym left)
            (record_step-HasStep id step t row found)) in
      let itself : own ≡ same = some_injective (sym there ∙ found_same) in
      let at_own : own.last_step ≡ some last =
        ap (λ (r : LocalTotp). r.last_step) itself ∙ at_last in
      let own_secret : own.secret_ciphertext ≡ row.secret_ciphertext =
        ap (λ (r : LocalTotp). r.secret_ciphertext) itself ∙ secret in
      (
        decrypt row.secret_ciphertext,
        step,
        own_step,
        ground (arith, past, rw at_own at fresh),
        code,
        subst (λ c. code_at (decrypt c) (own_step * interval) ≡ clean_code again) own_secret
            own_code,
        above,
        upper,
        lower,
        below,
      )
