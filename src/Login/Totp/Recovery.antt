-- ===== src/Login/Totp/Recovery.antt =====
-- server/bbz_core/infra/repositories/totp.py: a recovery code is used once.
use bbz_platform.Prelude.{
  ℕ, String, true, false, List, [], ◌∷◌, some, ◌≡◌, refl, sym, ap, subst, inl, inr, filter, ok,
  ok_injective, Bool-cases, arith,
}
use bbz_platform.Login.Totp.{
  RecoveryCode, Tables, is_open_code, mark_used, consume_found, consume_recovery,
}

-- A marked code is open no more.
filter-mark_used :
    (now id : ℕ) (hash : String) (rows : List RecoveryCode)
    → filter (is_open_code id hash) (mark_used now id hash rows) ≡ []
filter-mark_used now id hash [] = refl
filter-mark_used now id hash (row ∷ rows) = elim (Bool-cases (is_open_code id hash row)) [
  | inl matches ↦
      let used : is_open_code id hash (record row { used_at = some now }) ≡ false = ground arith in
      rw matches (rw used (filter-mark_used now id hash rows))
  | inr other ↦ rw other (rw other (filter-mark_used now id hash rows))
]

consumed :
    (now id : ℕ) (hash : String) (codes : List RecoveryCode) (t : Tables) {after : Tables}
    → consume_found now id hash codes t ≡ ok (true, after)
    → after ≡ record t { recovery = mark_used now id hash t.recovery }
consumed now id hash [] t result = absurd (cc result)
consumed now id hash (row ∷ []) t result = ap (λ p. p.1) (sym (ok_injective result))
consumed now id hash (row ∷ next ∷ codes) t result = absurd (cc result)

-- A recovery code that was consumed is refused from then on, and the tables stay as they are.
pub consume_recovery-consume_recovery :
    (now later id : ℕ) (hash : String) (t : Tables) {after : Tables}
    → consume_recovery now id hash t ≡ ok (true, after)
    → consume_recovery later id hash after ≡ ok (false, after)
consume_recovery-consume_recovery now later id hash t {after} result =
    let left = consumed now id hash (filter (is_open_code id hash) t.recovery) t result in
    subst (λ (s : Tables). consume_recovery later id hash s ≡ ok (false, s)) (sym left)
      (ap
        (λ codes.
          consume_found later id hash codes
            (record t { recovery = mark_used now id hash t.recovery }))
        (filter-mark_used now id hash t.recovery))
