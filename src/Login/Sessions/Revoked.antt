-- ===== src/Login/Sessions/Revoked.antt =====
-- server/bbz_core/auth/sessions.py: a revoked session stays revoked, whatever is called after.
use bbz_platform.Prelude.{
  ℕ, String, Bool, true, false, not, ◌||◌, List, [], ◌∷◌, ◌++◌, Option, none, some, ◌≡◌, refl, sym,
  ap, ◌∙◌, subst, ◌⊎◌, inl, inr, leb, nat_eq, any, all, filter, is_none, ok, >>=-eq-ok,
  ok_injective, some_injective, Bool-cases, arith,
}
use bbz_platform.Login.Sessions.{
  Session, SessionRecord, IssuedTokens, Login, has_id, has_hash, has_user, update_where, live,
  one_or_none, get_active_by_refresh, get_active, touch, mark_mfa_verified, revoke_where, revoke,
  revoke_all_for_user, create, start, refresh_found, refresh, is_active, revoke_by_refresh, Step,
  started, refreshed, verified, revoked, revoked_by_refresh, revoked_all, Reach, here, later,
}

-- A change that makes no row pass a test makes no table pass it.
any-update_where :
    (q p : Session → Bool) (change : Session → Session)
    → ((row : Session) → q row ≡ false → q (change row) ≡ false)
    → (rows : List Session) → any q rows ≡ false
    → any q (update_where p change rows) ≡ false
any-update_where q p change keeps [] absent = refl
any-update_where q p change keeps (row ∷ rows) absent =
    let first : q row ≡ false = ground (arith, absent) in
    let rest = any-update_where q p change keeps rows (ground (arith, absent)) in
    elim (Bool-cases (p row)) [
      | inl changed ↦ rw changed (ground (arith, keeps row first, rest))
      | inr kept ↦ rw kept (ground (arith, first, rest))
    ]

any-kept :
    (q p : Session → Bool) (change : Session → Session)
    → ((row : Session) → q (change row) ≡ q row)
    → (rows : List Session) → any q (update_where p change rows) ≡ any q rows
any-kept q p change same [] = refl
any-kept q p change same (row ∷ rows) = elim (Bool-cases (p row)) [
  | inl changed ↦
      rw changed (rw (same row) (ap (λ rest. q row || rest) (any-kept q p change same rows)))
  | inr kept ↦ rw kept (ap (λ rest. q row || rest) (any-kept q p change same rows))
]

any-append : (q : Session → Bool) (xs ys : List Session) → any q (xs ++ ys) ≡ (any q xs || any q ys)
any-append q [] ys = refl
any-append q (x ∷ xs) ys = ground (arith, any-append q xs ys)

pub any-filter :
    (q : Session → Bool) (rows : List Session) → any q rows ≡ false → filter q rows ≡ []
any-filter q [] absent = refl
any-filter q (row ∷ rows) absent =
    let first : q row ≡ false = ground (arith, absent) in
    rw first (any-filter q rows (ground (arith, absent)))

-- The session has a row, and no row that is not revoked.
abbrev pub IsGone : ℕ → List Session → Type 0
IsGone id rows = (any (has_id id) rows ≡ true) × (any (live (has_id id)) rows ≡ false)

revoke_where-IsGone :
    (now id : ℕ) (p : Session → Bool) (rows : List Session)
    → IsGone id rows
    → IsGone id (revoke_where now p rows)
revoke_where-IsGone now id p rows (present, ended) = (
  any-kept (has_id id) (live p) (λ row. record row { revoked_at = some now }) (λ row. refl) rows
      ∙ present,
  any-update_where (live (has_id id)) (live p) (λ row. record row { revoked_at = some now })
      (λ row _. ground (arith)) rows ended,
)

touched-IsGone :
    (now id other : ℕ) (rows : List Session) → IsGone id rows → IsGone id (touch now other rows)
unfolding touch
touched-IsGone now id other rows (present, ended) = (
  any-kept (has_id id) (has_id other) (λ row. record row { last_used_at = now }) (λ row. refl) rows
      ∙ present,
  any-kept (live (has_id id)) (has_id other) (λ row. record row { last_used_at = now })
        (λ row. refl) rows
      ∙ ended,
)

verified-IsGone :
    (now id other : ℕ) (rows : List Session)
    → IsGone id rows
    → IsGone id (mark_mfa_verified now other rows)
unfolding mark_mfa_verified
verified-IsGone now id other rows (present, ended) = (
  any-kept (has_id id) (has_id other) (λ row. record row { mfa_verified_at = some now })
        (λ row. refl) rows
      ∙ present,
  any-kept (live (has_id id)) (has_id other) (λ row. record row { mfa_verified_at = some now })
        (λ row. refl) rows
      ∙ ended,
)

-- A row with a key that no row had is another session.
pub fresh_other :
    (id new : ℕ) (rows : List Session)
    → any (has_id id) rows ≡ true
    → any (has_id new) rows ≡ false
    → nat_eq new id ≡ false
fresh_other id new rows present fresh = elim (Bool-cases (nat_eq new id)) [
  | inr other ↦ other
  | inl same ↦
      let equal : new ≡ id = ground (arith, same) in
      absurd (cc (present, subst (λ (k : ℕ). any (has_id k) rows ≡ false) equal fresh))
]

create-IsGone :
    (now id new : ℕ) (hash : String) (expires_at : ℕ) (login : Login) (rows : List Session)
    {after : List Session}
    → any (has_id new) rows ≡ false
    → create now new hash expires_at login rows ≡ ok after
    → IsGone id rows
    → IsGone id after
unfolding create
create-IsGone now id new hash expires_at login rows fresh created (present, ended) =
    elim (Bool-cases (any (has_hash hash) rows)) [
      | inl taken ↦ absurd (cc (rw taken at created))
      | inr free ↦
          let other = fresh_other id new rows present fresh in
          subst (IsGone id) (ok_injective (rw free at created)) (
            any-append (has_id id) rows _ ∙ rw present refl,
            any-append (live (has_id id)) rows _ ∙ rw ended (rw other refl),
          )
    ]

first-live :
    (p : Session → Bool) (row : Session) (rows others : List Session) (found : SessionRecord)
    → live p row ≡ true
    → one_or_none (row ∷ others) ≡ ok (some found)
    → any (live (has_id found.id)) (row ∷ rows) ≡ true
first-live p row rows [] found passed one =
    let same : row.id ≡ found.id =
      ap (λ (r : SessionRecord). r.id) (some_injective (ok_injective one)) in
    subst (λ (k : ℕ). any (live (has_id k)) (row ∷ rows) ≡ true) same (ground (arith, passed))
first-live p row rows (_ ∷ _) found passed one = absurd (cc one)

-- The one row that a query on live rows finds has a live row for its own key.
found-live :
    (p : Session → Bool) (rows : List Session) (found : SessionRecord)
    → one_or_none (filter (live p) rows) ≡ ok (some found)
    → any (live (has_id found.id)) rows ≡ true
found-live p [] found one = absurd (cc (ok_injective one))
found-live p (row ∷ rows) found one = elim (Bool-cases (live p row)) [
  | inr other ↦ let rest = found-live p rows found (rw other at one) in ground (arith, rest)
  | inl passed ↦ first-live p row rows (filter (live p) rows) found passed (rw passed at one)
]

-- Revoking rows ends a session all of whose rows are among them.
revoke_where-ends :
    (now id : ℕ) (p : Session → Bool) (rows : List Session)
    → all (λ row. not (has_id id row) || p row) rows ≡ true
    → any (live (has_id id)) (revoke_where now p rows) ≡ false
revoke_where-ends now id p [] owned = refl
revoke_where-ends now id p (row ∷ rows) owned =
    let rest = revoke_where-ends now id p rows (ground (arith, owned)) in
    elim (Bool-cases (live p row)) [
      | inl ended ↦ rw ended (ground (arith, rest))
      | inr kept ↦ rw kept (ground (arith, owned, kept, rest))
    ]

revoke_where-makes-IsGone :
    (now id : ℕ) (p : Session → Bool) (rows : List Session)
    → any (has_id id) rows ≡ true
    → all (λ row. not (has_id id row) || p row) rows ≡ true
    → IsGone id (revoke_where now p rows)
revoke_where-makes-IsGone now id p rows present owned = (
  any-kept (has_id id) (live p) (λ row. record row { revoked_at = some now }) (λ row. refl) rows
      ∙ present,
  revoke_where-ends now id p rows owned,
)

own_rows :
    (id : ℕ) (rows : List Session) → all (λ row. not (has_id id row) || has_id id row) rows ≡ true
own_rows id [] = refl
own_rows id (row ∷ rows) = ground (arith, own_rows id rows)

module _ (hash_refresh_token : String → String) (issue_access_token : ℕ → ℕ → String) where
  -- What `refresh` returns comes of a record that has not expired.
  pub refresh_found-ok :
      (now : ℕ) (rows : List Session) (found : Option SessionRecord) {given : String × ℕ}
      {after : List Session}
      → refresh_found hash_refresh_token issue_access_token now rows found ≡ ok (given, after)
      → (r : SessionRecord) × (found ≡ some r)
        × (given.1 ≡ r.id)
        × (after ≡ touch now r.id rows)
        × (leb r.expires_at now ≡ false)
  refresh_found-ok now rows none returned = absurd (cc returned)
  refresh_found-ok now rows (some r) {given} {after} returned =
      elim (Bool-cases (is_none r.revoked_at)) [
        | inr ended ↦ absurd (cc (rw ended at returned))
        | inl unrevoked ↦ elim (Bool-cases (leb r.expires_at now)) [
          | inl expired ↦ absurd (cc (rw expired at (rw unrevoked at returned)))
          | inr valid ↦
              let both = ok_injective (rw valid at (rw unrevoked at returned)) in
              (
                r,
                refl,
                sym (ap (λ (x : (String × ℕ) × List Session). x.0.1) both),
                sym (ap (λ (x : (String × ℕ) × List Session). x.1) both),
                valid,
              )
        ]
      ]

  -- A session that is gone is never the one that is refreshed.
  refresh-not_gone :
      (now id : ℕ) (token access : String) (rows : List Session) {after : List Session}
      → IsGone id rows
      → ¬ (refresh hash_refresh_token issue_access_token now token rows ≡ ok ((access, id), after))
  unfolding refresh get_active_by_refresh
  refresh-not_gone now id token access rows (_, ended) returned =
      let hash = hash_refresh_token token in
      let (found, selected, rest) = >>=-eq-ok (get_active_by_refresh hash rows) _ returned in
      let (r, is_some, same, _, _) = refresh_found-ok now rows found rest in
      let alive = found-live (has_hash hash) rows r (selected ∙ ap (λ x. ok x) is_some) in
      cc (ended, subst (λ (k : ℕ). any (live (has_id k)) rows ≡ true) (sym same) alive)

  is_active-gone :
      (now id : ℕ) (rows : List Session)
      → IsGone id rows
      → is_active hash_refresh_token issue_access_token now id rows ≡ ok false
  unfolding is_active get_active
  is_active-gone now id rows (_, ended) = rw (any-filter (live (has_id id)) rows ended) refl

  step-IsGone :
      (id : ℕ) {rows after : List Session}
      → Step hash_refresh_token issue_access_token rows after
      → IsGone id rows
      → IsGone id after
  unfolding start refresh revoke revoke_by_refresh revoke_all_for_user
  step-IsGone id {rows} (started s now new token login issued fresh done) gone =
      let (next, created, rest) = >>=-eq-ok (create now new _ _ login rows) _ done in
      subst (IsGone id) (ap (λ (x : IssuedTokens × List Session). x.1) (ok_injective rest))
        (create-IsGone now id new _ _ login rows fresh created gone)
  step-IsGone id {rows} (refreshed now token given done) gone =
      let (found, _, rest) =
        >>=-eq-ok (get_active_by_refresh (hash_refresh_token token) rows) _ done in
      let (r, _, _, touched, _) = refresh_found-ok now rows found rest in
      subst (IsGone id) (sym touched) (touched-IsGone now id r.id rows gone)
  step-IsGone id {rows} (verified now other) gone = verified-IsGone now id other rows gone
  step-IsGone id {rows} (revoked now other) gone =
      revoke_where-IsGone now id (has_id other) rows gone
  step-IsGone id {rows} (revoked_by_refresh now token) gone =
      revoke_where-IsGone now id (has_hash (hash_refresh_token token)) rows gone
  step-IsGone id {rows} (revoked_all now user) gone =
      revoke_where-IsGone now id (has_user user) rows gone

  Reach-IsGone :
      (id : ℕ) {rows after : List Session}
      → Reach hash_refresh_token issue_access_token rows after
      → IsGone id rows
      → IsGone id after
  Reach-IsGone id here gone = gone
  Reach-IsGone id (later reach step) gone = step-IsGone id step (Reach-IsGone id reach gone)

  -- A session that is in the table, and of whom all rows are the user's, is revoked on its own or with all
  -- of that user. Whatever calls of any client come after, it is not active at any time, and no refresh
  -- token is exchanged for an access token to it.
  pub revoked-refused :
      (now id user : ℕ) (rows after : List Session)
      → any (has_id id) rows ≡ true
      → all (λ row. not (has_id id row) || has_user user row) rows ≡ true
      → Reach hash_refresh_token issue_access_token (revoke now id rows) after
        ⊎ Reach hash_refresh_token issue_access_token (revoke_all_for_user now user rows).1 after
      → ((time : ℕ) → is_active hash_refresh_token issue_access_token time id after ≡ ok false)
        × ((time : ℕ) (token access : String) (next : List Session)
            → ¬ (
                refresh hash_refresh_token issue_access_token time token after
                ≡ ok ((access, id), next)))
  unfolding revoke revoke_all_for_user
  revoked-refused now id user rows after present owned reach =
      let gone : IsGone id after = elim reach [
        | inl alone ↦
            Reach-IsGone id alone
              (revoke_where-makes-IsGone now id (has_id id) rows present (own_rows id rows))
        | inr with_all ↦
            Reach-IsGone id with_all
              (revoke_where-makes-IsGone now id (has_user user) rows present owned)
      ] in
      (
        (λ time. is_active-gone time id after gone),
        (λ time token access next. refresh-not_gone time id token access after gone),
      )
