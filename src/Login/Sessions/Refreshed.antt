-- ===== src/Login/Sessions/Refreshed.antt =====
-- server/bbz_core/auth/sessions.py: how long the tokens that a login is given are good for, whatever is
-- called after it.
use bbz_platform.Prelude.{
  ℕ, ◌+◌, String, Bool, true, false, not, ◌||◌, List, [], ◌∷◌, ◌++◌, some, ◌≡◌, refl, sym, ap, ◌∙◌,
  subst, inl, inr, leb, ltb, nat_eq, ◌==◌, eq_iff, any, filter, is_none, ok, err, >>=-eq-ok,
  ok_injective, Bool-cases, arith, if◌then◌else◌,
}
use bbz_platform.Login.Sessions.{
  Session, IssuedTokens, Settings, Login, has_id, has_hash, has_user, update_where, live,
  get_active_by_refresh, touch, mark_mfa_verified, revoke, revoke_by_refresh, revoke_all_for_user,
  create, start, refresh, session_expired, session_not_found, Step, started, refreshed, verified,
  revoked, revoked_by_refresh, revoked_all, Reach, here, later,
}
use bbz_platform.Login.Sessions.Revoked.{any-filter, fresh_other, refresh_found-ok}

abbrev unrevoked : Session → Bool
unrevoked row = is_none row.revoked_at

filter-live :
    (q : Session → Bool) (rows : List Session)
    → filter (live q) rows ≡ filter unrevoked (filter q rows)
filter-live q [] = refl
filter-live q (row ∷ rows) = elim (Bool-cases (q row)) [
  | inl hit ↦ rw hit (ap (λ rest. if unrevoked row then row ∷ rest else rest) (filter-live q rows))
  | inr miss ↦ rw miss (filter-live q rows)
]

any-live :
    (q : Session → Bool) (rows : List Session) → any (live q) rows ≡ any unrevoked (filter q rows)
any-live q [] = refl
any-live q (row ∷ rows) = elim (Bool-cases (q row)) [
  | inl hit ↦ rw hit (ap (λ rest. unrevoked row || rest) (any-live q rows))
  | inr miss ↦ rw miss (any-live q rows)
]

filter-update_where :
    (q p : Session → Bool) (change : Session → Session)
    → ((row : Session) → q (change row) ≡ q row)
    → (rows : List Session)
    → filter q (update_where p change rows) ≡ update_where p change (filter q rows)
filter-update_where q p change same [] = refl
filter-update_where q p change same (row ∷ rows) =
    let rest = filter-update_where q p change same rows in
    elim (Bool-cases (q row)) [
      | inl hit ↦ elim (Bool-cases (p row)) [
        | inl chosen ↦
            rw chosen (rw (same row) (rw hit (rw chosen (ap (λ t. change row ∷ t) rest))))
        | inr other ↦ rw other (rw hit (rw other (ap (λ t. row ∷ t) rest)))
      ]
      | inr miss ↦ elim (Bool-cases (p row)) [
        | inl chosen ↦ rw chosen (rw (same row) (rw miss rest))
        | inr other ↦ rw other (rw miss rest)
      ]
    ]

filter-append :
    (q : Session → Bool) (xs ys : List Session) → filter q (xs ++ ys) ≡ filter q xs ++ filter q ys
filter-append q [] ys = refl
filter-append q (x ∷ xs) ys = elim (Bool-cases (q x)) [
  | inl hit ↦ rw hit (ap (λ t. x ∷ t) (filter-append q xs ys))
  | inr miss ↦ rw miss (filter-append q xs ys)
]

filter-any :
    (q : Session → Bool) (rows : List Session) (row : Session)
    → filter q rows ≡ row ∷ []
    → any q rows ≡ true
filter-any q rows row one = elim (Bool-cases (any q rows)) [
  | inl there ↦ there
  | inr absent ↦ absurd (cc (sym (any-filter q rows absent) ∙ one))
]

-- One row has this key, and it is the one with this hash, of this user, until this time.
abbrev HasRow : ℕ → String → ℕ → ℕ → List Session → Type 0
HasRow id hash user expires rows =
    (r : Session) × (filter (has_hash hash) rows ≡ r ∷ [])
    × (filter (has_id id) rows ≡ r ∷ [])
    × (r.id ≡ id)
    × (r.user_id ≡ user)
    × (r.expires_at ≡ expires)

-- A change that a row is known by after as before.
abbrev IsKeeping : (Session → Session) → Type 0
IsKeeping change =
    (row : Session)
    → ((change row).id ≡ row.id)
      × ((change row).refresh_token_hash ≡ row.refresh_token_hash)
      × ((change row).user_id ≡ row.user_id)
      × ((change row).expires_at ≡ row.expires_at)

update_where-HasRow :
    (id : ℕ) (hash : String) (user expires : ℕ) (p : Session → Bool) (change : Session → Session)
    (rows : List Session)
    → IsKeeping change
    → HasRow id hash user expires rows
    → HasRow id hash user expires (update_where p change rows)
update_where-HasRow id hash user expires p change rows keeps
      (r, by_hash, by_id, key, owner, until) =
    let same_hash =
      filter-update_where (has_hash hash) p change (λ row. ap (λ h. h == hash) (keeps row).1) rows
      ∙ ap (update_where p change) by_hash in
    let same_id =
      filter-update_where (has_id id) p change (λ row. ap (λ k. nat_eq k id) (keeps row).0) rows
      ∙ ap (update_where p change) by_id in
    elim (Bool-cases (p r)) [
      | inl chosen ↦
          let (key_kept, _, owner_kept, until_kept) = keeps r in
          (
            change r,
            rw chosen at same_hash,
            rw chosen at same_id,
            key_kept ∙ key,
            owner_kept ∙ owner,
            until_kept ∙ until,
          )
      | inr other ↦ (r, rw other at same_hash, rw other at same_id, key, owner, until)
    ]

-- A row that is added with another key and another hash.
append-HasRow :
    (id : ℕ) (hash : String) (user expires : ℕ) (rows : List Session) (new : Session)
    → has_hash hash new ≡ false
    → has_id id new ≡ false
    → HasRow id hash user expires rows
    → HasRow id hash user expires (rows ++ (new ∷ []))
append-HasRow id hash user expires rows new other_hash other_id
      (r, by_hash, by_id, key, owner, until) =
    (
      r,
      filter-append (has_hash hash) rows (new ∷ []) ∙ rw by_hash (rw other_hash refl),
      filter-append (has_id id) rows (new ∷ []) ∙ rw by_id (rw other_id refl),
      key,
      owner,
      until,
    )

other_text :
    (hash new : String) (rows : List Session)
    → any (has_hash hash) rows ≡ true
    → any (has_hash new) rows ≡ false
    → (new == hash) ≡ false
other_text hash new rows present unused = elim (Bool-cases (new == hash)) [
  | inr other ↦ other
  | inl same ↦
      absurd
        (cc (present, subst (λ k. any (has_hash k) rows ≡ false) ((eq_iff new hash).0 same) unused))
]

create-HasRow :
    (id : ℕ) (hash : String) (user expires now new : ℕ) (new_hash : String) (until : ℕ)
    (login : Login) (rows : List Session) {after : List Session}
    → any (has_id new) rows ≡ false
    → create now new new_hash until login rows ≡ ok after
    → HasRow id hash user expires rows
    → HasRow id hash user expires after
unfolding create
create-HasRow id hash user expires now new new_hash until login rows fresh created held =
    elim (Bool-cases (any (has_hash new_hash) rows)) [
      | inl taken ↦ absurd (cc (rw taken at created))
      | inr unused ↦
          let (r, by_hash, by_id, _, _, _) = held in
          subst (HasRow id hash user expires) (ok_injective (rw unused at created)) (
            append-HasRow id hash user expires rows _
              (other_text hash new_hash rows (filter-any (has_hash hash) rows r by_hash) unused)
              (fresh_other id new rows (filter-any (has_id id) rows r by_id) fresh) held)
    ]

same_text : (s : String) → (s == s) ≡ true
same_text s = (eq_iff s s).1 refl

added-HasRow :
    (id : ℕ) (hash : String) (rows : List Session) (new : Session)
    → any (has_hash hash) rows ≡ false
    → any (has_id id) rows ≡ false
    → has_hash hash new ≡ true
    → has_id id new ≡ true
    → HasRow id hash new.user_id new.expires_at (rows ++ (new ∷ []))
added-HasRow id hash rows new unused fresh same_hash same_id = (
  new,
  filter-append (has_hash hash) rows (new ∷ [])
      ∙ rw (any-filter (has_hash hash) rows unused) (rw same_hash refl),
  filter-append (has_id id) rows (new ∷ [])
      ∙ rw (any-filter (has_id id) rows fresh) (rw same_id refl),
  ground (arith, same_id),
  refl,
  refl,
)

-- A session that was just made.
new-HasRow :
    (now id : ℕ) (hash : String) (expires : ℕ) (login : Login) (rows : List Session)
    {after : List Session}
    → any (has_id id) rows ≡ false
    → create now id hash expires login rows ≡ ok after
    → HasRow id hash login.user_id expires after
unfolding create
new-HasRow now id hash expires login rows fresh created =
    let itself : nat_eq id id ≡ true = ground arith in
    elim (Bool-cases (any (has_hash hash) rows)) [
      | inl taken ↦ absurd (cc (rw taken at created))
      | inr unused ↦
          subst (HasRow id hash login.user_id expires) (ok_injective (rw unused at created))
            (added-HasRow id hash rows _ unused fresh (same_text hash) itself)
    ]

not_later : (a b : ℕ) → leb b a ≡ not (ltb a b)
not_later a b = elim (Bool-cases (ltb a b)) [
  | inl before ↦ rw before (ground (arith, before))
  | inr after ↦ rw after (ground (arith, after))
]

module _ (hash_refresh_token : String → String) (issue_access_token : ℕ → ℕ → String) where
  step-HasRow :
      (id : ℕ) (hash : String) (user expires : ℕ) {rows after : List Session}
      → Step hash_refresh_token issue_access_token rows after
      → HasRow id hash user expires rows
      → HasRow id hash user expires after
  unfolding start refresh touch mark_mfa_verified revoke revoke_by_refresh revoke_all_for_user
  step-HasRow id hash user expires {rows} (started s now new token login issued fresh done) held =
      let (next, created, rest) = >>=-eq-ok (create now new _ _ login rows) _ done in
      subst (HasRow id hash user expires)
        (ap (λ (x : IssuedTokens × List Session). x.1) (ok_injective rest))
        (create-HasRow id hash user expires now new _ _ login rows fresh created held)
  step-HasRow id hash user expires {rows} (refreshed now token given done) held =
      let (found, _, rest) =
        >>=-eq-ok (get_active_by_refresh (hash_refresh_token token) rows) _ done in
      let (r, _, _, touched, _) =
        refresh_found-ok hash_refresh_token issue_access_token now rows found rest in
      subst (HasRow id hash user expires) (sym touched) (
        update_where-HasRow id hash user expires (has_id r.id)
          (λ row. record row { last_used_at = now }) rows (λ row. (refl, refl, refl, refl)) held)
  step-HasRow id hash user expires {rows} (verified now other) held =
      update_where-HasRow id hash user expires (has_id other)
        (λ row. record row { mfa_verified_at = some now }) rows (λ row. (refl, refl, refl, refl))
        held
  step-HasRow id hash user expires {rows} (revoked now other) held =
      update_where-HasRow id hash user expires (live (has_id other))
        (λ row. record row { revoked_at = some now }) rows (λ row. (refl, refl, refl, refl)) held
  step-HasRow id hash user expires {rows} (revoked_by_refresh now token) held =
      update_where-HasRow id hash user expires (live (has_hash (hash_refresh_token token)))
        (λ row. record row { revoked_at = some now }) rows (λ row. (refl, refl, refl, refl)) held
  step-HasRow id hash user expires {rows} (revoked_all now other) held =
      update_where-HasRow id hash user expires (live (has_user other))
        (λ row. record row { revoked_at = some now }) rows (λ row. (refl, refl, refl, refl)) held

  Reach-HasRow :
      (id : ℕ) (hash : String) (user expires : ℕ) {rows after : List Session}
      → Reach hash_refresh_token issue_access_token rows after
      → HasRow id hash user expires rows
      → HasRow id hash user expires after
  Reach-HasRow id hash user expires here held = held
  Reach-HasRow id hash user expires (later reach step) held =
      step-HasRow id hash user expires step (Reach-HasRow id hash user expires reach held)

  -- What a refresh token with one row answers.
  refresh-HasRow :
      (id user expires time : ℕ) (token : String) (t : List Session)
      → HasRow id (hash_refresh_token token) user expires t
      → refresh hash_refresh_token issue_access_token time token t ≡ (
          if any (live (has_id id)) t
          then if ltb time expires
            then ok ((issue_access_token user id, id), touch time id t)
            else err session_expired
          else err session_not_found)
  unfolding refresh get_active_by_refresh
  refresh-HasRow id user expires time token t (r, by_hash, by_id, key, owner, until) =
      let hash = hash_refresh_token token in
      let found : filter (live (has_hash hash)) t ≡ filter unrevoked (r ∷ []) =
        filter-live (has_hash hash) t ∙ ap (filter unrevoked) by_hash in
      let alive : any (live (has_id id)) t ≡ any unrevoked (r ∷ []) =
        any-live (has_id id) t ∙ ap (any unrevoked) by_id in
      rw found (
        rw alive (elim (Bool-cases (is_none r.revoked_at)) [
          | inr ended ↦ rw ended refl
          | inl alive_now ↦ rw alive_now (
              rw alive_now (
                rw until (
                  rw key (
                    rw owner (
                      rw (not_later time expires) (elim (Bool-cases (ltb time expires)) [
                        | inl before ↦ rw before refl
                        | inr over ↦ rw over refl
                      ]))))))
        ]))

  -- A session is started with a key that no session has, and any calls of any clients come after. If the
  -- session is not revoked by then, its refresh token, which stays the same for as long as it is used, is
  -- exchanged for an access token of that user and session at any time before the lifetime that is set has
  -- passed, and from that time on `refresh` raises that the session has expired. If it is revoked,
  -- `refresh` raises that there is no such session.
  pub refresh-start :
      (s : Settings) (now id time : ℕ) (token : String) (login : Login)
      (rows after t : List Session) (issued : IssuedTokens)
      → any (has_id id) rows ≡ false
      → start hash_refresh_token issue_access_token s now id token login rows ≡ ok (issued, after)
      → Reach hash_refresh_token issue_access_token after t
      → refresh hash_refresh_token issue_access_token time issued.refresh_token t ≡ (
          if any (live (has_id id)) t
          then if ltb time (now + s.refresh_token_ttl_seconds)
            then ok ((issue_access_token login.user_id id, id), touch time id t)
            else err session_expired
          else err session_not_found)
  unfolding start
  refresh-start s now id time token login rows after t issued fresh begun reach =
      let hash = hash_refresh_token token in
      let expires = now + s.refresh_token_ttl_seconds in
      let (next, created, rest) = >>=-eq-ok (create now id hash _ login rows) _ begun in
      let same : token ≡ issued.refresh_token =
        ap (λ (x : IssuedTokens × List Session). x.0.refresh_token) (ok_injective rest) in
      let kept : next ≡ after = ap (λ (x : IssuedTokens × List Session). x.1) (ok_injective rest) in
      let held = Reach-HasRow id hash login.user_id expires reach (
        subst (HasRow id hash login.user_id expires) kept
          (new-HasRow now id hash expires login rows fresh created)) in
      subst
        (λ k. refresh hash_refresh_token issue_access_token time k t ≡ (
          if any (live (has_id id)) t
          then if ltb time expires
            then ok ((issue_access_token login.user_id id, id), touch time id t)
            else err session_expired
          else err session_not_found))
        same (refresh-HasRow id login.user_id expires time token t held)
