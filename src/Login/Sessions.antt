-- ===== src/Login/Sessions.antt =====
-- server/bbz_core/auth/sessions.py and its store, server/bbz_core/infra/repositories/sessions.py. The
-- clock, the key that the database gives a row, the new refresh token, its hash and the signed access
-- token are parameters; the tables of users and clients are left out.
pub mod Revoked
pub mod Refreshed
mod Tests
use bbz_platform.Prelude.{
  ℕ, ◌+◌, String, Bool, true, false, not, ◌&&◌, List, [], ◌∷◌, ◌++◌, map, Option, none, some, ◌≡◌,
  leb, ltb, nat_eq, ◌==◌, any, filter, length, is_none, Result, ok, err, ◌>>=◌, if◌then◌else◌,
}

-- what a call raises: the errors of the service, and those of the database
pub data SessionError : Type 0 where
  session_not_found : SessionError
  session_expired : SessionError
  integrity_error : SessionError
  multiple_results : SessionError

pub record Session : Type 0 where
  pub id : ℕ
  pub user_id : ℕ
  pub refresh_token_hash : String
  pub last_used_at : ℕ
  pub expires_at : ℕ
  pub revoked_at : Option ℕ
  pub client_id : Option String
  pub workplace_id : Option String
  pub user_agent : Option String
  pub mfa_verified_at : Option ℕ

pub record SessionRecord : Type 0 where
  pub id : ℕ
  pub user_id : ℕ
  pub expires_at : ℕ
  pub revoked_at : Option ℕ
  pub mfa_verified_at : Option ℕ

pub record IssuedTokens : Type 0 where
  pub access_token : String
  pub refresh_token : String
  pub session_id : ℕ
  pub access_ttl_seconds : ℕ
  pub refresh_ttl_seconds : ℕ

pub record Settings : Type 0 where
  pub access_token_ttl_seconds : ℕ
  pub refresh_token_ttl_seconds : ℕ

-- what a request says of the login
pub record Login : Type 0 where
  pub user_id : ℕ
  pub client_id : Option String
  pub workplace_id : Option String
  pub user_agent : Option String
  pub mfa_verified : Bool

abbrev pub has_id : ℕ → Session → Bool
has_id id row = nat_eq row.id id

abbrev pub has_hash : String → Session → Bool
has_hash hash row = row.refresh_token_hash == hash

abbrev pub has_user : ℕ → Session → Bool
has_user user row = nat_eq row.user_id user

-- `update(Session).where(p).values(…)`
abbrev pub update_where : (Session → Bool) → (Session → Session) → List Session → List Session
update_where p change rows = map (λ row. if p row then change row else row) rows

-- `where(p, Session.revoked_at.is_(None))`
abbrev pub live : (Session → Bool) → Session → Bool
live p row = p row && is_none row.revoked_at

-- `_record`
abbrev pub record_of : Session → SessionRecord
record_of row = record {
  id = row.id;
  user_id = row.user_id;
  expires_at = row.expires_at;
  revoked_at = row.revoked_at;
  mfa_verified_at = row.mfa_verified_at;
}

-- `scalar_one_or_none()`, then `_record`
abbrev pub one_or_none : List Session → Result SessionError (Option SessionRecord)
one_or_none [] = ok none
one_or_none (row ∷ []) = ok (some (record_of row))
one_or_none (row ∷ _ ∷ _) = err multiple_results

unfoldable pub get_active_by_refresh :
    String → List Session → Result SessionError (Option SessionRecord)
get_active_by_refresh hash rows = one_or_none (filter (live (has_hash hash)) rows)

unfoldable pub get_active : ℕ → List Session → Result SessionError (Option SessionRecord)
get_active id rows = one_or_none (filter (live (has_id id)) rows)

unfoldable pub touch : ℕ → ℕ → List Session → List Session
touch now id rows = update_where (has_id id) (λ row. record row { last_used_at = now }) rows

unfoldable pub mark_mfa_verified : ℕ → ℕ → List Session → List Session
mark_mfa_verified now id rows =
    update_where (has_id id) (λ row. record row { mfa_verified_at = some now }) rows

abbrev pub revoke_where : ℕ → (Session → Bool) → List Session → List Session
revoke_where now p rows = update_where (live p) (λ row. record row { revoked_at = some now }) rows

unfoldable pub revoke : ℕ → ℕ → List Session → List Session
revoke now id rows = revoke_where now (has_id id) rows

-- the count of the rows revoked, and the table
unfoldable pub revoke_all_for_user : ℕ → ℕ → List Session → ℕ × List Session
revoke_all_for_user now user rows =
    (length (filter (live (has_user user)) rows), revoke_where now (has_user user) rows)

-- `create`: the hash is unique
unfoldable pub create :
    ℕ → ℕ → String → ℕ → Login → List Session → Result SessionError (List Session)
create now id hash expires_at login rows =
    if any (has_hash hash) rows
    then err integrity_error
    else ok (
        rows
        ++ (record {
          id = id;
          user_id = login.user_id;
          refresh_token_hash = hash;
          last_used_at = now;
          expires_at = expires_at;
          revoked_at = none;
          client_id = login.client_id;
          workplace_id = login.workplace_id;
          user_agent = login.user_agent;
          mfa_verified_at = if login.mfa_verified then some now else none;
        }
            ∷ []))

module _ (hash_refresh_token : String → String) (issue_access_token : ℕ → ℕ → String) where
  unfoldable pub start :
      Settings
      → ℕ
      → ℕ
      → String
      → Login
      → List Session
      → Result SessionError (IssuedTokens × List Session)
  start s now id token login rows =
      create now id (hash_refresh_token token) (now + s.refresh_token_ttl_seconds) login rows
      >>= λ after. ok (
        record {
          access_token = issue_access_token login.user_id id;
          refresh_token = token;
          session_id = id;
          access_ttl_seconds = s.access_token_ttl_seconds;
          refresh_ttl_seconds = s.refresh_token_ttl_seconds;
        },
        after,
      )

  abbrev pub refresh_found :
      ℕ → List Session → Option SessionRecord → Result SessionError ((String × ℕ) × List Session)
  refresh_found now rows none = err session_not_found
  refresh_found now rows (some found) =
      if not (is_none found.revoked_at)
      then err session_not_found
      else if leb found.expires_at now
      then err session_expired
      else ok ((issue_access_token found.user_id found.id, found.id), touch now found.id rows)

  unfoldable pub refresh :
      ℕ → String → List Session → Result SessionError ((String × ℕ) × List Session)
  refresh now token rows =
      get_active_by_refresh (hash_refresh_token token) rows >>= refresh_found now rows

  abbrev pub is_active_found : ℕ → Option SessionRecord → Bool
  is_active_found now none = false
  is_active_found now (some found) = ltb now found.expires_at

  unfoldable pub is_active : ℕ → ℕ → List Session → Result SessionError Bool
  is_active now id rows = get_active id rows >>= (λ found. ok (is_active_found now found))

  unfoldable pub revoke_by_refresh : ℕ → String → List Session → List Session
  revoke_by_refresh now token rows = revoke_where now (has_hash (hash_refresh_token token)) rows

  -- One call of the service by any client, at any time; the key of a new row is fresh.
  pub data Step : List Session → List Session → Type 0 where
    started :
        (s : Settings) (now id : ℕ) (token : String) (login : Login) (issued : IssuedTokens)
        {rows after : List Session}
        → any (has_id id) rows ≡ false
        → start s now id token login rows ≡ ok (issued, after)
        → Step rows after
    refreshed :
        (now : ℕ) (token : String) (given : String × ℕ) {rows after : List Session}
        → refresh now token rows ≡ ok (given, after)
        → Step rows after
    verified : (now id : ℕ) {rows : List Session} → Step rows (mark_mfa_verified now id rows)
    revoked : (now id : ℕ) {rows : List Session} → Step rows (revoke now id rows)
    revoked_by_refresh :
        (now : ℕ) (token : String) {rows : List Session}
        → Step rows (revoke_by_refresh now token rows)
    revoked_all :
        (now user : ℕ) {rows : List Session} → Step rows (revoke_all_for_user now user rows).1

  pub data Reach (rows : List Session) : List Session → Type 0 where
    here : Reach rows rows
    later : {next after : List Session} → Reach rows next → Step next after → Reach rows after
