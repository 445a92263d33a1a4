-- ===== src/Login/Sessions/Tests.antt =====
-- Two logins of one user, a logout, and the theorems on sessions there.
use Prim.Native.String
use bbz_platform.Prelude.{
  ℕ, String, true, false, List, [], ◌∷◌, some, none, ◌≡◌, refl, inr, ok, err,
}
use bbz_platform.Login.Sessions.{
  Session, IssuedTokens, Settings, Login, create, start, refresh, touch, session_expired,
  session_not_found, get_active_by_refresh, is_active, revoke_all_for_user, revoke_by_refresh,
  mark_mfa_verified, verified, here, later,
}
use bbz_platform.Login.Sessions.Revoked.{revoked-refused}
use bbz_platform.Login.Sessions.Refreshed.{refresh-start}

abbrev hash : String → String
hash token = String.◌++◌ "hash of " token

abbrev access : ℕ → ℕ → String
access user id = "signed"

abbrev settings : Settings
settings = record { access_token_ttl_seconds = 900; refresh_token_ttl_seconds = 3600 }

abbrev login : Login
login = record {
  user_id = 7;
  client_id = none;
  workplace_id = some "desk";
  user_agent = none;
  mfa_verified = true;
}

abbrev row : ℕ → String → Session
row id token = record {
  id = id;
  user_id = 7;
  refresh_token_hash = hash token;
  last_used_at = 100;
  expires_at = 3700;
  revoked_at = none;
  client_id = none;
  workplace_id = some "desk";
  user_agent = none;
  mfa_verified_at = some 100;
}

abbrev issued : IssuedTokens
issued = record {
  access_token = "signed";
  refresh_token = "b";
  session_id = 2;
  access_ttl_seconds = 900;
  refresh_ttl_seconds = 3600;
}

started_second :
    start hash access settings 100 2 "b" login (row 1 "a" ∷ [])
    ≡ ok (issued, row 1 "a" ∷ row 2 "b" ∷ [])
unfolding start create
started_second = refl

refresh-start_example :
    refresh hash access 3700 "b" (mark_mfa_verified 250 2 (row 1 "a" ∷ row 2 "b" ∷ []))
    ≡ err session_expired
unfolding mark_mfa_verified
refresh-start_example =
    refresh-start hash access settings 100 2 3700 "b" login (row 1 "a" ∷ []) _ _ issued refl
      started_second (later here (verified 250 2))

-- a second before it expires, it is exchanged
exchanged :
    refresh hash access 3699 "b" (row 1 "a" ∷ row 2 "b" ∷ [])
    ≡ ok (("signed", 2), row 1 "a" ∷ record (row 2 "b") { last_used_at = 3699 } ∷ [])
unfolding refresh get_active_by_refresh touch
exchanged = refl

abbrev both : List Session
both = row 1 "a" ∷ row 2 "b" ∷ []

logged_out :
    refresh hash access 300 "a" (revoke_by_refresh hash access 200 "a" both) ≡ err session_not_found
unfolding refresh get_active_by_refresh revoke_by_refresh
logged_out = refl

all_out : (revoke_all_for_user 200 7 both).0 ≡ 2
unfolding revoke_all_for_user
all_out = refl

revoked-refused_example :
    ((time : ℕ)
      → is_active hash access time 2 (mark_mfa_verified 250 2 (revoke_all_for_user 200 7 both).1)
        ≡ ok false)
    × ((time : ℕ) (token given : String) (next : List Session)
        → ¬ (
            refresh hash access time token
              (mark_mfa_verified 250 2 (revoke_all_for_user 200 7 both).1)
            ≡ ok ((given, 2), next)))
revoked-refused_example =
    revoked-refused hash access 200 2 7 both _ refl refl (inr (later here (verified 250 2)))
