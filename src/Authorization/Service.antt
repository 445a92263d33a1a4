-- ===== src/Authorization/Service.antt =====
-- server/bbz_core/authorization/service.py: `PermissionService`, whose cache lives for one request.
-- The store of grants stands for the database: what it answers at the time of a call is an argument.
pub mod Laws
mod Tests
use bbz_platform.Prelude.{
  ℕ, String, Bool, Option, none, some, List, [], ◌∷◌, ◌++◌, Result, ok, err, any, nat_eq, ◌>>=◌,
  ◌>>◌, if◌then◌else◌,
}
use bbz_platform.Authorization.Keys.{PermissionKeyError, assert_known}
use bbz_platform.Authorization.Grants.{
  Grant, EffectivePermissions, effective_permissions, grants_for,
}
use bbz_platform.Authorization.Resolve.{ScopeContext, Clock, condition_allows, grant_resolves}

abbrev pub Store : Type 0
Store = ℕ → List Grant

abbrev pub Cache : Type 0
Cache = List (ℕ × EffectivePermissions)

abbrev pub cached : ℕ → Cache → Option EffectivePermissions
cached u [] = none
cached u ((v, p) ∷ cache) = let rest = cached u cache in if nat_eq v u then some p else rest

abbrev pub effective_of :
    Option EffectivePermissions → Store → ℕ → Cache → EffectivePermissions × Cache
effective_of (some p) store u cache = (p, cache)
effective_of none store u cache = let p = effective_permissions (store u) in (p, (u, p) ∷ cache)

abbrev pub effective : Store → ℕ → Cache → EffectivePermissions × Cache
effective store u cache = effective_of (cached u cache) store u cache

module _ (enabled : Bool) (now : Clock) where
  -- `assert_known` raises before the cache is looked at
  unfoldable pub authorize : Store → Cache → ℕ → String → Result PermissionKeyError (Bool × Cache)
  unfolding condition_allows assert_known
  authorize store cache u key =
      assert_known key
      >> (let (p, next) = effective store u cache in
          ok (any (condition_allows enabled now) (grants_for p key), next))

  unfoldable pub authorize_scoped :
      Store → Cache → ℕ → String → ScopeContext → Result PermissionKeyError (Bool × Cache)
  unfolding grant_resolves assert_known
  authorize_scoped store cache u key ctx =
      assert_known key
      >> (let (p, next) = effective store u cache in
          ok (any (grant_resolves enabled now ctx) (grants_for p key), next))
