-- ===== src/Authorization/Grants.antt =====
-- server/bbz_core/authorization/model.py: grants, and the grants of a user by their keys.
pub mod Grouped
use bbz_platform.Prelude.{
  String, Bool, Option, none, some, List, [], ◌∷◌, ◌++◌, map, Dict, lookup, keys, contains, ◌==◌,
  if◌then◌else◌,
}
use bbz_platform.RuleDsl.Value.{Fields}

pub record Grant : Type 0 where
  pub permission_key : String
  pub scope : String
  pub condition : Option Fields

abbrev pub EffectivePermissions : Type 0
EffectivePermissions = Dict (List Grant)

-- `acc.setdefault(g.permission_key, []).append(g)`
abbrev pub add_grant : EffectivePermissions → Grant → EffectivePermissions
add_grant [] g = (g.permission_key, g ∷ []) ∷ []
add_grant ((k, gs) ∷ acc) g =
    let rest = add_grant acc g in
    if k == g.permission_key then (k, gs ++ g ∷ []) ∷ acc else (k, gs) ∷ rest

abbrev pub add_grants : EffectivePermissions → List Grant → EffectivePermissions
add_grants acc [] = acc
add_grants acc (g ∷ gs) = add_grants (add_grant acc g) gs

abbrev pub effective_permissions : List Grant → EffectivePermissions
effective_permissions gs = add_grants [] gs

abbrev pub has : EffectivePermissions → String → Bool
has p key = contains key (keys p)

abbrev pub list_of : Option (List Grant) → List Grant
list_of none = []
list_of (some gs) = gs

abbrev pub grants_for : EffectivePermissions → String → List Grant
grants_for p key = list_of (lookup key p)

-- the scopes as a list, where the code has a set
abbrev pub scopes_for : EffectivePermissions → String → List String
scopes_for p key = map (λ g. g.scope) (grants_for p key)
