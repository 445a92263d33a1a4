-- ===== src/Authorization/Service/Laws.antt =====
-- What the permission service answers, in terms of the grants in the store.
use bbz_platform.Prelude.{
  ℕ, String, Bool, true, ◌&&◌, ◌||◌, none, some, List, [], ◌∷◌, ◌++◌, Result, ok, err, ok_injective,
  any, filter, nat_eq, ◌≡◌, refl, sym, ap, ◌∙◌, ◌==◌, arith, if◌then◌else◌, Bool-cases,
  Option-cases, inl, inr,
}
use bbz_platform.Authorization.Keys.{PermissionKeyError, unknown_key, is_known, assert_known}
use bbz_platform.Authorization.Grants.{Grant, EffectivePermissions, grants_for}
use bbz_platform.Authorization.Grants.Grouped.{effective_permissions-grants_for}
use bbz_platform.Authorization.Resolve.{
  ScopeContext, Clock, scope_covers, condition_allows, grant_resolves,
}
use bbz_platform.Authorization.Service.{
  Store, Cache, cached, effective, authorize, authorize_scoped,
}

any-filter : (p q : Grant → Bool) (gs : List Grant) → any p (filter q gs) ≡ any (λ g. q g && p g) gs
any-filter p q [] = refl
any-filter p q (g ∷ gs) = ground (arith, any-filter p q gs)

any-append : (p : Grant → Bool) (gs hs : List Grant) → any p (gs ++ hs) ≡ (any p gs || any p hs)
any-append p [] hs = refl
any-append p (g ∷ gs) hs = ground (arith, any-append p gs hs)

any-weaken :
    (p q : Grant → Bool) (gs : List Grant)
    → ((g : Grant) → p g ≡ true → q g ≡ true)
    → any p gs ≡ true
    → any q gs ≡ true
any-weaken p q [] f h = cc h
any-weaken p q (g ∷ gs) f h = elim (Bool-cases (p g)) [
  | inl e ↦ rw (f g e) refl
  | inr e ↦ ground (arith, any-weaken p q gs f (rw e at h))
]

-- the answer of a result
abbrev pub answer : Result PermissionKeyError (Bool × Cache) → Result PermissionKeyError Bool
answer (ok r) = ok r.0
answer (err e) = err e

-- the later calls of a request, each with what the store holds at its time
abbrev pub later : List (Store × ℕ) → Cache → Cache
later [] cache = cache
later ((store, u) ∷ calls) cache = later calls (effective store u cache).1

nat_eq_refl : (n : ℕ) → nat_eq n n ≡ true
nat_eq_refl n = ground arith

cached-effective :
    (store : Store) (u : ℕ) (cache : Cache)
    → cached u (effective store u cache).1 ≡ some (effective store u cache).0
cached-effective store u cache = elim (Option-cases (cached u cache)) [
  | inl e ↦ rw e (rw (nat_eq_refl u) refl)
  | inr (p, e) ↦ rw e e
]

cached-keeps :
    (store : Store) (u v : ℕ) (p : EffectivePermissions) (cache : Cache)
    → cached u cache ≡ some p
    → cached u (effective store v cache).1 ≡ some p
cached-keeps store u v p cache h = elim (Option-cases (cached v cache)) [
  | inl e ↦ ground (arith, e, h)
  | inr (q, e) ↦ rw e h
]

cached-later :
    (calls : List (Store × ℕ)) (u : ℕ) (p : EffectivePermissions) (cache : Cache)
    → cached u cache ≡ some p
    → cached u (later calls cache) ≡ some p
cached-later [] u p cache h = h
cached-later ((store, v) ∷ calls) u p cache h =
    cached-later calls u p (effective store v cache).1 (cached-keeps store u v p cache h)

-- Within a request the permissions of a user stay those of the first call, whatever the store holds
-- later and whoever else is asked about between.
pub effective_stable :
    (store now_store : Store) (u : ℕ) (calls : List (Store × ℕ)) (cache : Cache)
    → (effective now_store u (later calls (effective store u cache).1)).0
      ≡ (effective store u cache).0
effective_stable store now_store u calls cache =
    rw
      (cached-later calls u (effective store u cache).0 (effective store u cache).1
        (cached-effective store u cache))
      refl

-- an action on nothing that has a place
abbrev nowhere : ScopeContext
nowhere = record {
  acting_user_id = 0;
  user_region_id = none;
  user_bbz_id = none;
  user_workplace_id = none;
  target_region_id = none;
  target_bbz_id = none;
  target_workplace_id = none;
  target_owner_id = none;
  target_assignee_id = none;
}

module _ (enabled : Bool) (now : Clock) where
  -- A user who was not asked about before is granted a known key exactly if one of the grants that
  -- the store has for the user is of that key and its condition allows it, and in a scope exactly if
  -- its scope covers the action too; a key that is not in the catalogue raises, in both calls.
  pub authorize_cold :
      (store : Store) (cache : Cache) (u : ℕ) (key : String) (ctx : ScopeContext)
      → cached u cache ≡ none
      → (answer (authorize enabled now store cache u key) ≡ (
          if is_known key
          then ok (any (λ g. g.permission_key == key && condition_allows enabled now g) (store u))
          else err (unknown_key key)))
        × (answer (authorize_scoped enabled now store cache u key ctx) ≡ (
            if is_known key
            then ok (
                any
                  (λ g.
                    g.permission_key == key
                    && (scope_covers g.scope ctx && condition_allows enabled now g))
                  (store u))
            else err (unknown_key key)))
  unfolding authorize authorize_scoped grant_resolves assert_known
  authorize_cold store cache u key ctx cold = elim (Bool-cases (is_known key)) [
    | inr e ↦ rw e (refl, refl)
    | inl e ↦
        let grouped = (effective_permissions-grants_for (store u) key).0 in
        rw (e, cold)
          (
            ap ok (
                ap (any (condition_allows enabled now)) grouped
                ∙ any-filter (condition_allows enabled now) (λ g. g.permission_key == key)
                    (store u)),
            ap ok (
                ap (any (λ g. scope_covers g.scope ctx && condition_allows enabled now g)) grouped
                ∙ any-filter (λ g. scope_covers g.scope ctx && condition_allows enabled now g)
                    (λ g. g.permission_key == key) (store u)),
          )
  ]

  -- A scope only narrows: what is granted in a scope is granted without one, whatever is cached.
  pub authorize_scoped_narrows :
      (store : Store) (cache : Cache) (u : ℕ) (key : String) (ctx : ScopeContext)
      → answer (authorize_scoped enabled now store cache u key ctx) ≡ ok true
      → answer (authorize enabled now store cache u key) ≡ ok true
  unfolding authorize authorize_scoped grant_resolves assert_known
  authorize_scoped_narrows store cache u key ctx h = elim (Bool-cases (is_known key)) [
    | inr e ↦ absurd (cc (rw e at h))
    | inl e ↦
        let granted = ok_injective (rw e at h) in
        rw e (
          ap ok (
            any-weaken (grant_resolves enabled now ctx) (condition_allows enabled now)
              (grants_for (effective store u cache).0 key) (λ g r. ground (arith, r)) granted))
  ]

  -- Grants are additive: what a user is granted stays granted when the store has more grants for the
  -- user, before or behind those of now.
  pub authorize_additive :
      (store larger : Store) (cache : Cache) (u : ℕ) (key : String) (before after : List Grant)
      → larger u ≡ before ++ (store u ++ after)
      → cached u cache ≡ none
      → answer (authorize enabled now store cache u key) ≡ ok true
      → answer (authorize enabled now larger cache u key) ≡ ok true
  authorize_additive store larger cache u key before after more cold h =
      let in_store = λ (s : Store). (authorize_cold s cache u key nowhere cold).0 in
      elim (Bool-cases (is_known key)) [
        | inr e ↦ absurd (cc (rw e at (sym (in_store store) ∙ h)))
        | inl e ↦
            let allows : Grant → Bool =
              λ g. g.permission_key == key && condition_allows enabled now g in
            let granted = ok_injective (rw e at (sym (in_store store) ∙ h)) in
            in_store larger
            ∙ rw (e, more)
                (ap ok (
                  ground (
                    arith,
                    any-append allows before (store u ++ after),
                    any-append allows (store u) after,
                    granted,
                  )))
      ]
