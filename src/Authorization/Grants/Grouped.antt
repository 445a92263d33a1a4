-- ===== src/Authorization/Grants/Grouped.antt =====
-- The grouping of grants by their keys loses nothing and adds nothing.
use bbz_platform.Prelude.{
  String, Bool, ◌||◌, List, [], ◌∷◌, ◌++◌, ◌≡◌, refl, sym, ap, ◌∙◌, any, filter, ◌==◌, eq_iff,
  arith, Bool-cases, inl, inr,
}
use bbz_platform.Authorization.Grants.{
  Grant, EffectivePermissions, add_grant, add_grants, effective_permissions, has, grants_for,
}

append_assoc : (xs ys zs : List Grant) → (xs ++ ys) ++ zs ≡ xs ++ (ys ++ zs)
append_assoc [] ys zs = refl
append_assoc (x ∷ xs) ys zs = ap (λ ws. x ∷ ws) (append_assoc xs ys zs)

append_nil : (xs : List Grant) → xs ++ [] ≡ xs
append_nil [] = refl
append_nil (x ∷ xs) = ap (λ ws. x ∷ ws) (append_nil xs)

abbrev is_for : String → Grant → Bool
is_for key g = g.permission_key == key

grants_for-add :
    (acc : EffectivePermissions) (g : Grant) (key : String)
    → grants_for (add_grant acc g) key ≡ grants_for acc key ++ filter (is_for key) (g ∷ [])
grants_for-add [] g key = ground arith
grants_for-add ((k, gs) ∷ acc) g key = ground (
  arith,
  grants_for-add acc g key,
  append_nil gs,
  append_nil (grants_for acc key),
  eq_iff k g.permission_key,
  eq_iff k key,
  eq_iff g.permission_key key,
)

filter_cons :
    (key : String) (g : Grant) (gs : List Grant)
    → filter (is_for key) (g ∷ []) ++ filter (is_for key) gs ≡ filter (is_for key) (g ∷ gs)
filter_cons key g gs = elim (Bool-cases (is_for key g)) [ inl e ↦ rw e refl | inr e ↦ rw e refl ]

grants_for-adds :
    (acc : EffectivePermissions) (gs : List Grant) (key : String)
    → grants_for (add_grants acc gs) key ≡ grants_for acc key ++ filter (is_for key) gs
grants_for-adds acc [] key = sym (append_nil (grants_for acc key))
grants_for-adds acc (g ∷ gs) key =
    grants_for-adds (add_grant acc g) gs key
    ∙ (ap (λ xs. xs ++ filter (is_for key) gs) (grants_for-add acc g key)
        ∙ (append_assoc (grants_for acc key) (filter (is_for key) (g ∷ [])) (filter (is_for key) gs)
            ∙ ap (λ xs. grants_for acc key ++ xs) (filter_cons key g gs)))

has-add :
    (acc : EffectivePermissions) (g : Grant) (key : String)
    → has (add_grant acc g) key ≡ (has acc key || is_for key g)
has-add [] g key = ground arith
has-add ((k, gs) ∷ acc) g key =
    ground (
      arith,
      has-add acc g key,
      eq_iff k g.permission_key,
      eq_iff k key,
      eq_iff g.permission_key key,
    )

has-adds :
    (acc : EffectivePermissions) (gs : List Grant) (key : String)
    → has (add_grants acc gs) key ≡ (has acc key || any (is_for key) gs)
has-adds acc [] key = ground arith
has-adds acc (g ∷ gs) key = ground (arith, has-adds (add_grant acc g) gs key, has-add acc g key)

-- The grants that a user has for a key are those of the key among all the user's grants, in their
-- order, and the key is held exactly if there is one.
pub effective_permissions-grants_for :
    (gs : List Grant) (key : String)
    → (grants_for (effective_permissions gs) key ≡ filter (λ g. g.permission_key == key) gs)
      × (has (effective_permissions gs) key ≡ any (λ g. g.permission_key == key) gs)
effective_permissions-grants_for gs key = (grants_for-adds [] gs key, has-adds [] gs key)
