-- ===== src/Scopes/Validation.antt =====
-- When `validate_scopes` accepts a set of scopes, and what it returns.
use openstack_tenantctl.Base.{
  Bool, true, false, some, List, [], ◌∷◌, ◌≡◌, refl, String, Result, ok, raised, ap, subst, map,
  ◌↔◌, string_eq,
}
use openstack_tenantctl.Scopes.{
  Scope, roles, Scopes, value, scope_of, coerce, finish, check, additions,
  expand_scope_dependencies, validate_scopes,
}
use openstack_tenantctl.Scopes.Closure.{
  IsClosed, additions-nil, additions-nil_iff, expand_scope_dependencies_closure,
}

-- Every member of the enumeration is found by its value.
scope_of-value : (s : Scope) → scope_of (value s) ≡ some s
unfolding scope_of value string_eq
scope_of-value roles = refl
scope_of-value _ = refl

coerce-value : (xs : Scopes) → coerce (map value xs) ≡ ok xs
unfolding coerce
coerce-value [] = refl
coerce-value (x ∷ xs) = rw (scope_of-value x, coerce-value xs)

check_ok : (c xs : Scopes) → check c ≡ ok (some xs) → (c ≡ xs) × IsClosed c
unfolding check
check_ok c xs h = go (additions c c) refl
  where
    go : (a : Scopes) → additions c c ≡ a → (c ≡ xs) × IsClosed c
    go [] e = (cc (rw (e, check) at h), additions-nil_iff c e)
    go (d ∷ ds) e = cc (rw (e, check) at h)

check-IsClosed : (c : Scopes) → IsClosed c → check c ≡ ok (some c)
unfolding check
check-IsClosed c closed = rw (additions-nil c closed, check)

finish-IsClosed :
    (auto : Bool) (r : Result Scopes) (xs : Scopes) → finish auto r ≡ ok (some xs) → IsClosed xs
unfolding finish
finish-IsClosed auto (raised e) xs h = cc
finish-IsClosed true (ok c) xs h =
    let same : expand_scope_dependencies c ≡ xs = cc in
    subst IsClosed same (expand_scope_dependencies_closure c).0
finish-IsClosed false (ok c) xs h =
    let (same, closed) = check_ok c xs h in subst IsClosed same closed

-- The set that `validate_scopes` returns has the prerequisites of all its members, whether
-- or not it was asked to add them.
pub validate_scopes-IsClosed :
    (ss : List String) (auto : Bool) (xs : Scopes)
    → validate_scopes (some ss) auto ≡ ok (some xs)
    → IsClosed xs
unfolding validate_scopes
validate_scopes-IsClosed [] auto xs h = cc
validate_scopes-IsClosed (s ∷ ss) auto xs h = finish-IsClosed auto (coerce (s ∷ ss)) xs h

validate_scopes-value :
    (s : Scope) (xs : Scopes) (auto : Bool)
    → validate_scopes (some (map value (s ∷ xs))) auto ≡ finish auto (ok (s ∷ xs))
unfolding validate_scopes
validate_scopes-value s xs auto = ap (finish auto) (coerce-value (s ∷ xs))

-- Without `auto_expand_deps` a non-empty set is accepted, and returned as it is, exactly when it
-- has the prerequisites of all its members.
pub validate_scopes_strict_iff :
    (s : Scope) (xs : Scopes)
    → (validate_scopes (some (map value (s ∷ xs))) false ≡ ok (some (s ∷ xs))) ↔ IsClosed (s ∷ xs)
unfolding finish
validate_scopes_strict_iff s xs =
    rw (validate_scopes-value s xs false)
      (λ h. (check_ok (s ∷ xs) (s ∷ xs) h).1, check-IsClosed (s ∷ xs))

-- With it, a non-empty set of members is accepted and its expansion returned.
pub validate_scopes_expand :
    (s : Scope) (xs : Scopes)
    → validate_scopes (some (map value (s ∷ xs))) true
      ≡ ok (some (expand_scope_dependencies (s ∷ xs)))
unfolding finish
validate_scopes_expand s xs = validate_scopes-value s xs true
