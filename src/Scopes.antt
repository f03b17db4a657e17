-- ===== src/Scopes.antt =====
-- The selectable scopes of a partial run: `ReconcileScope`, `_SCOPE_DEPENDENCIES`,
-- `_expand_scope_dependencies` and `validate_scopes` of src/reconciler.py.
pub mod Closure
pub mod Validation
use openstack_tenantctl.Base.{
  ℕ, zero, suc, Bool, true, false, Option, none, some, List, [], ◌∷◌, ◌++◌, String, Eq, ◌==◌,
  contains, if◌then◌else◌, Result, ok, raised, value_error, string_eq,
}

pub data Scope : Type 0 where
  roles network fips prealloc_network quotas : Scope
  security_groups reservations keystone_groups federation : Scope

pub Scope-discrete : Discrete Scope
Scope-discrete = hlevel

instance unfoldable pub scope_eq : Eq Scope
unfolding Scope-discrete
scope_eq = record { dec = Scope-discrete }

-- `_SCOPE_DEPENDENCIES.get(scope, set())`
unfoldable pub dependencies : Scope → List Scope
dependencies fips = network ∷ []
dependencies prealloc_network = network ∷ []
dependencies roles = keystone_groups ∷ []
dependencies _ = []

-- A set of scopes is a list without order or multiplicity: only membership is read.
abbrev pub Scopes : Type 0
Scopes = List Scope

-- The prerequisites among `deps` that are not in the set yet.
missing_of : Scopes → List Scope → Scopes
missing_of expanded [] = []
missing_of expanded (dep ∷ deps) =
    let rest = missing_of expanded deps in if contains expanded dep then rest else dep ∷ rest

-- The inner loops of one round over the scopes of the set.
pub additions : Scopes → Scopes → Scopes
unfolding missing_of dependencies
additions expanded [] = []
additions expanded (scope ∷ scopes) =
    missing_of expanded (dependencies scope) ++ additions expanded scopes

-- The rounds: the loop ends when a round adds nothing, and after `len(ReconcileScope)` of them.
expand_loop : ℕ → Scopes → Scopes
unfolding additions
expand_loop zero expanded = expanded
expand_loop (suc rounds) expanded = elim (additions expanded expanded) [
  | [] ↦ expanded
  | dep ∷ deps ↦ expand_loop rounds (expanded ++ dep ∷ deps)
]

unfoldable pub expand_scope_dependencies : Scopes → Scopes
unfolding expand_loop
expand_scope_dependencies scopes = expand_loop 9 scopes

-- The value of an enumeration member, and `ReconcileScope(s)`.
unfoldable pub value : Scope → String
value roles = "roles"
value network = "network"
value fips = "fips"
value prealloc_network = "prealloc_network"
value quotas = "quotas"
value security_groups = "security_groups"
value reservations = "reservations"
value keystone_groups = "keystone_groups"
value federation = "federation"

unfoldable pub scope_of : String → Option Scope
scope_of s =
    if s == "roles"
    then some roles
    else if s == "network"
    then some network
    else if s == "fips"
    then some fips
    else if s == "prealloc_network"
    then some prealloc_network
    else if s == "quotas"
    then some quotas
    else if s == "security_groups"
    then some security_groups
    else if s == "reservations"
    then some reservations
    else if s == "keystone_groups"
    then some keystone_groups
    else if s == "federation"
    then some federation
    else none

abbrev coerced_cons : Option Scope → String → Result Scopes → Result Scopes
coerced_cons none s rest = raised (value_error s)
coerced_cons (some scope) s (raised e) = raised e
coerced_cons (some scope) s (ok scopes) = ok (scope ∷ scopes)

-- {ReconcileScope(s) for s in scopes}; an unknown value raises.
coerce : List String → Result Scopes
coerce [] = ok []
coerce (s ∷ ss) = coerced_cons (scope_of s) s (coerce ss)

-- The fail-fast check that every prerequisite is in the set.
check : Scopes → Result (Option Scopes)
unfolding additions
check coerced = elim (additions coerced coerced) [
  | [] ↦ ok (some coerced)
  | _ ↦ raised (value_error "Missing scope dependencies")
]

-- The rest of `validate_scopes`, after the set was coerced.
finish : Bool → Result Scopes → Result (Option Scopes)
unfolding check expand_scope_dependencies
finish auto_expand_deps (raised e) = raised e
finish true (ok coerced) = ok (some (expand_scope_dependencies coerced))
finish false (ok coerced) = check coerced

-- `None` is all scopes. The callers may pass members or their values, which are strings too.
unfoldable pub validate_scopes : Option (List String) → Bool → Result (Option Scopes)
unfolding coerce scope_of finish
validate_scopes none auto_expand_deps = ok none
validate_scopes (some []) auto_expand_deps = raised (value_error "scopes must be non-empty")
validate_scopes (some (s ∷ ss)) auto_expand_deps = finish auto_expand_deps (coerce (s ∷ ss))
