-- ===== src/Tests.antt =====
-- Runs of the program at concrete data, and its theorems there.
mod Fips
mod Allocation
mod Compute
mod Quotas
mod Projects
mod Reservations
mod GroupRoles
mod Networks
mod SecurityGroups
mod KeystoneGroups
mod Config
mod Teardown
mod Reconciler
use openstack_tenantctl.Base.{
  ℕ, zero, suc, Bool, true, false, Option, none, some, List, [], ◌∷◌, map, ◌≡◌, refl, ◌↔◌, ◌⊎◌, inl,
  inr, arith, String, string_eq, pair_eq, nat_eq, contains, if◌then◌else◌, Result, ok, raised, http,
  value_error,
}
use openstack_tenantctl.Base.Dict
use openstack_tenantctl.Models.{
  ProjectConfig, present, locked, absent, LifetimeConfig, lock, delete,
}
use openstack_tenantctl.Models.Lifecycle.{effective_state_monotone}
use openstack_tenantctl.Scopes.{
  Scope, Scopes, roles, network, fips, prealloc_network, keystone_groups, scope_eq, value, scope_of,
  expand_scope_dependencies, validate_scopes,
}
use openstack_tenantctl.Scopes.Closure.{In, IsClosed, expand_scope_dependencies_closure}
use openstack_tenantctl.Scopes.Validation.{
  validate_scopes-IsClosed, validate_scopes_strict_iff, validate_scopes_expand,
}
use openstack_tenantctl.Store.Memory.{Memory}
use openstack_tenantctl.Context.{World}
use openstack_tenantctl.Context.Retry.{is_retryable, is_retryable-http_iff}
use openstack_tenantctl.ExternalNetwork.{resolve_project_external_network}
use openstack_tenantctl.ExternalNetwork.Cache.{resolve_project_external_network_again}
use openstack_tenantctl.Samples.{
  simple_retry, SampleCloud, sample_neutron, sample_project, sample_world,
}

expanded :
    validate_scopes (some ("fips" ∷ "roles" ∷ [])) true
    ≡ ok (some (fips ∷ roles ∷ network ∷ keystone_groups ∷ []))
unfolding validate_scopes scope_of string_eq scope_eq
expanded = refl

refused :
    validate_scopes (some ("fips" ∷ [])) false ≡ raised (value_error "Missing scope dependencies")
unfolding validate_scopes scope_of string_eq scope_eq
refused = refl

expand_scope_dependencies_closure_example :
    IsClosed (expand_scope_dependencies (fips ∷ roles ∷ []))
    × ((s : Scope)
        → In s (fips ∷ roles ∷ [])
        → In s (expand_scope_dependencies (fips ∷ roles ∷ [])))
    × ((t : Scopes)
        → IsClosed t
        → ((s : Scope) → In s (fips ∷ roles ∷ []) → In s t)
        → (s : Scope) → In s (expand_scope_dependencies (fips ∷ roles ∷ []))
        → In s t)
expand_scope_dependencies_closure_example = expand_scope_dependencies_closure (fips ∷ roles ∷ [])

abbrev until_ten : LifetimeConfig
until_ten = record { until = 10; action = lock }

abbrev too_many_requests : ℕ
too_many_requests = 429

-- A project with a network and a subnet of its own.
abbrev own_network : ProjectConfig
own_network = record (sample_project "dev" present) {
  external_network_name = "ext";
  external_network_subnet = "sub";
}

abbrev resolved_world : World SampleCloud Memory
resolved_world = record sample_world {
  ctx = record (sample_world.ctx) {
    resolved_external_networks = (("ext", "sub"), ("net-1", "sub-1")) ∷ [];
  };
}

resolved :
    resolve_project_external_network sample_neutron simple_retry own_network sample_world
    ≡ (ok ("net-1", "sub-1"), resolved_world)
unfolding resolve_project_external_network string_eq pair_eq simple_retry Dict.get Dict.put
resolved = refl
