-- ===== src/Reconciler/Assembly.antt =====
-- The run over the components as they are modelled: the handlers that src/reconciler.py calls are those
-- of the other modules, over the calls of the services that they use.
use openstack_tenantctl.Base.{ℕ, Bool, Option, List, [], ◌∷◌, map, String, Act, pure, ◌>>=◌, ◌>>◌}
use openstack_tenantctl.Cloud.{Neutron, Tenacity}
use openstack_tenantctl.Models.{ProjectConfig, GroupRoleAssignment}
use openstack_tenantctl.Store.Interface.{StateStore}
use openstack_tenantctl.Scopes.{Scopes}
use openstack_tenantctl.Context.{Action, World}
use openstack_tenantctl.Compute.{Compute}
use openstack_tenantctl.Teardown.{Inventory}
use openstack_tenantctl.Networks.{NetworkCalls}
use openstack_tenantctl.Networks.Stack.{ensure_network_stack}
use openstack_tenantctl.Networks.Tracking.{track_router_ips}
use openstack_tenantctl.PreallocNetwork.{ensure_preallocated_network}
use openstack_tenantctl.Projects.{Identity, ensure_project, find_existing_project}
use openstack_tenantctl.Quotas.{QuotaCalls}
use openstack_tenantctl.Quotas.Ensure.{ensure_quotas}
use openstack_tenantctl.SecurityGroups.{SecurityCalls, ensure_baseline_sg}
use openstack_tenantctl.Reservations.{FlavorCalls}
use openstack_tenantctl.Reservations.Ensure.{ensure_reservations, revoke_all_reservation_grants}
use openstack_tenantctl.GroupRoles.{RoleCalls, ensure_group_role_assignments}
use openstack_tenantctl.KeystoneGroups.{GroupCalls, ensure_keystone_groups}
use openstack_tenantctl.Federation.{augment_group_role_assignments}
use openstack_tenantctl.Federation.Mapping.{MappingCalls, ensure_federation_mapping}
use openstack_tenantctl.Reconciler.{Handlers, reconcile}

-- The calls of all services, and the clock.
pub record Services (C : Type 0) : Type 0 where
  pub neutron : Neutron C
  pub networks : NetworkCalls C
  pub security : SecurityCalls C
  pub quotas : QuotaCalls C
  pub identity : Identity C
  pub roles : RoleCalls C
  pub groups : GroupCalls C
  pub mappings : MappingCalls C
  pub flavors : FlavorCalls C
  pub compute : Compute C
  pub inventory : Inventory C
  pub now : C → ℕ × C
  pub now_text : C → String × C

made_absent : GroupRoleAssignment → GroupRoleAssignment
made_absent entry = record entry { state = "absent" }

module _ {C S : Type 0} where
  -- What a handler returns is not read.
  quietly : {A : Type 0} → Act (World C S) A → Act (World C S) (Unit {0})
  quietly m = do m; pure tt

module _ {C S : Type 0} (V : Services C) (T : Tenacity) (st : StateStore S) where
  assign_roles : ProjectConfig → String → Act (World C S) (Unit {0})
  unfolding quietly augment_group_role_assignments ensure_group_role_assignments
  assign_roles cfg project_id =
      quietly
        (ensure_group_role_assignments V.roles T project_id (augment_group_role_assignments cfg))

  -- All assignments, the derived ones too, are marked as absent.
  revoke_listed : ProjectConfig → String → List GroupRoleAssignment → Act (World C S) (Unit {0})
  unfolding quietly made_absent ensure_group_role_assignments
  revoke_listed cfg project_id [] = pure tt
  revoke_listed cfg project_id (a ∷ assignments) = quietly (
      ensure_group_role_assignments V.roles T project_id
        (record cfg { group_role_assignments = map made_absent (a ∷ assignments) }))

  revoke_roles : ProjectConfig → String → Act (World C S) (Unit {0})
  unfolding revoke_listed augment_group_role_assignments
  revoke_roles cfg project_id =
      revoke_listed (augment_group_role_assignments cfg) project_id
        (augment_group_role_assignments cfg).group_role_assignments

  unfoldable pub handlers : Handlers C S
  unfolding quietly assign_roles revoke_roles ensure_project find_existing_project
      ensure_network_stack track_router_ips ensure_preallocated_network ensure_quotas
      ensure_baseline_sg ensure_reservations revoke_all_reservation_grants ensure_keystone_groups
      ensure_federation_mapping
  handlers = record {
    ensure_project = λ cfg. (do
      ensured ← ensure_project V.identity T cfg
      pure (ensured.project_id, ensured.was_disabled));
    find_existing_project =
        λ cfg. (do found ← find_existing_project V.identity T cfg; pure found.0);
    ensure_group_roles = assign_roles;
    revoke_group_roles = revoke_roles;
    ensure_network_stack =
        λ cfg project_id. quietly (ensure_network_stack V.neutron V.networks T st cfg project_id);
    track_router_ips =
        λ cfg project_id. quietly (track_router_ips V.neutron V.networks T st cfg project_id);
    ensure_preallocated_network = λ cfg project_id.
        quietly (ensure_preallocated_network V.neutron V.networks T st cfg project_id);
    ensure_quotas = λ cfg project_id. quietly (ensure_quotas V.quotas T cfg project_id);
    ensure_baseline_sg = λ cfg project_id. quietly (ensure_baseline_sg V.security T cfg project_id);
    ensure_reservations =
        λ cfg project_id. quietly (ensure_reservations V.flavors T st cfg project_id);
    revoke_all_reservation_grants =
        λ cfg project_id. quietly (revoke_all_reservation_grants V.flavors T st cfg project_id);
    compute = V.compute;
    ensure_keystone_groups =
        λ all_projects. quietly (ensure_keystone_groups V.groups V.identity T all_projects);
    ensure_federation_mapping =
        λ all_projects. quietly (ensure_federation_mapping V.mappings T all_projects);
    now = V.now;
    now_text = V.now_text;
  }

  -- The run of the program.
  unfoldable pub reconcile_services :
      Option Scopes
      → List ProjectConfig
      → List ProjectConfig
      → Act (World C S) (List Action × List Bool)
  unfolding reconcile handlers
  reconcile_services = reconcile V.neutron T V.inventory st handlers
