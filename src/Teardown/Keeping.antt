-- ===== src/Teardown/Keeping.antt =====
-- What the steps of a teardown keep of the cloud: `_run_step` of src/resources/teardown.py, and what it calls.
use openstack_tenantctl.Base.{[], ◌∷◌, sym, subst, String, Exc, endpoint_not_found, Act, pure, each}
use openstack_tenantctl.Base.Holding.{
  Holds, bind-Holds, catch-Holds, if-Holds, each-Holds, All-every,
}
use openstack_tenantctl.Cloud.{Tenacity}
use openstack_tenantctl.Context.{lit, World, on_cloud}
use openstack_tenantctl.Context.Retry.{retried, retried-Holds}
use openstack_tenantctl.Teardown.{
  Kind, floating_ip, snapshot, router, subnet, network, security_group, Resource, Port, Inventory,
  Deletion, wanted, list_resources, no_service, list_or_skip, run_step, safe_delete, label,
  type_name, delete_resource, detach, detach_port, prepare_router_deletion, prepared_delete,
}
use openstack_tenantctl.Teardown.Outcome.{safe_delete-cloud}

-- No call brings back what is gone.
pub record Keeps {C : Type 0} (I : Inventory C) (G : C → Type 0) : Type 0 where
  pub resources-keeps : (kind : Kind) (project_id : String) → Holds G (I.resources kind project_id)
  pub delete-keeps : (kind : Kind) (id : String) → Holds G (I.delete kind id)
  pub ports-keeps : (id : String) → Holds G (I.ports id)
  pub interface-keeps : (id subnet_id : String) → Holds G (I.remove_interface id subnet_id)
  pub gateway-keeps : (id : String) → Holds G (I.clear_gateway id)
  pub project-keeps : (project_id : String) → Holds G (I.delete_project project_id)

module _ {C : Type 0} (I : Inventory C) (T : Tenacity) (G : C → Type 0) (K : Keeps I G) where
  detach-Holds : (id subnet_id : String) → Holds G (detach I T id subnet_id)
  unfolding detach
  detach-Holds id subnet_id =
      if-Holds G _ (pure tt) _ (λ c p. p) (retried-Holds G T _ (K.interface-keeps id subnet_id))

  detach_port-Holds : (id : String) (port : Port) → Holds G (detach_port I T id port)
  unfolding detach_port
  detach_port-Holds id port =
      if-Holds G port.is_router_interface _ (pure tt)
        (bind-Holds G (each (detach I T id) port.subnets) _
          (each-Holds G (λ (s : String). Unit {0}) (detach I T id) (λ s _. detach-Holds id s)
            port.subnets (All-every _ (λ s. tt) port.subnets))
          (λ _ c p. p))
        (λ c p. p)

  prepare-Holds : (id : String) → Holds G (prepare_router_deletion I T id)
  unfolding prepare_router_deletion
  prepare-Holds id =
      bind-Holds G (retried T (I.ports id)) _ (retried-Holds G T _ (K.ports-keeps id)) λ ports.
        bind-Holds G (each (detach_port I T id) ports) _
          (each-Holds G (λ (s : Port). Unit {0}) (detach_port I T id)
            (λ port _. detach_port-Holds id port) ports (All-every _ (λ s. tt) ports))
          (λ _. retried-Holds G T _ (K.gateway-keeps id))

  delete-Holds : (kind : Kind) (id : String) → Holds G (delete_resource I T kind id)
  unfolding delete_resource
  delete-Holds kind id = retried-Holds G T _ (K.delete-keeps kind id)

  prepared_delete-Holds : (kind : Kind) (r : Resource) → Holds G (prepared_delete I T kind r)
  unfolding prepared_delete
  prepared_delete-Holds router r =
      bind-Holds G (prepare_router_deletion I T r.id) _ (prepare-Holds r.id)
        (λ _. delete-Holds router r.id)
  prepared_delete-Holds floating_ip r = delete-Holds floating_ip r.id
  prepared_delete-Holds snapshot r = delete-Holds snapshot r.id
  prepared_delete-Holds subnet r = delete-Holds subnet r.id
  prepared_delete-Holds network r = delete-Holds network r.id
  prepared_delete-Holds security_group r = delete-Holds security_group r.id

module _ {C S : Type 0} (I : Inventory C) (T : Tenacity) (G : C → Type 0) (K : Keeps I G)
    (project_id : String) where
  abbrev pub At : World C S → Type 0
  At w = G w.cloud

  abbrev pub delete_one : Kind → Resource → Act (World C S) Deletion
  delete_one kind r =
      safe_delete (type_name kind) (label kind r) (prepared_delete I T kind r) (lit "deleted" ∷ [])

  pub delete_one-Holds : (kind : Kind) (r : Resource) → Holds At (delete_one kind r)
  delete_one-Holds kind r w p =
      subst G
        (sym (
          safe_delete-cloud (type_name kind) (label kind r) (prepared_delete I T kind r)
            (lit "deleted" ∷ []) w))
        (prepared_delete-Holds I T G K kind r w.cloud p)

  no_service-Holds : (e : Exc) → Holds At (no_service I T e)
  unfolding no_service
  no_service-Holds endpoint_not_found w p = p
  no_service-Holds e w p = p

  list-Holds : (kind : Kind) → Holds At (list_or_skip I T kind project_id)
  unfolding list_or_skip list_resources
  list-Holds kind =
      catch-Holds At (on_cloud (list_resources I T kind project_id)) (no_service I T)
        (λ w p. retried-Holds G T _ (K.resources-keeps kind project_id) w.cloud p) no_service-Holds

  pub run_step-Holds : (kind : Kind) → Holds At (run_step I T project_id kind)
  unfolding run_step
  run_step-Holds kind = bind-Holds At (list_or_skip I T kind project_id) _ (list-Holds kind) λ rs.
      each-Holds At (λ (r : Resource). Unit {0}) (delete_one kind) (λ r _. delete_one-Holds kind r)
        (wanted kind rs) (All-every _ (λ r. tt) (wanted kind rs))
