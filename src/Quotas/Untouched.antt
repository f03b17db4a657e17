-- ===== src/Quotas/Untouched.antt =====
-- What `_ensure_network_quotas` and `ensure_quotas` keep: the quota of the floating IPs, and in a dry
-- run the whole cloud.
use openstack_tenantctl.Base.{
  Bool, not, Option, none, some, List, [], ◌∷◌, refl, String, ◌==◌, string_eq, if◌then◌else◌, pure,
  raise, ◌>>=◌, provisioner,
}
use openstack_tenantctl.Cloud.{Tenacity}
use openstack_tenantctl.Models.{ProjectConfig, QuotaConfig}
use openstack_tenantctl.Context.{Action, skipped, created, lit, record_action}
use openstack_tenantctl.Quotas.{QuotaCalls}
use openstack_tenantctl.Quotas.Sets.{
  one_action, compute_kind, block_storage_kind, ensure_compute_quotas, ensure_block_storage_quotas,
}
use openstack_tenantctl.Quotas.Network.{
  neutron_quotas_of, lb_quotas_of, no_quotas, neutron_part, lb_part, report_network,
  ensure_network_once,
}
use openstack_tenantctl.Quotas.Ensure.{
  ensure_network_quotas, block_storage_or_skip, report_changed, ensure_all_services, ensure_quotas,
}
use openstack_tenantctl.Quotas.Keeping.{
  Kept, Keeps, bind-Keeps, catch-Keeps, if-Kept, retried-Keeps, ensure_configured-Keeps,
}
use openstack_tenantctl.Quotas.NetworkKeeping.{
  CallsKeep, neutron_quotas_floating_ips, neutron_part-Keeps, lb_part-Keeps, report_network-Keeps,
}

module _ {C S : Type 0} (R : C → Bool → Type 0) (Q : QuotaCalls C) (K : CallsKeep R Q) where
  ensure_network_once-Keeps :
      (cfg : ProjectConfig) (project_id : String)
      → Keeps {S = S} R (ensure_network_once Q cfg project_id)
  unfolding ensure_network_once one_action record_action
  ensure_network_once-Keeps cfg project_id w p =
      if-Kept R w (not w.ctx.online) _ _ (λ o. (refl, p)) (λ o. wanted-Kept cfg.quotas)
    where
      both-Keeps :
          (q : QuotaConfig)
          → Keeps {S = S} R (do
            neutron ← neutron_part Q project_id (neutron_quotas_of q.network)
            lb ← lb_part Q project_id (lb_quotas_of q.network)
            report_network neutron lb)
      both-Keeps q =
          bind-Keeps R (neutron_part Q project_id (neutron_quotas_of q.network)) _
            (neutron_part-Keeps R Q K project_id (neutron_quotas_of q.network)
              (neutron_quotas_floating_ips q.network))
            (λ neutron.
              bind-Keeps R (lb_part Q project_id (lb_quotas_of q.network)) _
                (lb_part-Keeps R Q K project_id (lb_quotas_of q.network))
                (λ lb. report_network-Keeps R Q K neutron lb))

      wanted-Kept :
          (quotas : Option QuotaConfig)
          → Kept R {A = List Action} w (elim quotas [
            | none ↦ raise (provisioner "cfg.quotas is None — should have been checked by caller") w
            | some q ↦
                if no_quotas (neutron_quotas_of q.network) (lb_quotas_of q.network)
                then one_action skipped "network_quota" (lit "no network quotas configured" ∷ []) w
                else (do
                  neutron ← neutron_part Q project_id (neutron_quotas_of q.network)
                  lb ← lb_part Q project_id (lb_quotas_of q.network)
                  report_network neutron lb)
                    w
          ])
      wanted-Kept none = (refl, p)
      wanted-Kept (some q) =
          if-Kept R w (no_quotas (neutron_quotas_of q.network) (lb_quotas_of q.network)) _ _
            (λ e. (refl, p)) (λ e. both-Keeps q w p)

  block_storage_or_skip-Keeps :
      (T : Tenacity) (cfg : ProjectConfig) (project_id : String)
      → Keeps {S = S} R (block_storage_or_skip Q T cfg project_id)
  unfolding block_storage_or_skip one_action record_action ensure_block_storage_quotas
      block_storage_kind
  block_storage_or_skip-Keeps T cfg project_id =
      catch-Keeps R (ensure_block_storage_quotas Q T cfg project_id) _
        (retried-Keeps R T _
          (ensure_configured-Keeps R (block_storage_kind Q) K.block_storage-keeps cfg project_id))
        (λ e w p. (refl, p))

  report_changed-Keeps : (actions : List Action) → Keeps {S = S} R (report_changed actions)
  unfolding report_changed one_action record_action
  report_changed-Keeps [] w p = (refl, p)
  report_changed-Keeps (a ∷ actions) w p = (refl, p)

  ensure_all_services-Keeps :
      (T : Tenacity) (cfg : ProjectConfig) (project_id : String)
      → Keeps {S = S} R (ensure_all_services Q T cfg project_id)
  unfolding ensure_all_services ensure_compute_quotas ensure_network_quotas compute_kind
  ensure_all_services-Keeps T cfg project_id =
      bind-Keeps R (ensure_compute_quotas Q T cfg project_id) _
        (retried-Keeps R T _
          (ensure_configured-Keeps R (compute_kind Q) K.compute-keeps cfg project_id))
        (λ compute.
          bind-Keeps R (ensure_network_quotas Q T cfg project_id) _
            (retried-Keeps R T _ (ensure_network_once-Keeps cfg project_id))
            (λ network.
              bind-Keeps R (block_storage_or_skip Q T cfg project_id) _
                (block_storage_or_skip-Keeps T cfg project_id)
                (λ block_storage. report_changed-Keeps _)))

  -- `ensure_quotas` leaves the store as it is, and keeps what every reading call keeps and every update
  -- call outside a dry run, of Neutron's updates only those that do not send the floating IPs.
  pub ensure_quotas-Keeps :
      (T : Tenacity) (cfg : ProjectConfig) (project_id : String)
      → Keeps {S = S} R (ensure_quotas Q T cfg project_id)
  unfolding ensure_quotas one_action record_action
  ensure_quotas-Keeps T cfg project_id w p = configured cfg.quotas
    where
      configured :
          (quotas : Option QuotaConfig)
          → Kept R {A = List Action} w (elim quotas [
            | none ↦
                (do
                  action ← record_action skipped "quotas" "all" (lit "no quotas configured" ∷ [])
                  pure (action ∷ []))
                  w
            | some q ↦
                if project_id == ""
                then one_action created "quotas"
                    (lit "would set quotas (project not yet created)" ∷ [])
                    w
                else if not w.ctx.online
                then one_action skipped "quotas" (lit "would set quotas (offline)" ∷ []) w
                else ensure_all_services Q T cfg project_id w
          ])
      configured none = (refl, p)
      configured (some q) =
          if-Kept R w (project_id == "") _ _ (λ e. (refl, p))
            (λ e.
              if-Kept R w (not w.ctx.online) _ _ (λ o. (refl, p))
                (λ o. ensure_all_services-Keeps T cfg project_id w p))
