-- ===== src/Fips/Ensure.antt =====
-- `_detect_router_gateway` and `ensure_preallocated_fips`.
use openstack_tenantctl.Base.{
  ℕ, suc, Bool, true, false, ◌&&◌, Option, none, some, List, [], ◌∷◌, ◌++◌, map, String, not, ◌==◌,
  contains, string_eq, if◌then◌else◌, length, Act, pure, gets, ◌>>=◌, ◌>>◌,
}
use openstack_tenantctl.Base.Int.{ℤ, pos, ◌-ℤ◌, ltb_ℤ, int_eq}
use openstack_tenantctl.Cloud.{Neutron, Tenacity, FloatingIp, GatewayInfo, no_gateway, gateway}
use openstack_tenantctl.Models.{ProjectConfig, QuotaConfig, FipEntry, from_sdk}
use openstack_tenantctl.Store.Interface.{StateStore}
use openstack_tenantctl.Context.{
  Action, Details, lit, int, ActionStatus, created, updated, skipped, failed, World, on_cloud,
  record_action,
}
use openstack_tenantctl.ExternalNetwork.{is_empty, resolve_project_external_network}
use openstack_tenantctl.Fips.{partition_fips_by_network, config_ids, openstack_ids}
use openstack_tenantctl.Fips.Quota.{set_fip_quota_and_record}
use openstack_tenantctl.Fips.Persist.{persist_fips, persist_fip_tracking_snapshot}
use openstack_tenantctl.Fips.Drift.{floating_ips_of, reconcile_fip_drift}
use openstack_tenantctl.Fips.Scale.{list_floating_ips, scale_down_fips, scale_up_fips}

-- The first router with a gateway that names its network.
unfoldable pub detect_router_gateway : List GatewayInfo → String × String
unfolding is_empty
detect_router_gateway [] = ("", "")
detect_router_gateway (no_gateway ∷ routers) = detect_router_gateway routers
detect_router_gateway (gateway net_id subnet_id ∷ routers) =
    if is_empty net_id then detect_router_gateway routers else (net_id, subnet_id)

-- The router's network or subnet goes before the configured one.
unfoldable pub prefer_router : String × String → String × String → String × String
unfolding is_empty
prefer_router (router_net, router_subnet) (net, subnet) =
    if not (is_empty router_net) && not (router_net == net)
    then (router_net, router_subnet)
    else if not (is_empty router_subnet) && not (router_subnet == subnet)
    then (net, router_subnet)
    else (net, subnet)

-- `tracked_ids != actual_ids`, as sets.
all_in : List String → List String → Bool
all_in [] ys = true
all_in (x ∷ xs) ys = contains ys x && all_in xs ys

unfoldable pub same_ids : List String → List String → Bool
unfolding all_in
same_ids xs ys = all_in xs ys && all_in ys xs

-- `quotas.network` is missing or empty.
unfoldable pub has_network_quotas : Option QuotaConfig → Bool
has_network_quotas none = false
has_network_quotas (some q) = elim q.network [ [] ↦ false | _ ↦ true ]

module _ {C S : Type 0} where
  unfoldable pub one_action : ActionStatus → String → Details → Act (World C S) (List Action)
  unfolding record_action
  one_action status name details = do
    action ← record_action status "preallocated_fip" name details
    pure (action ∷ [])

  -- What the foreign floating IPs give: a FAILED action with their number. The printed
  -- set of their networks is left out of its details.
  unfoldable pub note_foreign : List FloatingIp → String → Act (World C S) (List Action)
  unfolding one_action
  note_foreign [] external_net_id = pure []
  note_foreign (f ∷ fs) external_net_id = one_action failed "" (
      int (pos (suc (length fs)))
      ∷ lit " FIP(s) from foreign external network(s)"
      ∷ lit " — not managed (configured network: "
      ∷ lit external_net_id
      ∷ lit ")"
      ∷ [])

  -- The online dry run: what would be done.
  unfoldable pub report_scale : ProjectConfig → ℕ → ℤ → Act (World C S) (List Action)
  unfolding one_action int_eq
  report_scale cfg existing_count desired_count =
      if pos existing_count == desired_count
      then one_action skipped cfg.name (
          lit "already allocated ("
          ∷ int (pos existing_count)
          ∷ lit "/"
          ∷ int desired_count
          ∷ lit "), quota would be set"
          ∷ [])
      else if ltb_ℤ desired_count (pos existing_count)
      then one_action updated cfg.name (
          lit "have "
          ∷ int (pos existing_count)
          ∷ lit ", want "
          ∷ int desired_count
          ∷ lit ", would release "
          ∷ int (pos existing_count -ℤ desired_count)
          ∷ lit " FIP(s)"
          ∷ [])
      else one_action created cfg.name (
          lit "have "
          ∷ int (pos existing_count)
          ∷ lit ", want "
          ∷ int desired_count
          ∷ lit ", would allocate "
          ∷ int (desired_count -ℤ pos existing_count)
          ∷ lit " FIP(s)"
          ∷ [])

module _ {C S : Type 0} (N : Neutron C) (T : Tenacity) (st : StateStore S) where
  -- With `track_fip_changes`, ids that differ are written down with a snapshot.
  track : ProjectConfig → List FloatingIp → ℤ → Act (World C S) (Unit {0})
  unfolding same_ids persist_fips persist_fip_tracking_snapshot from_sdk
  track cfg existing_fips desired_count =
      if cfg.track_fip_changes
        && not (same_ids (config_ids cfg.preallocated_fips) (openstack_ids existing_fips))
      then (do
        persist_fips st cfg (map from_sdk existing_fips)
        persist_fip_tracking_snapshot st N cfg desired_count (pos (length existing_fips)))
      else pure tt

  exact_action : ℕ → ℤ → Option Action → Act (World C S) (List Action)
  unfolding one_action
  exact_action existing_count desired_count (some a) = pure (a ∷ [])
  exact_action existing_count desired_count none = one_action skipped "" (
      lit "already allocated ("
      ∷ int (pos existing_count)
      ∷ lit "/"
      ∷ int desired_count
      ∷ lit "), quota set"
      ∷ [])

  -- The number of floating IPs is the wanted one.
  unfoldable pub settle_exact :
      ProjectConfig → String → List FloatingIp → ℤ → Act (World C S) (List Action)
  unfolding track exact_action set_fip_quota_and_record
  settle_exact cfg project_id existing_fips desired_count = do
    quota_action ←
        set_fip_quota_and_record N T project_id desired_count (pos (length existing_fips))
    track cfg existing_fips desired_count
    exact_action (length existing_fips) desired_count quota_action

  unfoldable pub scale_fips :
      ProjectConfig → String → String → String → ℤ → List FloatingIp → Act (World C S) (List Action)
  unfolding settle_exact scale_down_fips scale_up_fips int_eq
  scale_fips cfg project_id external_net_id external_subnet_id desired_count existing_fips =
      let existing_count = length existing_fips in
      if pos existing_count == desired_count
      then settle_exact cfg project_id existing_fips desired_count
      else if ltb_ℤ desired_count (pos existing_count)
      then scale_down_fips N T st cfg project_id existing_fips existing_count desired_count
      else scale_up_fips N T st cfg project_id existing_fips existing_count desired_count
          external_net_id external_subnet_id

  -- After drift that was acted on, the floating IPs are listed anew.
  relist : String → String → List FloatingIp → List Action → Act (World C S) (List FloatingIp)
  unfolding list_floating_ips partition_fips_by_network
  relist project_id external_net_id existing_fips [] = pure existing_fips
  relist project_id external_net_id existing_fips (a ∷ as') = do
    all_fips ← on_cloud (list_floating_ips N T project_id)
    pure (partition_fips_by_network all_fips external_net_id).0

  drift_of :
      ProjectConfig
      → String
      → List FloatingIp
      → String
      → String
      → List FipEntry
      → Act (World C S) (List Action)
  unfolding reconcile_fip_drift
  drift_of cfg project_id existing_fips net subnet [] = pure []
  drift_of cfg project_id existing_fips net subnet (f ∷ fs) =
      reconcile_fip_drift N T st cfg project_id (f ∷ fs) existing_fips net subnet

  -- The live run, on the floating IPs of the network.
  unfoldable pub apply_fips :
      ProjectConfig
      → String
      → String
      → String
      → ℤ
      → List FloatingIp
      → List Action
      → Act (World C S) (List Action)
  unfolding drift_of relist scale_fips
  apply_fips cfg project_id net subnet desired_count existing_fips foreign_actions = do
    drift_actions ← drift_of cfg project_id existing_fips net subnet cfg.preallocated_fips
    current ← relist project_id net existing_fips drift_actions
    actions ← scale_fips cfg project_id net subnet desired_count current
    pure (foreign_actions ++ drift_actions ++ actions)

  unfoldable pub ensure_on_network :
      ProjectConfig → String → ℤ → String × String → Act (World C S) (List Action)
  unfolding one_action is_empty list_floating_ips partition_fips_by_network note_foreign
      report_scale apply_fips
  ensure_on_network cfg project_id desired_count (net, subnet) =
      if is_empty net
      then one_action skipped "" (lit "no external network — cannot allocate FIPs" ∷ [])
      else do
        all_fips ← on_cloud (list_floating_ips N T project_id)
        let parts = partition_fips_by_network all_fips net
        foreign_actions ← note_foreign parts.1 net
        dry_run ← gets (λ w. w.ctx.dry_run)
        if dry_run
            then (do
              actions ← report_scale cfg (length parts.0) desired_count
              pure (foreign_actions ++ actions))
            else apply_fips cfg project_id net subnet desired_count parts.0 foreign_actions

  unfoldable pub ensure_online : ProjectConfig → String → ℤ → Act (World C S) (List Action)
  unfolding one_action int_eq resolve_project_external_network detect_router_gateway prefer_router
      ensure_on_network
  ensure_online cfg project_id desired_count =
      if desired_count == pos 0
      then one_action skipped "" (lit "no floating IPs requested" ∷ [])
      else do
        configured ← resolve_project_external_network N T cfg
        routers ← on_cloud (N.routers project_id)
        ensure_on_network cfg project_id desired_count
            (prefer_router (detect_router_gateway routers) configured)

  unfoldable pub ensure_preallocated_fips : ProjectConfig → String → Act (World C S) (List Action)
  unfolding has_network_quotas one_action floating_ips_of ensure_online
  ensure_preallocated_fips cfg project_id w =
      if not (has_network_quotas cfg.quotas)
      then one_action skipped "all" (lit "no quotas.network configured" ∷ []) w
      else if not w.ctx.online
      then one_action skipped cfg.name
          (lit "would allocate "
            ∷ int (floating_ips_of cfg.quotas)
            ∷ lit " FIP(s) and set quota (offline)"
            ∷ [])
          w
      else ensure_online cfg project_id (floating_ips_of cfg.quotas) w
