-- ===== src/Networks/Stack.antt =====
-- The creation of a project's network, subnet and router: `ensure_network_stack` of
-- src/resources/network.py.
use openstack_tenantctl.Base.{
  Bool, true, false, Option, none, some, List, [], ◌∷◌, ◌++◌, String, ◌<>◌, string_eq,
  if◌then◌else◌, Exc, conflict, Act, pure, raise, catch, ◌>>=◌, ◌>>◌,
}
use openstack_tenantctl.Base.Int.{ℤ, pos, leb_ℤ}
use openstack_tenantctl.Cloud.{Neutron, Tenacity}
use openstack_tenantctl.Models.{ProjectConfig, dict_list}
use openstack_tenantctl.Models.Network.{
  NetworkConfig, ReleasedRouterIpEntry, released_router_ip_to_dict,
}
use openstack_tenantctl.Store.{plain}
use openstack_tenantctl.Store.Interface.{StateStore}
use openstack_tenantctl.Context.{
  Action, ActionStatus, Details, lit, int, created, skipped, World, on_cloud, record_action,
}
use openstack_tenantctl.ExternalNetwork.{is_empty, resolve_project_external_network}
use openstack_tenantctl.Fips.Persist.{save_or_raise}
use openstack_tenantctl.Networks.{
  NetworkCalls, NewSubnet, names_part, find_previous_router_ip, find_network, create_network,
  create_subnet, create_router, add_interface_to_router, utc_now,
}

-- The names of the three resources.
abbrev pub net_name : ProjectConfig → String
net_name cfg = cfg.resource_prefix <> "-network"

abbrev pub subnet_name : ProjectConfig → String
subnet_name cfg = cfg.resource_prefix <> "-subnet"

abbrev pub router_name : ProjectConfig → String
router_name cfg = cfg.resource_prefix <> "-router"

-- cfg.network.mtu if cfg.network.mtu > 0 else 1500
unfoldable pub effective_mtu : NetworkConfig → ℤ
effective_mtu network = if leb_ℤ (pos 1) network.mtu then network.mtu else pos 1500

unfoldable pub new_subnet : ProjectConfig → NetworkConfig → String → String → NewSubnet
new_subnet cfg network network_id project_id = record {
  name = subnet_name cfg;
  network_id = network_id;
  project_id = project_id;
  cidr = network.subnet.cidr;
  gateway_ip = network.subnet.gateway_ip;
  allocation_pools = network.subnet.allocation_pools;
  dns_nameservers = network.subnet.dns_nameservers;
  enable_dhcp = network.subnet.enable_dhcp;
}

unfoldable pub reclaimable_ip : ProjectConfig → String
unfolding find_previous_router_ip
reclaimable_ip cfg =
    if cfg.reclaim_router_ips then find_previous_router_ip cfg (router_name cfg) else ""

unfoldable pub lost_entry : ProjectConfig → String → String → ReleasedRouterIpEntry
lost_entry cfg previous_ip released_at = record {
  address = previous_ip;
  router_name = router_name cfg;
  released_at = released_at;
  reason = "address taken during reclaim attempt";
}

unfoldable pub reclaim_part : String → Details
reclaim_part previous_ip =
    if is_empty previous_ip then [] else lit " (reclaim IP " ∷ lit previous_ip ∷ lit ")" ∷ []

module _ {C S : Type 0} where
  unfoldable pub persist_released_router_ips :
      StateStore S → ProjectConfig → List ReleasedRouterIpEntry → Act (World C S) (Unit {0})
  unfolding dict_list released_router_ip_to_dict
  persist_released_router_ips st cfg released =
      save_or_raise st cfg "released_router_ips"
        (plain (dict_list released_router_ip_to_dict released))

  unfoldable pub stack_action : ActionStatus → ProjectConfig → Details → Act (World C S) Action
  unfolding record_action
  stack_action status cfg details = record_action status "network_stack" (net_name cfg) details

  unfoldable pub report_stack : ProjectConfig → NetworkConfig → String → Act (World C S) Action
  unfolding effective_mtu reclaim_part stack_action
  report_stack cfg network previous_ip = stack_action created cfg (
      lit "would create "
      ∷ lit (net_name cfg)
      ∷ lit " (mtu="
      ∷ int (effective_mtu network)
      ∷ lit ", cidr="
      ∷ lit network.subnet.cidr
      ∷ lit "), "
      ∷ lit (subnet_name cfg)
      ∷ lit ", "
      ∷ lit (router_name cfg)
      ∷ reclaim_part previous_ip)

-- `except ConflictException`
unfoldable pub is_conflict : Exc → Bool
is_conflict conflict = true
is_conflict e = false

module _ {C S : Type 0} (N : Neutron C) (K : NetworkCalls C) (T : Tenacity)
    (st : StateStore S) where
  -- The address is lost to another user: it is written down as released.
  unfoldable pub record_lost : ProjectConfig → String → Act (World C S) (Unit {0})
  unfolding lost_entry persist_released_router_ips
  record_lost cfg previous_ip = do
    released_at ← utc_now N
    persist_released_router_ips st cfg
        (cfg.released_router_ips ++ lost_entry cfg previous_ip released_at ∷ [])

  -- No router if the address is taken. A BadRequestException is raised with another message.
  unfoldable pub reclaim_failed : ProjectConfig → String → Exc → Act (World C S) (Option String)
  unfolding record_lost is_conflict
  reclaim_failed cfg previous_ip e =
      if is_conflict e then (do record_lost cfg previous_ip; pure none) else raise e

  unfoldable pub try_reclaim :
      ProjectConfig → String → String × String → String → Act (World C S) (Option String)
  unfolding create_router
  try_reclaim cfg project_id (net, subnet) previous_ip = do
    router ← on_cloud (create_router K T (router_name cfg) project_id net subnet previous_ip)
    pure (some router)

  unfoldable pub reclaim_router :
      ProjectConfig → String → String × String → String → Act (World C S) (Option String)
  unfolding reclaim_failed try_reclaim
  reclaim_router cfg project_id external previous_ip =
      catch (try_reclaim cfg project_id external previous_ip) (reclaim_failed cfg previous_ip)

  unfoldable pub router_or_new :
      ProjectConfig → String → String × String → Option String → Act (World C S) String
  unfolding create_router
  router_or_new cfg project_id external (some router) = pure router
  router_or_new cfg project_id (net, subnet) none =
      on_cloud (create_router K T (router_name cfg) project_id net subnet "")

  unfoldable pub provide_router :
      ProjectConfig → String → String × String → String → Act (World C S) String
  unfolding reclaim_router router_or_new
  provide_router cfg project_id external previous_ip = do
    router ←
        if is_empty previous_ip
        then pure none
        else reclaim_router cfg project_id external previous_ip
    router_or_new cfg project_id external router

  -- What comes after the network is created.
  unfoldable pub complete_stack :
      ProjectConfig
      → NetworkConfig
      → String
      → String × String
      → String
      → String
      → Act (World C S) Action
  unfolding new_subnet create_subnet provide_router add_interface_to_router stack_action
  complete_stack cfg network project_id external previous_ip network_id = do
    subnet_id ← on_cloud (create_subnet K T (new_subnet cfg network network_id project_id))
    router_id ← provide_router cfg project_id external previous_ip
    on_cloud (add_interface_to_router K T router_id subnet_id)
    stack_action created cfg (
        lit "network="
        ∷ lit network_id
        ∷ lit ", subnet="
        ∷ lit subnet_id
        ∷ lit ", router="
        ∷ lit router_id
        ∷ [])

  unfoldable pub create_stack :
      ProjectConfig → NetworkConfig → String → String × String → String → Act (World C S) Action
  unfolding create_network effective_mtu complete_stack
  create_stack cfg network project_id external previous_ip = do
    network_id ← on_cloud (create_network K T (net_name cfg) project_id (effective_mtu network))
    complete_stack cfg network project_id external previous_ip network_id

  -- The project has no network.
  unfoldable pub on_no_network :
      ProjectConfig → NetworkConfig → String → String × String → Act (World C S) Action
  unfolding report_stack create_stack reclaimable_ip
  on_no_network cfg network project_id external w =
      if w.ctx.dry_run
      then report_stack cfg network (reclaimable_ip cfg) w
      else create_stack cfg network project_id external (reclaimable_ip cfg) w

  unfoldable pub unless_any :
      ProjectConfig → NetworkConfig → String → List String → Act (World C S) Action
  unfolding stack_action names_part resolve_project_external_network on_no_network
  unless_any cfg network project_id [] = do
    external ← resolve_project_external_network N T cfg
    on_no_network cfg network project_id external
  unless_any cfg network project_id (n ∷ names) =
      stack_action skipped cfg (lit "project has existing network(s): " ∷ names_part (n ∷ names))

  unfoldable pub unless_found :
      ProjectConfig → NetworkConfig → String → Option String → Act (World C S) Action
  unfolding stack_action unless_any
  unless_found cfg network project_id (some existing) =
      stack_action skipped cfg (lit "already exists" ∷ [])
  unless_found cfg network project_id none = do
    all_project_nets ← on_cloud (K.networks project_id)
    unless_any cfg network project_id all_project_nets

  unfoldable pub stack_online : ProjectConfig → NetworkConfig → String → Act (World C S) Action
  unfolding find_network unless_found
  stack_online cfg network project_id = do
    existing ← on_cloud (find_network K T (net_name cfg) project_id)
    unless_found cfg network project_id existing

  unfoldable pub if_configured :
      ProjectConfig → String → Option NetworkConfig → Act (World C S) Action
  unfolding stack_action stack_online
  if_configured cfg project_id none = stack_action skipped cfg (lit "no network configured" ∷ [])
  if_configured cfg project_id (some network) = stack_online cfg network project_id

  unfoldable pub ensure_network_stack : ProjectConfig → String → Act (World C S) Action
  unfolding stack_action if_configured
  ensure_network_stack cfg project_id w =
      if w.ctx.online
      then if_configured cfg project_id cfg.network w
      else stack_action skipped cfg
          (lit "would create "
            ∷ lit (net_name cfg)
            ∷ lit ", "
            ∷ lit (subnet_name cfg)
            ∷ lit ", "
            ∷ lit (router_name cfg)
            ∷ lit " (offline)"
            ∷ [])
          w
