-- ===== src/Tests/Networks.antt =====
-- Networks of a small cloud whose state is the names of a project's networks, and routers of one whose
-- state is the list of them.
use openstack_tenantctl.Base.{
  true, not, none, some, List, [], ◌∷◌, ◌++◌, ◌≡◌, ◌≢◌, refl, sym, ◌∙◌, String, string_eq, pair_eq,
  contains, if◌then◌else◌, ok, raised, conflict, ◌>>◌,
}
use openstack_tenantctl.Base.Int.{pos}
use openstack_tenantctl.Cloud.{Neutron, usage}
use openstack_tenantctl.Models.{ProjectConfig, present, dict_list}
use openstack_tenantctl.Models.Network.{
  NetworkConfig, RouterIpEntry, ReleasedRouterIpEntry, router_ip_to_dict,
  released_router_ip_to_dict,
}
use openstack_tenantctl.Base.Dict
use openstack_tenantctl.Store.{get, end, field}
use openstack_tenantctl.Store.Memory
use openstack_tenantctl.Store.Memory.{Memory, memory_store, memory_store-IsLawful}
use openstack_tenantctl.Context.{Action, World}
use openstack_tenantctl.Networks.{NetworkCalls, Router}
use openstack_tenantctl.Networks.Stack.{net_name, ensure_network_stack}
use openstack_tenantctl.Networks.Single.{HasNetworks, Grown}
use openstack_tenantctl.Networks.Partial.{Finds, LeftAlone, ensure_network_stack_never_completed}
use openstack_tenantctl.PreallocNetwork.{ensure_preallocated_network}
use openstack_tenantctl.PreallocNetwork.Single.{one_network}
use openstack_tenantctl.Context.Retry.{is_retryable}
use openstack_tenantctl.ExternalNetwork.{resolve_project_external_network}
use openstack_tenantctl.Networks.Tracking.{snapshot, external_ips, track_router_ips}
use openstack_tenantctl.Networks.Audit.{released_addresses}
use openstack_tenantctl.Networks.Tracked.{track_router_ips_conserves}
use openstack_tenantctl.Samples.{simple_retry, sample_project, live}

abbrev quiet_neutron : {C : Type 0} → Neutron C
quiet_neutron = record {
  ips = λ project_id c. (ok [], c);
  create_ip = λ args c. (raised conflict, c);
  delete_ip = λ id c. (ok tt, c);
  update_quota = λ project_id n c. (ok tt, c);
  get_quota_details = λ project_id c. (ok (usage none), c);
  routers = λ project_id c. (ok [], c);
  find_subnet = λ name c. (ok none, c);
  subnets = λ net c. (ok [], c);
  now = λ c. ("2026-01-01", c);
}

not_empty : (s : String) → s ∷ [] ≢ []
not_empty s h = cc

abbrev Names : Type 0
Names = List String

-- The creation of a subnet is refused.
abbrev no_subnets : NetworkCalls Names
no_subnets = record {
  find_network = λ name project_id c. (ok (if contains c name then some "n1" else none), c);
  networks = λ project_id c. (ok c, c);
  routers = λ project_id c. (ok [], c);
  create_network = λ n c. (ok "n1", c ++ n.name ∷ []);
  create_subnet = λ n c. (raised conflict, c);
  create_router = λ n c. (ok "r1", c);
  add_interface_to_router = λ r s c. (ok tt, c);
}

no_subnets-HasNetworks : HasNetworks quiet_neutron no_subnets "p1" (λ c. c)
no_subnets-HasNetworks = record {
  find_network = λ name c. refl;
  networks = λ c. refl;
  listed = λ c names h. cc;
  created = λ n c c' id e h. cc;
  not_created = λ n c c' e h. absurd (cc);
  create_subnet = λ n c. refl;
  create_router = λ n c. refl;
  add_interface_to_router = λ r s c. refl;
  find_subnet = λ name c. refl;
  subnets = λ net c. refl;
  now = λ c. refl;
}

no_subnets-Finds : Finds no_subnets "p1" (λ c. c)
no_subnets-Finds name c h = ("n1", rw h)

abbrev one_subnet : NetworkConfig
one_subnet = record {
  subnet = record {
    cidr = "10.0.0.0/24";
    gateway_ip = "10.0.0.1";
    allocation_pools = [];
    dns_nameservers = [];
    enable_dhcp = true;
  };
  mtu = pos 0;
}

abbrev networked : ProjectConfig
networked = record (sample_project "a" present) { network = some one_subnet }

abbrev bare : World Names Memory
bare = record { cloud = []; store = []; ctx = live }

one_network_example :
    Grown
      (net_name networked)
      []
      ((ensure_network_stack quiet_neutron no_subnets simple_retry memory_store networked "p1"
          >> ensure_preallocated_network quiet_neutron no_subnets simple_retry memory_store
              networked "p1")
        bare).1.cloud
one_network_example =
    one_network quiet_neutron no_subnets simple_retry memory_store "p1" (λ c. c)
      no_subnets-HasNetworks networked bare

-- The run that fails has created the network.
half_done :
    (ensure_network_stack quiet_neutron no_subnets simple_retry memory_store networked "p1"
      bare).1.cloud
    ≡ "t-network" ∷ []
unfolding ensure_network_stack simple_retry is_retryable string_eq resolve_project_external_network
half_done = refl

abbrev after_failure : World Names Memory
after_failure = record bare { cloud = "t-network" ∷ [] }

ensure_network_stack_never_completed_example :
    LeftAlone quiet_neutron no_subnets simple_retry memory_store "p1"
      (λ c. c)
      networked
      after_failure
      (ensure_network_stack quiet_neutron no_subnets simple_retry memory_store networked "p1"
        after_failure)
ensure_network_stack_never_completed_example =
    ensure_network_stack_never_completed quiet_neutron no_subnets simple_retry memory_store "p1"
      (λ c. c) networked bare after_failure no_subnets-HasNetworks no_subnets-Finds
      (λ same. not_empty _ (sym half_done ∙ same)) (sym half_done)

-- Routers.
abbrev Routers : Type 0
Routers = List Router

abbrev router : String → String → Router
router id address = record {
  id = id;
  name = id;
  external_gateway_info =
      some record { network_id = some "net"; external_fixed_ips = some address ∷ [] };
}

abbrev routed : NetworkCalls Routers
routed = record {
  find_network = λ name project_id c. (ok none, c);
  networks = λ project_id c. (ok [], c);
  routers = λ project_id c. (ok c, c);
  create_network = λ n c. (ok "n1", c);
  create_subnet = λ n c. (ok "s1", c);
  create_router = λ n c. (ok "r1", c);
  add_interface_to_router = λ r s c. (ok tt, c);
}

abbrev entry : String → String → RouterIpEntry
entry id address = record { id = id; name = id; external_ip = address }

-- One tracked router is gone, and another has moved to a new address.
abbrev tracked : ProjectConfig
tracked = record (sample_project "a" present) {
  router_ips = entry "r1" "1.1.1.1" ∷ entry "r2" "2.2.2.2" ∷ [];
}

abbrev routed_world : World Routers Memory
routed_world = record {
  cloud = router "r2" "3.3.3.3" ∷ [];
  store =
      (
        "a",
        field "router_ips" (dict_list router_ip_to_dict tracked.router_ips)
            (field "released_router_ips" (dict_list released_router_ip_to_dict []) end),
      )
      ∷ [];
  ctx = live;
}

track_router_ips_conserves_example :
    (actions : List Action) × (u : World Routers Memory) × (released : List ReleasedRouterIpEntry)
    × (track_router_ips quiet_neutron routed simple_retry memory_store tracked "p1" routed_world
        ≡ (ok actions, u))
    × (get "router_ips" (Memory.load "a" u.store)
        ≡ some (dict_list router_ip_to_dict (snapshot (router "r2" "3.3.3.3" ∷ []))))
    × (get "released_router_ips" (Memory.load "a" u.store)
        ≡ some (dict_list released_router_ip_to_dict released))
    × (contains (released_addresses released) "2.2.2.2"
        ≡ not (contains (external_ips (snapshot (router "r2" "3.3.3.3" ∷ []))) "2.2.2.2"))
unfolding memory_store Memory.load string_eq Dict.get get resolve_project_external_network
track_router_ips_conserves_example =
    track_router_ips_conserves quiet_neutron routed simple_retry memory_store memory_store-IsLawful
      tracked "p1" routed_world (router "r2" "3.3.3.3" ∷ []) (router "r2" "3.3.3.3" ∷ [])
      ("net", "") routed_world "2.2.2.2" tt refl refl refl refl refl refl refl (refl, (refl, tt))
      refl
