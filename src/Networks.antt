-- ===== src/Networks.antt =====
-- What the network stack of a project is made of: the calls of `conn.network` that
-- src/resources/network.py uses, each with the retrying of its function, and what it reads of a
-- router. The calls are parameters.
pub mod Stack
pub mod Tracking
pub mod Single
pub mod Lost
pub mod Audit
pub mod Tracked
pub mod Partial
use openstack_tenantctl.Base.{
  Bool, true, false, ◌&&◌, not, Option, none, some, List, [], ◌∷◌, String, ◌==◌, string_eq,
  if◌then◌else◌, Act, ok,
}
use openstack_tenantctl.Base.Int.{ℤ, pos, leb_ℤ}
use openstack_tenantctl.Cloud.{Neutron, Tenacity}
use openstack_tenantctl.Models.{ProjectConfig}
use openstack_tenantctl.Models.Network.{AllocationPool, RouterIpEntry}
use openstack_tenantctl.Context.{Details, lit, World, on_cloud}
use openstack_tenantctl.Context.Retry.{retried}
use openstack_tenantctl.ExternalNetwork.{is_empty}

-- The dict `external_gateway_info` of a router, each of its fixed IPs by its "ip_address".
pub record Gateway : Type 0 where
  pub network_id : Option String
  pub external_fixed_ips : List (Option String)

-- A router of the SDK. No gateway stands for what is not a dict.
pub record Router : Type 0 where
  pub id : String
  pub name : String
  pub external_gateway_info : Option Gateway

-- The keyword arguments of the calls that create. An option may be left out.
pub record NewNetwork : Type 0 where
  pub name : String
  pub project_id : String
  pub mtu : Option ℤ

-- `enable_dhcp` and the rest; `ip_version` is always 4.
pub record NewSubnet : Type 0 where
  pub name : String
  pub network_id : String
  pub project_id : String
  pub cidr : String
  pub gateway_ip : String
  pub allocation_pools : List AllocationPool
  pub dns_nameservers : List String
  pub enable_dhcp : Bool

-- One entry of `external_fixed_ips`.
pub record FixedIp : Type 0 where
  pub ip_address : Option String
  pub subnet_id : Option String

pub record NewGateway : Type 0 where
  pub network_id : String
  pub external_fixed_ips : Option FixedIp

pub record NewRouter : Type 0 where
  pub name : String
  pub project_id : String
  pub external_gateway_info : Option NewGateway

-- The calls of `conn.network`: the id of the network of a name, the names of all networks of a
-- project, its routers, and the calls that create, which return an id.
pub record NetworkCalls (C : Type 0) : Type 0 where
  pub find_network : String → String → Act C (Option String)
  pub networks : String → Act C (List String)
  pub routers : String → Act C (List Router)
  pub create_network : NewNetwork → Act C String
  pub create_subnet : NewSubnet → Act C String
  pub create_router : NewRouter → Act C String
  pub add_interface_to_router : String → String → Act C (Unit {0})

-- ", ".join(names)
unfoldable pub names_part : List String → Details
names_part [] = []
names_part (n ∷ []) = lit n ∷ []
names_part (n ∷ m ∷ names) = lit n ∷ lit ", " ∷ names_part (m ∷ names)

-- A keyword argument that is given only if it is not empty.
unless_empty : String → Option String
unfolding is_empty
unless_empty s = if is_empty s then none else some s

-- The fixed IP that a new router asks for: an address, or else a subnet alone, or else none.
unfoldable pub wanted_fixed_ip : String → String → Option FixedIp
unfolding unless_empty is_empty
wanted_fixed_ip external_subnet_id external_fixed_ip =
    if is_empty external_fixed_ip && is_empty external_subnet_id
    then none
    else some record {
      ip_address = unless_empty external_fixed_ip;
      subnet_id = unless_empty external_subnet_id;
    }

unfoldable pub new_router : String → String → String → String → String → NewRouter
unfolding wanted_fixed_ip is_empty
new_router router_name project_id external_net_id external_subnet_id external_fixed_ip = record {
  name = router_name;
  project_id = project_id;
  external_gateway_info =
      if is_empty external_net_id
      then none
      else some record {
        network_id = external_net_id;
        external_fixed_ips = wanted_fixed_ip external_subnet_id external_fixed_ip;
      };
}

-- The last-known address of the first router of a name, or "".
address_of : List RouterIpEntry → String → String
address_of [] router_name = ""
address_of (entry ∷ entries) router_name =
    if entry.name == router_name then entry.external_ip else address_of entries router_name

unfoldable pub find_previous_router_ip : ProjectConfig → String → String
unfolding address_of
find_previous_router_ip cfg router_name = address_of cfg.router_ips router_name

first_address : List (Option String) → Option String
first_address [] = none
first_address (ip ∷ ips) = ip

unfoldable pub get_router_external_ip : Router → Option String
unfolding first_address
get_router_external_ip router = elim router.external_gateway_info [
  | none ↦ none
  | some gateway_info ↦ first_address gateway_info.external_fixed_ips
]

module _ {C : Type 0} (K : NetworkCalls C) (T : Tenacity) where
  unfoldable pub find_network : String → String → Act C (Option String)
  unfolding retried
  find_network name project_id = retried T (K.find_network name project_id)

  -- The MTU is given only if it is positive.
  unfoldable pub create_network : String → String → ℤ → Act C String
  unfolding retried
  create_network net_name project_id mtu = retried T (
      K.create_network record {
        name = net_name;
        project_id = project_id;
        mtu = if leb_ℤ (pos 1) mtu then some mtu else none;
      })

  unfoldable pub create_subnet : NewSubnet → Act C String
  unfolding retried
  create_subnet subnet = retried T (K.create_subnet subnet)

  unfoldable pub create_router : String → String → String → String → String → Act C String
  unfolding retried new_router
  create_router router_name project_id external_net_id external_subnet_id external_fixed_ip =
      retried T (
        K.create_router
          (new_router router_name project_id external_net_id external_subnet_id external_fixed_ip))

  unfoldable pub add_interface_to_router : String → String → Act C (Unit {0})
  unfolding retried
  add_interface_to_router router_id subnet_id =
      retried T (K.add_interface_to_router router_id subnet_id)

  unfoldable pub list_project_routers : String → Act C (List Router)
  unfolding retried
  list_project_routers project_id = retried T (K.routers project_id)

-- datetime.now(UTC).isoformat()
abbrev pub utc_now : {C S : Type 0} → Neutron C → Act (World C S) String
utc_now N = on_cloud (λ c. let (t, c') = N.now c in (ok t, c'))
