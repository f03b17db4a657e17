-- ===== src/Models/Network.antt =====
-- The network of a project's configuration and the router addresses of its state file:
-- src/models/network.py, and `RouterIpEntry` and `ReleasedRouterIpEntry` of src/models/state.py.
use openstack_tenantctl.Base.{Bool, List, String, Eq, string_eq}
use openstack_tenantctl.Base.Int.{ℤ}
use openstack_tenantctl.Store.{Value, str, mapping, end, field}

pub record AllocationPool : Type 0 where
  pub start : String
  pub last : String

pub record SubnetConfig : Type 0 where
  pub cidr : String
  pub gateway_ip : String
  pub allocation_pools : List AllocationPool
  pub dns_nameservers : List String
  pub enable_dhcp : Bool

pub record NetworkConfig : Type 0 where
  pub subnet : SubnetConfig
  pub mtu : ℤ

pub record RouterIpEntry : Type 0 where
  pub id : String
  pub name : String
  pub external_ip : String

unfoldable pub router_ip_to_dict : RouterIpEntry → Value
router_ip_to_dict e = mapping (
    field "id" (str e.id) (field "name" (str e.name) (field "external_ip" (str e.external_ip) end)))

pub record ReleasedRouterIpEntry : Type 0 where
  pub address : String
  pub router_name : String
  pub released_at : String
  pub reason : String

unfoldable pub released_router_ip_to_dict : ReleasedRouterIpEntry → Value
released_router_ip_to_dict r = mapping (
    field "address" (str r.address) (
      field "router_name" (str r.router_name)
        (field "released_at" (str r.released_at) (field "reason" (str r.reason) end))))

string_dec : Discrete String
unfolding string_eq
string_dec = string_eq.dec

RouterIpEntry-discrete : Discrete RouterIpEntry
RouterIpEntry-discrete = hlevel string_dec

ReleasedRouterIpEntry-discrete : Discrete ReleasedRouterIpEntry
ReleasedRouterIpEntry-discrete = hlevel string_dec

router_ips_dec : Discrete (List RouterIpEntry)
router_ips_dec = hlevel RouterIpEntry-discrete

released_router_ips_dec : Discrete (List ReleasedRouterIpEntry)
released_router_ips_dec = hlevel ReleasedRouterIpEntry-discrete

-- Dataclasses compare by their fields.
instance unfoldable pub router_ips_eq : Eq (List RouterIpEntry)
unfolding router_ips_dec RouterIpEntry-discrete string_dec
router_ips_eq = record { dec = router_ips_dec }

instance unfoldable pub released_router_ips_eq : Eq (List ReleasedRouterIpEntry)
unfolding released_router_ips_dec ReleasedRouterIpEntry-discrete string_dec
released_router_ips_eq = record { dec = released_router_ips_dec }
