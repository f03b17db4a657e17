-- ===== src/Models.antt =====
-- The configuration of a project and the entries of its state file: `LifetimeConfig`,
-- `QuotaConfig`, `ProjectConfig`, `FipEntry` and `ReleasedFipEntry` of src/models/. The fields
-- that no modelled function reads are left out. An instant is a number of time units since
-- a fixed one, since the program only compares instants.
pub mod Lifecycle
pub mod Reservations
pub mod Network
pub mod Security
pub mod Federation
use openstack_tenantctl.Base.{
  ℕ, Bool, true, false, Option, none, some, List, [], ◌∷◌, String, Eq, string_eq,
}
use openstack_tenantctl.Base.Dict.{Dict}
use openstack_tenantctl.Base.Int.{ℤ}
use openstack_tenantctl.Cloud.{FloatingIp}
use openstack_tenantctl.Models.Reservations.{
  ReservationConfig, GrantedFlavorAccessEntry, RevokedFlavorAccessEntry,
}
use openstack_tenantctl.Models.Network.{NetworkConfig, RouterIpEntry, ReleasedRouterIpEntry}
use openstack_tenantctl.Models.Security.{SecurityGroupConfig}
use openstack_tenantctl.Models.Federation.{FederationConfig}
use openstack_tenantctl.Store.{
  Value, null, str, sequence, mapping, Items, no_items, item, Fields, end, field,
}

pub data ProjectState : Type 0 where
  present locked absent : ProjectState

-- `lifetime.action`, which validation restricts to "lock" and "delete".
pub data LifetimeAction : Type 0 where
  lock delete : LifetimeAction

pub record LifetimeConfig : Type 0 where
  pub until : ℕ
  pub action : LifetimeAction

pub record QuotaConfig : Type 0 where
  pub compute : Dict String ℤ
  pub network : Dict String ℤ
  pub block_storage : Dict String ℤ

pub record FipEntry : Type 0 where
  pub id : String
  pub address : String
  pub port_id : Option String
  pub fixed_ip_address : Option String
  pub status : Option String
  pub router_id : Option String
  pub created_at : Option String
  pub device_id : Option String
  pub device_owner : Option String

unfoldable pub from_sdk : FloatingIp → FipEntry
from_sdk fip = record {
  id = fip.id;
  address = fip.floating_ip_address;
  port_id = fip.port_id;
  fixed_ip_address = fip.fixed_ip_address;
  status = fip.status;
  router_id = fip.router_id;
  created_at = fip.created_at;
  device_id = fip.port_device_id;
  device_owner = fip.port_device_owner;
}

unfoldable pub optional : Option String → Value
optional none = null
optional (some s) = str s

unfoldable pub fip_to_dict : FipEntry → Value
unfolding optional
fip_to_dict f = mapping (
    field "id" (str f.id) (
      field "address" (str f.address) (
        field "port_id" (optional f.port_id) (
          field "fixed_ip_address" (optional f.fixed_ip_address) (
            field "status" (optional f.status) (
              field "router_id" (optional f.router_id) (
                field "created_at" (optional f.created_at) (
                  field "device_id" (optional f.device_id)
                    (field "device_owner" (optional f.device_owner) end)))))))))

pub record ReleasedFipEntry : Type 0 where
  pub address : String
  pub released_at : String
  pub reason : String
  pub port_id : Option String
  pub device_id : Option String
  pub device_owner : Option String

unfoldable pub released_to_dict : ReleasedFipEntry → Value
unfolding optional
released_to_dict r = mapping (
    field "address" (str r.address) (
      field "released_at" (str r.released_at) (
        field "reason" (str r.reason) (
          field "port_id" (optional r.port_id) (
            field "device_id" (optional r.device_id)
              (field "device_owner" (optional r.device_owner) end))))))

-- [f(x) for x in xs], as a value of the state file.
items : {A : Type 0} → (A → Value) → List A → Items
items f [] = no_items
items f (x ∷ xs) = item (f x) (items f xs)

unfoldable pub dict_list : {A : Type 0} → (A → Value) → List A → Value
unfolding items
dict_list f xs = sequence (items f xs)

-- `state` is "present" or "absent".
pub record GroupRoleAssignment : Type 0 where
  pub group : String
  pub roles : List String
  pub state : String

pub record ProjectConfig : Type 0 where
  pub name : String
  pub enabled : Bool
  pub state : ProjectState
  pub domain_id : String
  pub domain : Option String
  pub resource_prefix : String
  pub description : String
  pub reclaim_floating_ips : Bool
  pub track_fip_changes : Bool
  pub external_network_name : String
  pub external_network_subnet : String
  pub network : Option NetworkConfig
  pub quotas : Option QuotaConfig
  pub lifetime : Option LifetimeConfig
  pub state_key : String
  pub preallocated_fips : List FipEntry
  pub released_fips : List ReleasedFipEntry
  pub group_role_assignments : List GroupRoleAssignment
  pub reservations : List ReservationConfig
  pub granted_flavor_access : List GrantedFlavorAccessEntry
  pub revoked_flavor_access : List RevokedFlavorAccessEntry
  pub security_group : Option SecurityGroupConfig
  pub federation : Option FederationConfig
  pub reclaim_router_ips : Bool
  pub router_ips : List RouterIpEntry
  pub released_router_ips : List ReleasedRouterIpEntry

string_dec : Discrete String
unfolding string_eq
string_dec = string_eq.dec

ReleasedFipEntry-discrete : Discrete ReleasedFipEntry
ReleasedFipEntry-discrete = hlevel string_dec

released_list_dec : Discrete (List ReleasedFipEntry)
released_list_dec = hlevel ReleasedFipEntry-discrete

-- Dataclasses compare by their fields.
instance unfoldable pub released_list_eq : Eq (List ReleasedFipEntry)
unfolding released_list_dec ReleasedFipEntry-discrete string_dec
released_list_eq = record { dec = released_list_dec }
