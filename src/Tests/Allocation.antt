-- ===== src/Tests/Allocation.antt =====
-- A dry run of the pre-allocation, and the released floating IPs of a project.
use openstack_tenantctl.Base.{
  contains, not, ◌&&◌, ◌||◌, String, true, none, some, List, [], ◌∷◌, ◌++◌, ◌≡◌, refl, String,
  string_eq, ok, ok_witness, ◌>>◌, map, length, ◌+◌, arith,
}
use openstack_tenantctl.Cloud.{FloatingIp}
use openstack_tenantctl.Base.Dict
use openstack_tenantctl.Base.Int.{pos}
use openstack_tenantctl.Models.{
  ProjectConfig, FipEntry, ReleasedFipEntry, fip_to_dict, released_to_dict, dict_list, from_sdk,
  present,
}
use openstack_tenantctl.Store.{serialize_value, end, field, get}
use openstack_tenantctl.Store.Memory
use openstack_tenantctl.Store.Memory.{Memory, memory_store, memory_store-IsLawful}
use openstack_tenantctl.Context.{Action, World}
use openstack_tenantctl.Fips.{all_released}
use openstack_tenantctl.Fips.Persist.{persist_fips, reconcile_released_fips}
use openstack_tenantctl.Fips.Released.{
  addresses, released_addresses, reconcile_released_fips_disjoint,
}
use openstack_tenantctl.Fips.Scale.{scale_up_fips}
use openstack_tenantctl.Fips.ScaleUp.{scale_up_fips_tracks}
use openstack_tenantctl.Fips.Ensure.{ensure_preallocated_fips}
use openstack_tenantctl.Fips.DryRun.{ListingsKeep, ensure_preallocated_fips_dry_run}
use openstack_tenantctl.Fips.Preview.{ensure_preallocated_fips_no_drift}
use openstack_tenantctl.Samples.{
  simple_retry, sample_ip, SampleCloud, sample_neutron, sample_project, sample_world,
}

abbrev two_wanted : ProjectConfig
two_wanted = record (sample_project "dev" present) {
  quotas =
      some (record { compute = []; network = ("floating_ips", pos 2) ∷ []; block_storage = [] });
  preallocated_fips = from_sdk (sample_ip "gone" none) ∷ [];
}

abbrev dry_world : World SampleCloud Memory
dry_world = record sample_world { ctx = record (sample_world.ctx) { dry_run = true } }

abbrev Unchanged : SampleCloud → Type 0
Unchanged c = c ≡ sample_world.cloud

listings_keep : ListingsKeep sample_neutron Unchanged
listings_keep = record {
  ips = λ project_id c p. p;
  routers = λ project_id c p. p;
  find_subnet = λ name c p. p;
  subnets = λ net c p. p;
}

ensure_preallocated_fips_dry_run_example :
    ((ensure_preallocated_fips sample_neutron simple_retry memory_store two_wanted "p1"
        dry_world).1.store
      ≡ [])
    × ((ensure_preallocated_fips sample_neutron simple_retry memory_store two_wanted "p1"
          dry_world).1.cloud
        ≡ sample_world.cloud)
ensure_preallocated_fips_dry_run_example =
    ensure_preallocated_fips_dry_run sample_neutron simple_retry memory_store listings_keep
      two_wanted "p1" dry_world refl refl

ensure_preallocated_fips_no_drift_example :
    ensure_preallocated_fips sample_neutron simple_retry memory_store
      (record two_wanted { preallocated_fips = [] })
      "p1"
      dry_world
    ≡ ensure_preallocated_fips sample_neutron simple_retry memory_store two_wanted "p1" dry_world
ensure_preallocated_fips_no_drift_example =
    ensure_preallocated_fips_no_drift sample_neutron simple_retry memory_store two_wanted [] "p1"
      dry_world refl

abbrev released : String → ReleasedFipEntry
released address = record {
  address = address;
  released_at = "2026-01-01";
  reason = "FIP deleted externally";
  port_id = none;
  device_id = none;
  device_owner = none;
}

-- "a" was released before, and is active again.
abbrev returned : ProjectConfig
returned = record (sample_project "dev" present) {
  released_fips = released "a" ∷ released "x" ∷ [];
}

abbrev active : List FipEntry
active = from_sdk (sample_ip "a" none) ∷ []

abbrev released_world : World SampleCloud Memory
released_world = record sample_world {
  store =
      (
        "dev",
        field "released_fips" (dict_list released_to_dict (released "a" ∷ released "x" ∷ [])) end,
      )
      ∷ [];
}

reconcile_released_fips_disjoint_example :
    (u : World SampleCloud Memory) × (rs : List ReleasedFipEntry) × ((persist_fips memory_store
            returned active
          >> reconcile_released_fips memory_store returned active (released "y" ∷ []))
        released_world
      ≡ (ok tt, u))
    × (get "preallocated_fips" (Memory.load "dev" u.store) ≡ some (dict_list fip_to_dict active))
    × (get "released_fips" (Memory.load "dev" u.store) ≡ some (dict_list released_to_dict rs))
    × ((a : String)
        → contains (released_addresses rs) a ≡ (
            not (contains (addresses active) a)
            && (contains (released_addresses (released "a" ∷ released "x" ∷ [])) a
                || contains (released_addresses (released "y" ∷ [])) a)))
unfolding memory_store Memory.load string_eq Dict.get get
reconcile_released_fips_disjoint_example =
    reconcile_released_fips_disjoint memory_store memory_store-IsLawful returned active
      (released "y" ∷ []) released_world tt refl refl

two_left :
    all_released active (released "a" ∷ released "x" ∷ []) (released "y" ∷ [])
    ≡ released "x" ∷ released "y" ∷ []
unfolding all_released string_eq from_sdk
two_left = refl

abbrev one_there : List FloatingIp
one_there = sample_ip "a" none ∷ []

-- Two more are allocated.
abbrev scaled_up :
    (actions : List Action) × (v : World SampleCloud Memory) × (scale_up_fips sample_neutron
        simple_retry memory_store returned "p1" one_there 1
        (pos 3)
        "net"
        ""
        sample_world
      ≡ (ok actions, v))
unfolding scale_up_fips simple_retry memory_store Memory.save string_eq serialize_value
scaled_up =
    ok_witness
      (scale_up_fips sample_neutron simple_retry memory_store returned "p1" one_there 1 (pos 3)
        "net" "" sample_world)
      refl

scale_up_fips_tracks_example :
    (new : List FipEntry) × (1 + length new ≡ 3)
    × (get "preallocated_fips" (Memory.load "dev" scaled_up.1.store)
        ≡ some (dict_list fip_to_dict (map from_sdk one_there ++ new)))
unfolding memory_store
scale_up_fips_tracks_example =
    scale_up_fips_tracks sample_neutron simple_retry memory_store memory_store-IsLawful returned
      "p1" one_there 3 "net" "" sample_world scaled_up.1 scaled_up.0 tt refl (omega arith)
      scaled_up.2
