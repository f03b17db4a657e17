-- ===== src/Fips.antt =====
-- Pre-allocated floating IPs: src/resources/prealloc/fip.py. This file has what is decided without
-- a call; the children have the steps that call the cloud, and the theorems.
pub mod Quota
pub mod Persist
pub mod Drift
pub mod Scale
pub mod Ensure
pub mod Tracking
pub mod Remaining
pub mod Unlimited
pub mod Released
pub mod ScaleUp
pub mod Deleting
pub mod ScaleDown
pub mod DryRun
pub mod Preview
use openstack_tenantctl.Base.{
  ℕ, ◌-◌, Bool, true, false, Option, none, some, List, [], ◌∷◌, ◌++◌, map, String, ◌==◌, not,
  contains, string_eq, option_eq, if◌then◌else◌, keep, take, length,
}
use openstack_tenantctl.Cloud.{FloatingIp}
use openstack_tenantctl.Models.{FipEntry, ReleasedFipEntry}

-- `_partition_fips_by_network`: the floating IPs of the network, and the foreign ones.
unfoldable pub partition_fips_by_network :
    List FloatingIp → String → List FloatingIp × List FloatingIp
partition_fips_by_network [] external_net_id = ([], [])
partition_fips_by_network (fip ∷ fips) external_net_id =
    let (matching, foreign) = partition_fips_by_network fips external_net_id in
    if fip.floating_network_id == some external_net_id
    then (fip ∷ matching, foreign)
    else (matching, fip ∷ foreign)

abbrev pub config_ids : List FipEntry → List String
config_ids = map (λ (f : FipEntry). f.id)

abbrev pub openstack_ids : List FloatingIp → List String
openstack_ids = map (λ (f : FloatingIp). f.id)

-- `_detect_fip_drift`: the entries whose id is gone, and the floating IPs that no entry has.
unfoldable pub detect_fip_drift : List FipEntry → List FloatingIp → List FipEntry × List FloatingIp
detect_fip_drift config_fips openstack_fips = (
  keep (λ f. not (contains (openstack_ids openstack_fips) f.id)) config_fips,
  keep (λ f. not (contains (config_ids config_fips) f.id)) openstack_fips,
)

-- The entries of `_reconcile_released_fips`: old and new ones whose address is not active.
unfoldable pub all_released :
    List FipEntry → List ReleasedFipEntry → List ReleasedFipEntry → List ReleasedFipEntry
all_released active_fips released newly_released =
    keep (λ r. not (contains (map (λ f. f.address) active_fips) r.address))
      (released ++ newly_released)

-- The entries that stay after drift: those whose id is not among the missing ones.
unfoldable pub surviving : List FipEntry → List FipEntry → List FipEntry
surviving config_fips missing = keep (λ f. not (contains (config_ids missing) f.id)) config_fips

unfoldable pub is_unused : FloatingIp → Bool
is_unused f = elim f.port_id [ none ↦ true | some p ↦ false ]

-- The floating IPs that `_scale_down_fips` deletes, and those that remain.
unfoldable pub to_delete : List FloatingIp → ℕ → List FloatingIp
unfolding is_unused
to_delete existing_fips excess = take excess (keep is_unused existing_fips)

unfoldable pub remaining_fips : List FloatingIp → List FloatingIp → List FloatingIp
remaining_fips existing_fips deleted =
    keep (λ f. not (contains (openstack_ids deleted) f.id)) existing_fips
