-- ===== src/Fips/ScaleDown.antt =====
-- What a run of `_scale_down_fips` of src/resources/prealloc/fip.py comes to: which floating IPs it tracks
-- and which are gone.
use openstack_tenantctl.Base.{true, false, List, ◌≡◌, String, contains, string_eq, ◌⊎◌}
use openstack_tenantctl.Cloud.{FloatingIp}
use openstack_tenantctl.Fips.{openstack_ids, is_unused}

abbrev Spared : List FloatingIp → FloatingIp → Type 0
Spared doomed f = is_unused f ≡ false → contains (openstack_ids doomed) f.id ≡ false

-- What becomes of a floating IP: it is tracked, or it is unused and has what the deleted ones have.
abbrev pub TrackedOrGone : List FloatingIp → (String → Type 0) → FloatingIp → Type 0
TrackedOrGone left P f =
    (contains (openstack_ids left) f.id ≡ true) ⊎ ((is_unused f ≡ true) × P f.id)
