-- ===== src/Fips/Tracking.antt =====
-- What drift reconciliation leaves tracked, and what scaling down deletes.
use openstack_tenantctl.Base.{
  ℕ, not, ◌&&◌, none, List, [], ◌∷◌, ◌++◌, map, ◌≡◌, refl, arith, String, contains, string_eq, keep,
  All, All-take, contains-keep, map-append-contains,
}
use openstack_tenantctl.Cloud.{FloatingIp}
use openstack_tenantctl.Models.{FipEntry, from_sdk}
use openstack_tenantctl.Fips.{
  config_ids, openstack_ids, detect_fip_drift, surviving, is_unused, to_delete,
}

config_ids-from_sdk : (fips : List FloatingIp) → config_ids (map from_sdk fips) ≡ openstack_ids fips
unfolding from_sdk
config_ids-from_sdk [] = refl
config_ids-from_sdk (f ∷ fips) = rw (config_ids-from_sdk fips)

abbrev missing_of : List FipEntry → List FloatingIp → List FipEntry
missing_of config_fips openstack_fips = (detect_fip_drift config_fips openstack_fips).0

abbrev untracked_of : List FipEntry → List FloatingIp → List FloatingIp
untracked_of config_fips openstack_fips = (detect_fip_drift config_fips openstack_fips).1

module _ (config_fips : List FipEntry) (openstack_fips : List FloatingIp) (id : String) where
  pub contains-missing :
      contains (config_ids (missing_of config_fips openstack_fips)) id
      ≡ (not (contains (openstack_ids openstack_fips) id) && contains (config_ids config_fips) id)
  unfolding detect_fip_drift
  contains-missing =
      contains-keep (λ (f : FipEntry). f.id) (λ i. not (contains (openstack_ids openstack_fips) i))
        config_fips id

  pub contains-untracked :
      contains (openstack_ids (untracked_of config_fips openstack_fips)) id
      ≡ (not (contains (config_ids config_fips) id) && contains (openstack_ids openstack_fips) id)
  unfolding detect_fip_drift
  contains-untracked =
      contains-keep (λ (f : FloatingIp). f.id) (λ i. not (contains (config_ids config_fips) i))
        openstack_fips id

contains-surviving :
    (config_fips missing : List FipEntry) (id : String)
    → contains (config_ids (surviving config_fips missing)) id
      ≡ (not (contains (config_ids missing) id) && contains (config_ids config_fips) id)
unfolding surviving
contains-surviving config_fips missing id =
    contains-keep (λ (f : FipEntry). f.id) (λ i. not (contains (config_ids missing) i)) config_fips
      id

-- Without the missing entries and with the untracked floating IPs adopted, the tracked ids are
-- those of the floating IPs that exist.
pub drift_tracks :
    (config_fips : List FipEntry) (openstack_fips : List FloatingIp) (id : String)
    → contains
        (config_ids (
          surviving config_fips (missing_of config_fips openstack_fips)
          ++ map from_sdk (untracked_of config_fips openstack_fips)))
        id
      ≡ contains (openstack_ids openstack_fips) id
drift_tracks config_fips openstack_fips id =
    let missing = missing_of config_fips openstack_fips in
    let untracked = untracked_of config_fips openstack_fips in
    rw
      (map-append-contains (λ (f : FipEntry). f.id) (surviving config_fips missing)
        (map from_sdk untracked) id)
      (rw (config_ids-from_sdk untracked, contains-surviving config_fips missing id)
        (ground (
          arith,
          contains-missing config_fips openstack_fips id,
          contains-untracked config_fips openstack_fips id,
        )))

All-unused :
    (fips : List FloatingIp) → All (λ (f : FloatingIp). f.port_id ≡ none) (keep is_unused fips)
unfolding is_unused
All-unused [] = tt
All-unused (f ∷ fips) = ground (arith, All-unused fips)

-- Deleting spares every floating IP in use, and takes the unused ones up to the excess.
pub to_delete_unused :
    (fips : List FloatingIp) (excess : ℕ)
    → All (λ (f : FloatingIp). f.port_id ≡ none) (to_delete fips excess)
unfolding to_delete
to_delete_unused fips excess =
    All-take (λ (f : FloatingIp). f.port_id ≡ none) excess _ (All-unused fips)
