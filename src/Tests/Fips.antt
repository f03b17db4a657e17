-- ===== src/Tests/Fips.antt =====
-- Pre-allocated floating IPs of a small cloud.
use openstack_tenantctl.Base.{
  String, true, not, ◌==◌, ◌&&◌, ==_iff, contains-keep, subst, ap, ◌∙◌, ok, ok_witness, false, none,
  some, List, [], ◌∷◌, ◌++◌, map, ◌≡◌, refl, arith, string_eq, contains, All, keep,
}
use openstack_tenantctl.Base.Int.{pos, negsuc, int_eq}
use openstack_tenantctl.Cloud.{FloatingIp}
use openstack_tenantctl.Models.{FipEntry, from_sdk, present, fip_to_dict, dict_list}
use openstack_tenantctl.Store.{get, serialize_value}
use openstack_tenantctl.Store.Memory
use openstack_tenantctl.Context.{Action, World}
use openstack_tenantctl.Fips.Deleting.{Deletes}
use openstack_tenantctl.Store.Memory.{Memory, memory_store, memory_store-IsLawful}
use openstack_tenantctl.Fips.{
  config_ids, openstack_ids, detect_fip_drift, surviving, is_unused, to_delete,
}
use openstack_tenantctl.Fips.Tracking.{drift_tracks}
use openstack_tenantctl.Fips.Remaining.{InUse}
use openstack_tenantctl.Fips.Scale.{scale_down_fips}
use openstack_tenantctl.Fips.Ensure.{scale_fips}
use openstack_tenantctl.Fips.Unlimited.{scale_fips_unlimited}
use openstack_tenantctl.Samples.{
  simple_retry, sample_ip, SampleCloud, sample_neutron, sample_project, sample_world,
}

abbrev there : List FloatingIp
there = sample_ip "a" (some "port") ∷ sample_ip "b" none ∷ sample_ip "c" none ∷ []

abbrev tracked : List FipEntry
tracked = from_sdk (sample_ip "a" none) ∷ from_sdk (sample_ip "gone" none) ∷ []

drift_tracks_example :
    contains
      (config_ids (
        surviving tracked (detect_fip_drift tracked there).0
        ++ map from_sdk (detect_fip_drift tracked there).1))
      "b"
    ≡ contains (openstack_ids there) "b"
drift_tracks_example = drift_tracks tracked there "b"

one_deleted : to_delete there 1 ≡ sample_ip "b" none ∷ []
unfolding to_delete
one_deleted = refl

-- The floating IPs that the small cloud does not have.
abbrev Gone : String → SampleCloud → Type 0
Gone i c = contains (openstack_ids c) i ≡ false

removed-Gone :
    (i j : String) (c : SampleCloud)
    → contains (openstack_ids (keep (λ (f : FloatingIp). not (f.id == j)) c)) i
      ≡ (not (i == j) && contains (openstack_ids c) i)
removed-Gone i j c = contains-keep (λ (f : FloatingIp). f.id) (λ k. not (k == j)) c i

deletes : Deletes sample_neutron Gone
deletes = record {
  delete-gone = λ i c c' h.
      subst (Gone i) (ap (λ r. r.1) h) (removed-Gone i i c ∙ ground (arith, ==_iff i i));
  delete-keeps = λ i j c p. removed-Gone i j c ∙ ground (arith, p);
  update-keeps = λ i project_id n c p. p;
  details-keeps = λ i project_id c p. p;
}

abbrev there_world : World SampleCloud Memory
there_world = record sample_world { cloud = there }

abbrev scaled_down :
    (actions : List Action) × (v : World SampleCloud Memory) × (scale_down_fips sample_neutron
        simple_retry memory_store
        (sample_project "dev" present)
        "p1"
        there
        3
        (pos 1)
        there_world
      ≡ (ok actions, v))
unfolding scale_down_fips simple_retry memory_store Memory.save string_eq serialize_value
scaled_down =
    ok_witness
      (scale_down_fips sample_neutron simple_retry memory_store (sample_project "dev" present) "p1"
        there 3 (pos 1) there_world)
      refl

abbrev unlimited :
    (actions : List Action) × (v : World SampleCloud Memory) × (scale_fips sample_neutron
        simple_retry memory_store
        (sample_project "dev" present)
        "p1"
        "net"
        ""
        (negsuc 0)
        there
        there_world
      ≡ (ok actions, v))
unfolding scale_fips simple_retry memory_store Memory.save string_eq serialize_value int_eq
unlimited =
    ok_witness
      (scale_fips sample_neutron simple_retry memory_store (sample_project "dev" present) "p1" "net"
        "" (negsuc 0) there there_world)
      refl

scale_fips_unlimited_example :
    (left : List FloatingIp) × (get "preallocated_fips" (memory_store.load "dev" unlimited.1.store)
      ≡ some (dict_list fip_to_dict (map from_sdk left)))
    × All InUse left
    × All (λ (f : FloatingIp). is_unused f ≡ true → Gone f.id unlimited.1.cloud) there
scale_fips_unlimited_example =
    scale_fips_unlimited sample_neutron simple_retry memory_store Gone deletes memory_store-IsLawful
      (sample_project "dev" present) "p1" "net" "" 0 there there_world unlimited.1 unlimited.0 tt
      refl unlimited.2
