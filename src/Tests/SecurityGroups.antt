-- ===== src/Tests/SecurityGroups.antt =====
-- A default security group in a small cloud, whose state is its rules by their fingerprints.
use openstack_tenantctl.Base.{
  true, Option, none, some, List, [], ◌∷◌, ◌++◌, map, ◌≡◌, ◌≢◌, refl, String, contains, string_eq,
  if◌then◌else◌, All, Bool-cases, inl, inr, ok, raised, conflict, arith,
}
use openstack_tenantctl.Models.{ProjectConfig, present}
use openstack_tenantctl.Models.Security.{SecurityGroupRule, SecurityGroupConfig}
use openstack_tenantctl.Store.Memory.{Memory}
use openstack_tenantctl.Context.{Action, World, skipped}
use openstack_tenantctl.SecurityGroups.{
  SdkRule, SecurityGroup, SecurityCalls, Fingerprint, fingerprint_eq, sdk_fingerprint,
  rule_fingerprint, to_api_dict, ensure_baseline_sg,
}
use openstack_tenantctl.SecurityGroups.Fingerprints.{
  dict_fingerprint, dict_fingerprint-to_api_dict, IsPlain,
}
use openstack_tenantctl.SecurityGroups.Seeding.{AddsRules, ensure_baseline_sg_seeds}
use openstack_tenantctl.SecurityGroups.Remote.{ensure_baseline_sg_ignores_group}
use openstack_tenantctl.Samples.{simple_retry, sample_project, live}

-- Ingress from the members of a group.
abbrev from_group : SdkRule
from_group = record {
  direction = some "ingress";
  protocol = none;
  port_range_min = none;
  port_range_max = none;
  remote_ip_prefix = none;
  remote_group_id = some "sg1";
  ethertype = some "IPv4";
}

abbrev group : SecurityGroup
group = record { id = "sg1"; security_group_rules = from_group ∷ [] }

abbrev Rules : Type 0
Rules = List Fingerprint

abbrev cloud : SecurityCalls Rules
cloud = record {
  find_security_group = λ name project_id c. (ok (some group), c);
  create_security_group = λ name project_id c. (ok "sg2", c);
  create_security_group_rule = λ id project_id d c.
      if contains c (dict_fingerprint d)
      then (raised conflict, c)
      else (ok tt, c ++ dict_fingerprint d ∷ []);
}

cloud-AddsRules : AddsRules cloud "p1" "sg1" (λ c. c)
cloud-AddsRules d c = elim (Bool-cases (contains c (dict_fingerprint d))) [
  | inl there ↦ (c, inr (rw there, refl, there))
  | inr absent ↦ (c ++ dict_fingerprint d ∷ [], inl (rw absent, refl))
]

abbrev rule : Option String → SecurityGroupRule
rule protocol = record {
  direction = "ingress";
  protocol = protocol;
  port_range_min = none;
  port_range_max = none;
  remote_ip_prefix = none;
  remote_group_id = none;
  ethertype = none;
  description = "";
}

abbrev baseline : Option String → SecurityGroupConfig
baseline protocol = record { name = "default"; rules = rule protocol ∷ [] }

abbrev project : Option String → ProjectConfig
project protocol = record (sample_project "a" present) { security_group = some (baseline protocol) }

abbrev group_world : World Rules Memory
group_world = record { cloud = map sdk_fingerprint (from_group ∷ []); store = []; ctx = live }

plain : (protocol : Option String) → protocol ≢ some "" → IsPlain (rule protocol)
plain protocol h = (h, λ e. cc)

abbrev icmp : Option String
icmp = some "icmp"

icmp_plain : icmp ≢ some ""
icmp_plain h = cc

ensure_baseline_sg_seeds_example :
    (a : Action) × (u : World Rules Memory) × (ensure_baseline_sg cloud simple_retry
        (project icmp)
        "p1"
        group_world
      ≡ (ok a, u))
    × All (λ r. contains u.cloud (rule_fingerprint r) ≡ true) (rule icmp ∷ [])
ensure_baseline_sg_seeds_example =
    ensure_baseline_sg_seeds cloud simple_retry "p1" (baseline icmp) group (λ c. c) cloud-AddsRules
      (project icmp) group_world group_world.cloud refl refl (plain icmp icmp_plain, tt) refl refl
      refl refl (omega arith)

ensure_baseline_sg_ignores_group_example :
    (a : Action) × (u : World Rules Memory) × (ensure_baseline_sg cloud simple_retry
        (project none)
        "p1"
        group_world
      ≡ (ok a, u))
    × (a.status ≡ skipped)
    × (u.cloud ≡ group_world.cloud)
unfolding rule_fingerprint sdk_fingerprint string_eq
ensure_baseline_sg_ignores_group_example =
    ensure_baseline_sg_ignores_group cloud simple_retry "p1" (baseline none) group (project none)
      group_world group_world.cloud (rule none) from_group "sg1" [] [] refl refl refl refl refl refl
      (omega arith) refl refl refl

dict_fingerprint-to_api_dict_example :
    dict_fingerprint (to_api_dict (rule icmp)) ≡ rule_fingerprint (rule icmp)
dict_fingerprint-to_api_dict_example =
    dict_fingerprint-to_api_dict (rule icmp) (plain icmp icmp_plain)
