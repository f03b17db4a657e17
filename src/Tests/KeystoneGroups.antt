-- ===== src/Tests/KeystoneGroups.antt =====
-- Two projects that need groups, and a small Keystone whose state is the names of its groups.
use openstack_tenantctl.Base.{
  map, Bool, true, false, Option, none, some, List, [], ◌∷◌, ◌≡◌, ◌≢◌, refl, String, ==_iff,
  option_eq, contains, string_eq, pair_eq, if◌then◌else◌, All, ok, raised, other, arith,
}
use mathlib.Core.Bool.{false≢true}
use text.Mathlib.TextEquality.{eq_iff}
use openstack_tenantctl.Models.{ProjectConfig, present}
use openstack_tenantctl.Models.Federation.{FederationConfig, FederationRoleAssignment, single}
use openstack_tenantctl.Store.Memory.{Memory}
use openstack_tenantctl.Context.{Action, World}
use openstack_tenantctl.Federation.Rules.{build_generated_rules}
use openstack_tenantctl.ExternalNetwork.{is_empty}
use openstack_tenantctl.Projects.{Identity}
use openstack_tenantctl.KeystoneGroups.{
  GroupCalls, given, add_needed, all_needed, ensure_keystone_groups,
}
use openstack_tenantctl.KeystoneGroups.Covering.{Covered, NeededIn, build_generated_rules-Covered}
use openstack_tenantctl.KeystoneGroups.OneDomain.{names_of}
use openstack_tenantctl.KeystoneGroups.Domains.{add_needed_first_domain}
use openstack_tenantctl.KeystoneGroups.Converging.{
  KeepsGroups, is_some, ensure_keystone_groups_converges,
}
use openstack_tenantctl.Samples.{simple_retry, sample_project, live}

abbrev in_group_mode : String → FederationRoleAssignment
in_group_mode name = record {
  idp_group = single name;
  roles = "member" ∷ [];
  keystone_group = "";
  mode = single "group";
}

abbrev federated : FederationConfig
federated = record {
  issuer = "iss";
  mapping_id = "";
  group_prefix = "/services/openstack/";
  user_type = "";
  domain = some "";
  group_name_separator = " ";
  role_assignments = in_group_mode "member" ∷ in_group_mode "reader" ∷ [];
}

abbrev projects : List ProjectConfig
projects =
    (record (sample_project "a" present) { federation = some federated })
    ∷ (record (sample_project "b" present) { federation = some federated })
    ∷ []

-- The same projects, in a domain of the name "Corp".
abbrev of_corp : List ProjectConfig
of_corp = map (λ (p : ProjectConfig). record p { domain = some "Corp" }) projects

build_generated_rules-Covered_example :
    All
      (Covered (NeededIn (add_needed [] (all_needed 5 of_corp)) "Corp" "default"))
      (build_generated_rules 5 of_corp)
unfolding is_empty string_eq
build_generated_rules-Covered_example =
    build_generated_rules-Covered 5 of_corp "Corp" "default" refl
      ((refl, refl, refl), ((refl, refl, refl), tt))

abbrev first_domain : String
first_domain = "d1"

d1-ne-d2 : first_domain ≢ "d2"
d1-ne-d2 h = false≢true ((eq_iff "d1" "d2").1 h)

-- Two projects of two domains that need a group of one name.
abbrev staff : String → String → ProjectConfig
staff name domain_id = record (sample_project name present) {
  domain_id = domain_id;
  federation = some (record federated {
    role_assignments = (record (in_group_mode "member") { keystone_group = "staff" }) ∷ [];
  });
}

abbrev two_domains : List ProjectConfig
two_domains = staff "a" first_domain ∷ staff "b" "d2" ∷ []

add_needed_first_domain_example :
    (contains (add_needed [] (all_needed 5 two_domains)) ("staff", "d1") ≡ true)
    × (contains (add_needed [] (all_needed 5 two_domains)) ("staff", "d2") ≡ false)
unfolding all_needed string_eq is_empty
add_needed_first_domain_example =
    add_needed_first_domain 5 two_domains "staff" first_domain "d2" [] (("staff", "d2") ∷ []) refl
      refl d1-ne-d2

abbrev Groups : Type 0
Groups = List (String × Option String)

abbrev has : Groups → String → Option String → Bool
has c name domain = contains c (name, domain)

abbrev keystone : GroupCalls Groups
keystone = record {
  now = λ c. (5, c);
  find_group = λ name domain c. (ok (if has c name domain then some "g" else none), c);
  create_group = λ name domain c. (ok tt, (name, given domain) ∷ c);
}

abbrev domains : Identity Groups
domains = record {
  find_domain = λ domain_ref c. (ok (some "d1"), c);
  find_project = λ name domain_id c. (ok none, c);
  create_project = λ args c. (raised (other "unused"), c);
  update_project = λ id description is_enabled c. (raised (other "unused"), c);
}

is_some-if : (b : Bool) (s : String) → is_some (if b then some s else none) ≡ b
is_some-if true s = refl
is_some-if false s = refl

keystone-KeepsGroups : KeepsGroups keystone domains (λ ref. "d1") has
keystone-KeepsGroups = record {
  find_domain = λ ref c. refl;
  find_group = λ name domain c. (_, refl, is_some-if (has c name domain) "g");
  create_group = λ name domain c. (
    (name, given domain) ∷ c,
    refl,
    ground (arith, ==_iff {A = String × Option String} (name, given domain) (name, given domain)),
    λ n d h. ground (arith, h),
  );
}

abbrev empty_keystone : World Groups Memory
empty_keystone = record { cloud = []; store = []; ctx = live }

ensure_keystone_groups_converges_example :
    (actions : List Action) × (u : World Groups Memory) × (ensure_keystone_groups keystone domains
        simple_retry projects empty_keystone
      ≡ (ok actions, u))
    × All (λ n. has u.cloud n.0 (given "d1") ≡ true) (add_needed [] (all_needed 5 projects))
ensure_keystone_groups_converges_example =
    ensure_keystone_groups_converges keystone domains simple_retry (λ ref. "d1") has
      keystone-KeepsGroups projects empty_keystone refl refl

-- The four groups, single for each assignment.
four_needed :
    names_of (add_needed [] (all_needed 5 projects))
    ≡ "a member" ∷ "a reader" ∷ "b member" ∷ "b reader" ∷ []
unfolding add_needed all_needed string_eq
four_needed = refl
