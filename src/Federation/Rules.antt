-- ===== src/Federation/Rules.antt =====
-- `_build_generated_rules` of src/resources/federation.py.
use openstack_tenantctl.Base.{
  ℕ, Bool, true, false, Option, none, some, List, [], ◌∷◌, ◌++◌, map, String, string_eq,
  if◌then◌else◌,
}
use Prim.Native.Nat.{Ordering}
use Prim.Native.String
use openstack_tenantctl.Base.Sorting.{sorted_by}
use openstack_tenantctl.Models.{ProjectConfig, present, locked, absent}
use openstack_tenantctl.Models.Federation.{
  Texts, single, many, FederationRoleAssignment, FederationConfig, has_mode,
}
use openstack_tenantctl.Models.Lifecycle.{effective_state}
use openstack_tenantctl.Store.{
  Value, str, sequence, mapping, Items, no_items, item, Fields, end, field,
}
use openstack_tenantctl.ExternalNetwork.{is_empty}
use openstack_tenantctl.Federation.{derive_group_name, resolve_group_path}

-- An element of "local": the user with a type that may be left out; a group with its domain; a project
-- with its roles and a domain that may be left out.
pub data LocalElement : Type 0 where
  user : Option String → LocalElement
  group : String → String → LocalElement
  projects : String → List String → Option String → LocalElement

-- The rest of "remote" is the same in every rule.
pub record MappingRule : Type 0 where
  pub local : List LocalElement
  pub issuer : String
  pub group_paths : List String

texts : List String → Items
texts [] = no_items
texts (s ∷ ss) = item (str s) (texts ss)

named : String → Value
named name = mapping (field "name" (str name) end)

roles_of : List String → Items
unfolding named
roles_of [] = no_items
roles_of (r ∷ roles) = item (named r) (roles_of roles)

typed_user : Option String → Fields
typed_user none = end
typed_user (some user_type) = field "type" (str user_type) end

domain_of : Option String → Fields
unfolding named
domain_of none = end
domain_of (some name) = field "domain" (named name) end

element_to_dict : LocalElement → Value
unfolding typed_user domain_of roles_of named
element_to_dict (user user_type) = mapping (
    field "user"
      (mapping (field "name" (str "{0}") (field "email" (str "{1}") (typed_user user_type)))) end)
element_to_dict (group name domain) =
    mapping
      (field "group" (mapping (field "name" (str name) (field "domain" (named domain) end))) end)
element_to_dict (projects name roles domain) = mapping (
    field "projects"
      (sequence (
        item (mapping (field "name" (str name) (field "roles" (sequence (roles_of roles)) end)))
          no_items))
      (domain_of domain))

elements : List LocalElement → Items
unfolding element_to_dict
elements [] = no_items
elements (e ∷ es) = item (element_to_dict e) (elements es)

unfoldable pub rule_to_dict : MappingRule → Value
unfolding elements texts
rule_to_dict rule = mapping (
    field "local" (sequence (elements rule.local)) (
      field "remote"
        (sequence (
          item (mapping (field "type" (str "OIDC-preferred_username") end)) (
            item (mapping (field "type" (str "OIDC-email") end)) (
              item
                (mapping (
                  field "type" (str "HTTP_OIDC_ISS")
                    (field "any_one_of" (sequence (item (str rule.issuer) no_items)) end)))
                (item
                  (mapping (
                    field "type" (str "OIDC-groups")
                      (field "any_one_of" (sequence (texts rule.group_paths)) end)))
                  no_items)))))
        end))

-- The domain's name: inherited, suppressed or overridden.
unfoldable pub domain_name : ProjectConfig → Option String → Option String
unfolding is_empty
domain_name cfg none = none
domain_name cfg (some fed_domain) = if is_empty fed_domain then cfg.domain else some fed_domain

unfoldable pub or_default : Option String → String
unfolding is_empty
or_default none = "Default"
or_default (some name) = if is_empty name then "Default" else name

groups_of : Texts → List String
groups_of (single raw) = raw ∷ []
groups_of (many raw) = raw

unfoldable pub group_element :
    ProjectConfig → FederationConfig → FederationRoleAssignment → List LocalElement
unfolding has_mode derive_group_name or_default domain_name
group_element cfg federation a =
    if has_mode "group" a.mode
    then group (derive_group_name cfg.name a federation.group_name_separator)
        (or_default (domain_name cfg federation.domain))
      ∷ []
    else []

unfoldable pub project_element :
    ProjectConfig → FederationConfig → FederationRoleAssignment → List LocalElement
unfolding has_mode domain_name
project_element cfg federation a =
    if has_mode "project" a.mode
    then projects cfg.name a.roles (domain_name cfg federation.domain) ∷ []
    else []

unfoldable pub rule_of : ProjectConfig → FederationConfig → FederationRoleAssignment → MappingRule
unfolding group_element project_element resolve_group_path groups_of is_empty
rule_of cfg federation a = record {
  local =
      user (if is_empty federation.user_type then none else some federation.user_type)
        ∷ group_element cfg federation a
      ++ project_element cfg federation a;
  issuer = federation.issuer;
  group_paths =
      sorted_by (λ p. p)
        (map (λ g. resolve_group_path g cfg.name federation.group_prefix) (groups_of a.idp_group));
}

-- A rule with its sort key.
abbrev pub Keyed : Type 0
Keyed = String × String × MappingRule

-- `group_paths[0]`; validation lets no empty list of groups pass.
first_path : List String → String
first_path [] = ""
first_path (p ∷ ps) = p

unfoldable pub keyed : ProjectConfig → MappingRule → Keyed
unfolding first_path
keyed cfg rule = (cfg.name, first_path rule.group_paths, rule)

unfoldable pub rules_of :
    ProjectConfig → FederationConfig → List FederationRoleAssignment → List Keyed
unfolding keyed rule_of
rules_of cfg federation [] = []
rules_of cfg federation (a ∷ assignments) =
    keyed cfg (rule_of cfg federation a) ∷ rules_of cfg federation assignments

unfoldable pub is_present : ℕ → ProjectConfig → Bool
unfolding effective_state
is_present now cfg = elim (effective_state cfg.state cfg.lifetime now) [
  | present ↦ true
  | locked ↦ false
  | absent ↦ false
]

unfoldable pub federation_rules : ProjectConfig → Option FederationConfig → List Keyed
unfolding rules_of
federation_rules cfg none = []
federation_rules cfg (some federation) = rules_of cfg federation federation.role_assignments

unfoldable pub unsorted_rules : ℕ → List ProjectConfig → List Keyed
unfolding federation_rules is_present
unsorted_rules now [] = []
unsorted_rules now (cfg ∷ all_projects) =
    let rest = unsorted_rules now all_projects in
    if is_present now cfg then federation_rules cfg cfg.federation ++ rest else rest

-- `rules.sort(key=lambda entry: (entry[0], entry[1]))`
unfoldable pub comes_after : Keyed → Keyed → Bool
comes_after (name, path, rule) (name', path', rule') =
    elim (Prim.Native.String.compare name name') [
      | Ordering.lt ↦ false
      | Ordering.gt ↦ true
      | Ordering.eq ↦ elim (Prim.Native.String.compare path path') [
        | Ordering.gt ↦ true
        | _ ↦ false
      ]
    ]

unfoldable pub insert_rule : Keyed → List Keyed → List Keyed
unfolding comes_after
insert_rule r [] = r ∷ []
insert_rule r (s ∷ rules) =
    let rest = insert_rule r rules in if comes_after r s then s ∷ rest else r ∷ s ∷ rules

unfoldable pub sort_rules : List Keyed → List Keyed
unfolding insert_rule
sort_rules [] = []
sort_rules (r ∷ rules) = insert_rule r (sort_rules rules)

unfoldable pub build_generated_rules : ℕ → List ProjectConfig → List MappingRule
unfolding unsorted_rules sort_rules
build_generated_rules now all_projects =
    map (λ r. r.2) (sort_rules (unsorted_rules now all_projects))
