-- ===== src/Federation.antt =====
-- The federation's mapping rules: src/resources/federation.py. A rule that is built is a record with a
-- function to its dict, since the rules of the static file and of Keystone are any dicts. The push of
-- the mapping is a parameter, and the diff that a dry run logs is left out.
pub mod Rules
pub mod Mapping
use openstack_tenantctl.Base.{
  ℕ, Bool, true, false, Option, none, some, List, [], ◌∷◌, ◌++◌, map, String, ◌<>◌, ◌==◌, string_eq,
  nat_eq, if◌then◌else◌, ◌||◌,
}
use Prim.Native.Char.{code}
use Prim.Native.String
use text.Mathlib.Text.{starts_with}
use openstack_tenantctl.Base.Sorting.{sorted_by}
use openstack_tenantctl.Models.{ProjectConfig, GroupRoleAssignment}
use openstack_tenantctl.Models.Federation.{
  Texts, single, many, FederationRoleAssignment, FederationConfig, has_mode,
}
use openstack_tenantctl.ExternalNetwork.{is_empty}

unfoldable pub resolve_group_path : String → String → String → String
resolve_group_path idp_group project_name group_prefix =
    if starts_with idp_group "/"
    then idp_group
    else group_prefix <> project_name <> "/" <> idp_group

-- `raw if isinstance(raw, str) else raw[0]`; validation lets no empty list pass.
first_group : Texts → String
first_group (single raw) = raw
first_group (many []) = ""
first_group (many (g ∷ raw)) = g

has_slash : String → Bool
has_slash String.[] = false
has_slash (String.◌∷◌ c s) = code c == b'/' || has_slash s

-- `s.rsplit("/", 1)[-1]`: what stands after the last slash.
last_part : String → String
unfolding has_slash
last_part String.[] = String.[]
last_part (String.◌∷◌ c s) =
    let rest = last_part s in
    if has_slash s then rest else if code c == b'/' then s else String.◌∷◌ c s

unfoldable pub derive_group_name : String → FederationRoleAssignment → String → String
unfolding first_group last_part is_empty
derive_group_name project_name assignment separator =
    if is_empty assignment.keystone_group
    then project_name
      <> separator
      <> (if starts_with (first_group assignment.idp_group) "/"
          then last_part (first_group assignment.idp_group)
          else first_group assignment.idp_group)
    else assignment.keystone_group

-- The groups that the roles of an assignment are given to, for the assignments in group mode.
unfoldable pub derived_groups :
    ProjectConfig → FederationConfig → List FederationRoleAssignment → List GroupRoleAssignment
unfolding has_mode derive_group_name
derived_groups cfg federation [] = []
derived_groups cfg federation (a ∷ assignments) =
    let rest = derived_groups cfg federation assignments in
    if has_mode "group" a.mode
    then (record {
      group = derive_group_name cfg.name a federation.group_name_separator;
      roles = a.roles;
      state = "present";
    })
      ∷ rest
    else rest

-- The configuration with the roles of its federation's groups. A list that gets nothing appended is the
-- same list.
unfoldable pub augment_group_role_assignments : ProjectConfig → ProjectConfig
unfolding derived_groups
augment_group_role_assignments cfg = elim cfg.federation [
  | none ↦ cfg
  | some federation ↦ record cfg {
    group_role_assignments =
        cfg.group_role_assignments ++ derived_groups cfg federation federation.role_assignments;
  }
]
