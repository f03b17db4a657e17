-- ===== src/Tests/GroupRoles.antt =====
-- Roles of groups in a small identity service that has no groups; its state is a number of changes.
use openstack_tenantctl.Base.{
  ℕ, suc, true, false, none, some, List, [], ◌∷◌, ◌≡◌, refl, ok, string_eq,
}
use openstack_tenantctl.Models.{ProjectConfig, GroupRoleAssignment, present}
use openstack_tenantctl.Store.Memory.{Memory}
use openstack_tenantctl.Context.{Action, World}
use openstack_tenantctl.GroupRoles.{RoleCalls, ensure_group_role_assignments}
use openstack_tenantctl.GroupRoles.Pending.{RoleGrants, ensure_group_role_assignments_pending}
use openstack_tenantctl.Samples.{simple_retry, sample_project, live}

abbrev no_groups : RoleCalls ℕ
no_groups = record {
  find_group = λ name c. (ok none, c);
  find_role = λ name c. (ok (some name), c);
  validate_group_has_project_role = λ project_id group_id role_id c. (ok false, c);
  assign_project_role_to_group = λ project_id group_id role_id c. (ok tt, suc c);
  unassign_project_role_from_group = λ project_id group_id role_id c. (ok tt, suc c);
}

abbrev gone : GroupRoleAssignment
gone = record { group = "former"; roles = "member" ∷ "reader" ∷ []; state = "absent" }

abbrev without_former : ProjectConfig
without_former = record (sample_project "a" present) { group_role_assignments = gone ∷ [] }

abbrev dry_world : World ℕ Memory
dry_world = record { cloud = 0; store = []; ctx = record live { dry_run = true } }

ensure_group_role_assignments_pending_example :
    (actions : List Action) × (v : World ℕ Memory) × (ensure_group_role_assignments no_groups
        simple_retry "p1" without_former dry_world
      ≡ (ok actions, v))
    × (v.cloud ≡ 0)
    × RoleGrants "former" ("member" ∷ "reader" ∷ []) actions
ensure_group_role_assignments_pending_example =
    ensure_group_role_assignments_pending no_groups simple_retry "p1" without_former gone "member"
      ("reader" ∷ []) dry_world refl refl refl refl refl
