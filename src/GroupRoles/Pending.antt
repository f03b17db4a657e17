-- ===== src/GroupRoles/Pending.antt =====
-- What a dry run of `ensure_group_role_assignments` says of a group that does not exist.
use openstack_tenantctl.Base.{
  ℕ, suc, true, none, List, [], ◌∷◌, ◌++◌, append-nil, ◌≡◌, refl, ap, ◌∙◌, arith, String, ◌<>◌,
  string_eq, length, subst, ok,
}
use openstack_tenantctl.Base.Dict.{get}
use openstack_tenantctl.Cloud.{Tenacity}
use openstack_tenantctl.Models.{ProjectConfig, GroupRoleAssignment}
use openstack_tenantctl.Context.{Action, created, lit, Details, World, record_action}
use openstack_tenantctl.Context.Retry.{retried-ok}
use openstack_tenantctl.GroupRoles.{
  RoleCalls, find_group, resolve_group, group_or_none, pending, process_entries, with_group,
  ensure_listed, unless_none, ensure_group_role_assignments,
}

-- The report that a role would be granted to a group.
abbrev pub IsGrant : String → String → Action → Type 0
IsGrant group role a =
    (a.status ≡ created)
    × (a.resource_type ≡ "group_role_assignment")
    × (a.name ≡ group <> "+" <> role)
    × (a.details
        ≡ lit "would grant "
          ∷ lit role
          ∷ lit " to "
          ∷ lit group
          ∷ lit " (group pending creation)"
          ∷ [])

-- One report for each role, in order.
abbrev pub RoleGrants : String → List String → List Action → Type 0
RoleGrants group [] [] = Unit
RoleGrants group [] (a ∷ actions) = ⊥
RoleGrants group (role ∷ roles) [] = ⊥
RoleGrants group (role ∷ roles) (a ∷ actions) =
    IsGrant group role a × RoleGrants group roles actions

module _ {C S : Type 0} where
  pending-RoleGrants :
      (group : String) (roles : List String) (w : World C S)
      → (actions : List Action) × (v : World C S) × (pending group roles w ≡ (ok actions, v))
        × (v.cloud ≡ w.cloud)
        × (length actions ≡ length roles)
        × RoleGrants group roles actions
  unfolding pending record_action
  pending-RoleGrants group [] w = ([], w, refl, refl, refl, tt)
  pending-RoleGrants group (role ∷ roles) w =
      let details =
        lit "would grant "
        ∷ lit role
        ∷ lit " to "
        ∷ lit group
        ∷ lit " (group pending creation)"
        ∷ [] in
      let noted = record_action created "group_role_assignment" (group <> "+" <> role) details w in
      let (actions, v, e, c, n, a) = pending-RoleGrants group roles noted.1 in
      (newly details ∷ actions, v, rw e refl, c, ap suc n, ((refl, refl, refl, refl), a))
    where
      newly : Details → Action
      newly details = record {
        status = created;
        resource_type = "group_role_assignment";
        name = group <> "+" <> role;
        details = details;
        project_id = w.ctx.current_project_id;
        project_name = w.ctx.current_project_name;
      }

  unless_none-some :
      (I : RoleCalls C) (T : Tenacity) (project_id : String) (actions : List Action) (m : ℕ)
      (v : World C S)
      → length actions ≡ suc m
      → unless_none I T project_id (actions ++ []) v ≡ (ok actions, v)
  unfolding unless_none
  unless_none-some I T project_id [] m v h = ground (arith, h)
  unless_none-some I T project_id (a ∷ actions) m v h = rw (append-nil actions) refl

module _ {C : Type 0} (I : RoleCalls C) (T : Tenacity) where
  resolve_group-none :
      (group : String) (c : C)
      → I.find_group group c ≡ (ok none, c)
      → resolve_group I T group [] c ≡ (ok (none, []), c)
  unfolding resolve_group find_group get group_or_none
  resolve_group-none group c h = rw (retried-ok T (I.find_group group) c c none h) refl

module _ {C S : Type 0} (I : RoleCalls C) (T : Tenacity) (project_id : String) where
  process_entries-pending :
      (entry : GroupRoleAssignment) (w v : World C S) (actions : List Action)
      → w.ctx.dry_run ≡ true
      → resolve_group I T entry.group [] w.cloud ≡ (ok (none, []), w.cloud)
      → pending entry.group entry.roles w ≡ (ok actions, v)
      → process_entries I T project_id (entry ∷ []) [] [] w ≡ (ok (actions ++ []), v)
  unfolding process_entries with_group
  process_entries-pending entry w v actions d h p = ground (arith, d, h, p)

  -- A dry run over one assignment of at least one role, to a group that does not exist, returns, leaves the
  -- cloud and reports for each of the roles that it would be granted to the group, whatever the state
  -- of the assignment: also where it says that the group must not have them.
  pub ensure_group_role_assignments_pending :
      (cfg : ProjectConfig) (entry : GroupRoleAssignment) (role : String) (roles : List String)
      (w : World C S)
      → cfg.group_role_assignments ≡ entry ∷ []
      → entry.roles ≡ role ∷ roles
      → w.ctx.online ≡ true
      → w.ctx.dry_run ≡ true
      → I.find_group entry.group w.cloud ≡ (ok none, w.cloud)
      → (actions : List Action) × (v : World C S) × (ensure_group_role_assignments I T project_id
            cfg w
          ≡ (ok actions, v))
        × (v.cloud ≡ w.cloud)
        × RoleGrants entry.group (role ∷ roles) actions
  unfolding ensure_group_role_assignments ensure_listed
  ensure_group_role_assignments_pending cfg entry role roles w e r o d h =
      let (actions, v, p, c, n, a) = pending-RoleGrants entry.group entry.roles w in
      let one = n ∙ ap (λ x. length x) r in
      let listed =
        process_entries-pending entry w v actions d (resolve_group-none I T entry.group w.cloud h)
          p in
      let found = unless_none-some I T project_id actions (length roles) v one in
      (
        actions,
        v,
        ground (arith, e, o, listed, found),
        c,
        subst (λ rs. RoleGrants entry.group rs actions) r a,
      )
