-- ===== src/GroupRoles.antt =====
-- The roles of groups on a project: src/resources/group_roles.py. The calls of the identity service are
-- a parameter. The two caches of a run are passed from entry to entry.
pub mod Pending
use openstack_tenantctl.Base.{
  Bool, true, false, not, Option, none, some, List, [], ◌∷◌, ◌++◌, String, ◌<>◌, ◌==◌, string_eq,
  if◌then◌else◌, length, ok, Exc, not_found, resource_not_found, value_error, Act, pure, raise,
  catch, ◌>>=◌, ◌>>◌,
}
use openstack_tenantctl.Base.Dict.{Dict, get, put}
use openstack_tenantctl.Base.Int.{pos}
use openstack_tenantctl.Cloud.{Tenacity}
use openstack_tenantctl.Models.{ProjectConfig, GroupRoleAssignment}
use openstack_tenantctl.Context.{
  Action, ActionStatus, Details, lit, int, created, updated, skipped, World, on_cloud,
  record_action,
}
use openstack_tenantctl.Context.Retry.{retried}

-- The calls of `identity_v3(conn)`, with a project, a group and a role given by their ids.
pub record RoleCalls (C : Type 0) : Type 0 where
  pub find_group : String → Act C (Option String)
  pub find_role : String → Act C (Option String)
  pub validate_group_has_project_role : String → String → String → Act C Bool
  pub assign_project_role_to_group : String → String → String → Act C (Unit {0})
  pub unassign_project_role_from_group : String → String → String → Act C (Unit {0})

abbrev pub Cache : Type 0
Cache = Dict String String

false_if_gone : {W : Type 0} → Exc → Act W Bool
false_if_gone not_found = pure false
false_if_gone resource_not_found = pure false
false_if_gone e = raise e

module _ {C : Type 0} (I : RoleCalls C) (T : Tenacity) where
  unfoldable pub find_group : String → Act C (Option String)
  unfolding retried
  find_group name = retried T (I.find_group name)

  unfoldable pub find_role : String → Act C (Option String)
  unfolding retried
  find_role name = retried T (I.find_role name)

  unfoldable pub check_group_role : String → String → String → Act C Bool
  unfolding retried false_if_gone
  check_group_role project_id group_id role_id =
      retried T
        (catch (I.validate_group_has_project_role project_id group_id role_id) false_if_gone)

  unfoldable pub assign_group_role : String → String → String → Act C (Unit {0})
  unfolding retried
  assign_group_role project_id group_id role_id =
      retried T (I.assign_project_role_to_group project_id group_id role_id)

  unfoldable pub unassign_group_role : String → String → String → Act C (Unit {0})
  unfolding retried
  unassign_group_role project_id group_id role_id =
      retried T (I.unassign_project_role_from_group project_id group_id role_id)

  group_or_none : String → Cache → Option String → Act C (Option String × Cache)
  group_or_none name cache none = pure (none, cache)
  group_or_none name cache (some id) = pure (some id, put name id cache)

  -- The id of a group, with the cache; none where there is no such group.
  unfoldable pub resolve_group : String → Cache → Act C (Option String × Cache)
  unfolding find_group group_or_none
  resolve_group name cache = elim (get name cache) [
    | some id ↦ pure (some id, cache)
    | none ↦ (do found ← find_group name; group_or_none name cache found)
  ]

  role_or_raise : String → Cache → Option String → Act C (String × Cache)
  role_or_raise name cache none = raise (value_error ("Role not found: " <> name))
  role_or_raise name cache (some id) = pure (id, put name id cache)

  unfoldable pub resolve_role : String → Cache → Act C (String × Cache)
  unfolding find_role role_or_raise
  resolve_role name cache = elim (get name cache) [
    | some id ↦ pure (id, cache)
    | none ↦ (do found ← find_role name; role_or_raise name cache found)
  ]

module _ {C S : Type 0} where
  unfoldable pub note : ActionStatus → String → Details → Act (World C S) (List Action)
  unfolding record_action
  note status label details = do
    action ← record_action status "group_role_assignment" label details
    pure (action ∷ [])

  -- In a dry run a group that is missing is taken for one that is yet to be created.
  unfoldable pub pending : String → List String → Act (World C S) (List Action)
  unfolding record_action
  pending group [] = pure []
  pending group (role ∷ roles) = do
    action ← record_action created "group_role_assignment" (group <> "+" <> role) (
        lit "would grant "
        ∷ lit role
        ∷ lit " to "
        ∷ lit group
        ∷ lit " (group pending creation)"
        ∷ [])
    actions ← pending group roles
    pure (action ∷ actions)

module _ {C S : Type 0} (I : RoleCalls C) (T : Tenacity) (project_id : String) where
  grant : String → String → String → String → Act (World C S) (List Action)
  unfolding note assign_group_role
  grant group group_id role role_id w =
      if w.ctx.dry_run
      then note created (group <> "+" <> role)
          (lit "would grant " ∷ lit role ∷ lit " to " ∷ lit group ∷ []) w
      else (do
        on_cloud (assign_group_role I T project_id group_id role_id)
        note created (group <> "+" <> role)
            (lit "granted " ∷ lit role ∷ lit " to " ∷ lit group ∷ []))
          w

  revoke : String → String → String → String → Act (World C S) (List Action)
  unfolding note unassign_group_role
  revoke group group_id role role_id w =
      if w.ctx.dry_run
      then note updated (group <> "+" <> role)
          (lit "would revoke " ∷ lit role ∷ lit " from " ∷ lit group ∷ []) w
      else (do
        on_cloud (unassign_group_role I T project_id group_id role_id)
        note updated (group <> "+" <> role)
            (lit "revoked " ∷ lit role ∷ lit " from " ∷ lit group ∷ []))
          w

  -- One role that the group has or not.
  unfoldable pub settle_role :
      GroupRoleAssignment → String → String → String → Bool → Act (World C S) (List Action)
  unfolding grant revoke
  settle_role entry group_id role role_id has_role =
      if entry.state == "present"
      then (if has_role then pure [] else grant entry.group group_id role role_id)
      else (if has_role then revoke entry.group group_id role role_id else pure [])

  -- The roles of one entry, with the cache of roles that they leave.
  unfoldable pub process_roles :
      GroupRoleAssignment → String → List String → Cache → Act (World C S) (List Action × Cache)
  unfolding resolve_role check_group_role settle_role
  process_roles entry group_id [] cache = pure ([], cache)
  process_roles entry group_id (role ∷ roles) cache = do
    resolved ← on_cloud (resolve_role I T role cache)
    has_role ← on_cloud (check_group_role I T project_id group_id resolved.0)
    actions ← settle_role entry group_id role resolved.0 has_role
    rest ← process_roles entry group_id roles resolved.1
    pure (actions ++ rest.0, rest.1)

  with_group : GroupRoleAssignment → Option String → Cache → Act (World C S) (List Action × Cache)
  unfolding pending process_roles
  with_group entry none cache w =
      if w.ctx.dry_run
      then (do actions ← pending entry.group entry.roles; pure (actions, cache)) w
      else raise (value_error ("Group not found: " <> entry.group)) w
  with_group entry (some group_id) cache w = process_roles entry group_id entry.roles cache w

  unfoldable pub process_entries :
      List GroupRoleAssignment → Cache → Cache → Act (World C S) (List Action)
  unfolding resolve_group with_group
  process_entries [] groups roles = pure []
  process_entries (entry ∷ entries) groups roles = do
    resolved ← on_cloud (resolve_group I T entry.group groups)
    done ← with_group entry resolved.0 roles
    rest ← process_entries entries resolved.1 done.1
    pure (done.0 ++ rest)

  unless_none : List Action → Act (World C S) (List Action)
  unfolding note
  unless_none [] = note skipped "all" (lit "all assignments already in desired state" ∷ [])
  unless_none (a ∷ actions) = pure (a ∷ actions)

  ensure_listed : List GroupRoleAssignment → Act (World C S) (List Action)
  unfolding note process_entries unless_none
  ensure_listed [] w = note skipped "all" (lit "no group_role_assignments configured" ∷ []) w
  ensure_listed (entry ∷ entries) w =
      if not w.ctx.online
      then note skipped "all"
          (lit "would process "
            ∷ int (pos (length (entry ∷ entries)))
            ∷ lit " group assignment(s) (offline)"
            ∷ [])
          w
      else (do actions ← process_entries (entry ∷ entries) [] []; unless_none actions) w

  unfoldable pub ensure_group_role_assignments : ProjectConfig → Act (World C S) (List Action)
  unfolding ensure_listed
  ensure_group_role_assignments cfg = ensure_listed cfg.group_role_assignments
