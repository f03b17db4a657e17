-- ===== src/KeystoneGroups.antt =====
-- The groups that the federation's rules name: src/resources/keystone_groups.py. The calls of the
-- identity service are parameters. The domains, a set in the source, are resolved in the order in
-- which they are met.
pub mod OneDomain
pub mod Covering
pub mod Domains
pub mod Converging
use openstack_tenantctl.Base.{
  ℕ, Bool, true, false, not, Option, none, some, List, [], ◌∷◌, ◌++◌, map, String, ◌==◌, contains,
  string_eq, if◌then◌else◌, Act, pure, ok, each, ◌>>=◌, ◌>>◌,
}
use openstack_tenantctl.Base.Dict.{Dict, get}
use openstack_tenantctl.Base.Sorting.{sorted_by}
use openstack_tenantctl.Cloud.{Tenacity}
use openstack_tenantctl.Models.{ProjectConfig}
use openstack_tenantctl.Models.Federation.{FederationRoleAssignment, FederationConfig, has_mode}
use openstack_tenantctl.Context.{
  Action, ActionStatus, Details, lit, created, skipped, World, on_cloud, record_action,
}
use openstack_tenantctl.Context.Retry.{retried}
use openstack_tenantctl.ExternalNetwork.{is_empty}
use openstack_tenantctl.Federation.{derive_group_name}
use openstack_tenantctl.Federation.Rules.{is_present}
use openstack_tenantctl.Projects.{Identity, resolve_domain}

-- `datetime.now(UTC)` as an instant, and the calls of `identity_v3(conn)`: a group by its name and,
-- if there is one, the id of its domain.
pub record GroupCalls (C : Type 0) : Type 0 where
  pub now : C → ℕ × C
  pub find_group : String → Option String → Act C (Option String)
  pub create_group : String → String → Act C (Unit {0})

-- Group names with the domain of the project that needs them.
unfoldable pub groups_needed :
    ProjectConfig → FederationConfig → List FederationRoleAssignment → List (String × String)
unfolding has_mode derive_group_name
groups_needed cfg federation [] = []
groups_needed cfg federation (a ∷ assignments) =
    let rest = groups_needed cfg federation assignments in
    if has_mode "group" a.mode
    then (derive_group_name cfg.name a federation.group_name_separator, cfg.domain_id) ∷ rest
    else rest

unfoldable pub federation_needs : ProjectConfig → Option FederationConfig → List (String × String)
unfolding groups_needed
federation_needs cfg none = []
federation_needs cfg (some federation) = groups_needed cfg federation federation.role_assignments

-- In the order in which the loops meet them.
unfoldable pub all_needed : ℕ → List ProjectConfig → List (String × String)
unfolding federation_needs is_present
all_needed now [] = []
all_needed now (cfg ∷ all_projects) =
    let rest = all_needed now all_projects in
    if is_present now cfg then federation_needs cfg cfg.federation ++ rest else rest

-- `if ks_group not in needed: needed[ks_group] = domain_id`, over all of them.
unfoldable pub add_needed : Dict String String → List (String × String) → Dict String String
add_needed needed [] = needed
add_needed needed ((name, domain) ∷ more) =
    add_needed
      (if contains (map (λ n. n.0) needed) name then needed else needed ++ (name, domain) ∷ []) more

-- set(needed.values())
unfoldable pub distinct : List String → List String → List String
distinct seen [] = []
distinct seen (d ∷ ds) =
    let rest = distinct (d ∷ seen) ds in
    let skipped_rest = distinct seen ds in if contains seen d then skipped_rest else d ∷ rest

-- `domain_cache[ref]`, of a reference that was resolved.
unfoldable pub cached : Dict String String → String → String
unfolding get
cached cache ref = elim (get ref cache) [ none ↦ "" | some id ↦ id ]

unfoldable pub given : String → Option String
unfolding is_empty
given domain_id = if is_empty domain_id then none else some domain_id

module _ {C S : Type 0} where
  unfoldable pub group_action : ActionStatus → String → Details → Act (World C S) Action
  unfolding record_action
  group_action status name details = record_action status "keystone_group" name details

  report_offline : String × String → Act (World C S) Action
  unfolding group_action
  report_offline (name, domain) =
      group_action skipped name (lit "would create group '" ∷ lit name ∷ lit "' (offline)" ∷ [])

module _ {C S : Type 0} (G : GroupCalls C) (I : Identity C) (T : Tenacity) where
  unfoldable pub create_group : String → String → Act (World C S) Action
  unfolding group_action retried
  create_group name domain_id w =
      if w.ctx.dry_run
      then group_action created name (lit "would create group '" ∷ lit name ∷ lit "'" ∷ []) w
      else (do
        on_cloud (retried T (G.create_group name domain_id))
        group_action created name (lit "created group '" ∷ lit name ∷ lit "'" ∷ []))
          w

  unfoldable pub unless_exists : String → String → Option String → Act (World C S) Action
  unfolding group_action create_group
  unless_exists name domain_id (some existing) =
      group_action skipped name (lit "already exists" ∷ [])
  unless_exists name domain_id none = create_group name domain_id

  unfoldable pub ensure_group : Dict String String → String × String → Act (World C S) Action
  unfolding cached given unless_exists retried
  ensure_group cache (name, domain) = do
    existing ← on_cloud (retried T (G.find_group name (given (cached cache domain))))
    unless_exists name (cached cache domain) existing

  unfoldable pub cache_domain : String → Act (World C S) (String × String)
  unfolding resolve_domain
  cache_domain domain_ref = do id ← on_cloud (resolve_domain I T domain_ref); pure (domain_ref, id)

  unfoldable pub ensure_needed : Dict String String → Act (World C S) (List Action)
  unfolding cache_domain ensure_group distinct
  ensure_needed needed = do
    domain_cache ← each cache_domain (distinct [] (map (λ n. n.1) needed))
    each (ensure_group domain_cache) (sorted_by (λ n. n.0) needed)

  unfoldable pub if_needed : Dict String String → Act (World C S) (List Action)
  unfolding group_action report_offline ensure_needed
  if_needed [] w =
      (do
        action ← group_action skipped "all" (lit "no group-mode projects" ∷ [])
        pure (action ∷ []))
        w
  if_needed (n ∷ needed) w =
      if w.ctx.online
      then ensure_needed (n ∷ needed) w
      else each report_offline (sorted_by (λ n. n.0) (n ∷ needed)) w

  unfoldable pub ensure_keystone_groups : List ProjectConfig → Act (World C S) (List Action)
  unfolding all_needed add_needed if_needed
  ensure_keystone_groups all_projects = do
    now ← on_cloud (λ c. let (t, c') = G.now c in (ok t, c'))
    if_needed (add_needed [] (all_needed now all_projects))
