-- ===== src/PreallocNetwork.antt =====
-- The pre-allocated network of a project: src/resources/prealloc/network.py. The calls that look for
-- networks are parameters.
pub mod Single
use openstack_tenantctl.Base.{
  not, Option, none, some, List, [], ◌∷◌, String, ◌<>◌, ◌==◌, string_eq, if◌then◌else◌, Act, pure,
  ◌>>=◌,
}
use openstack_tenantctl.Base.Dict.{Dict, get}
use openstack_tenantctl.Base.Int.{ℤ, pos, leb_ℤ, int_eq}
use openstack_tenantctl.Cloud.{Neutron, Tenacity}
use openstack_tenantctl.Store.Interface.{StateStore}
use openstack_tenantctl.Networks.{NetworkCalls, names_part, find_network}
use openstack_tenantctl.Networks.Stack.{ensure_network_stack}
use openstack_tenantctl.Models.{ProjectConfig, QuotaConfig}
use openstack_tenantctl.Context.{
  Action, ActionStatus, Details, lit, int, created, skipped, World, on_cloud, record_action,
}

-- cfg.quotas.network if cfg.quotas else {}
unfoldable pub network_quotas : Option QuotaConfig → Dict String ℤ
network_quotas none = []
network_quotas (some q) = q.network

-- net_quotas.get("networks", 1)
unfoldable pub networks_quota : Dict String ℤ → ℤ
networks_quota quotas = elim (get "networks" quotas) [ none ↦ pos 1 | some n ↦ n ]

module _ {C S : Type 0} where
  unfoldable pub one_action : ActionStatus → String → Details → Act (World C S) (List Action)
  unfolding record_action
  one_action status name details = do
    action ← record_action status "preallocated_network" name details
    pure (action ∷ [])

module _ {C S : Type 0} (N : Neutron C) (K : NetworkCalls C) (T : Tenacity)
    (st : StateStore S) where
  -- The project has no network: a live run creates the stack.
  unfoldable pub create : ProjectConfig → String → ℤ → String → Act (World C S) (List Action)
  unfolding one_action ensure_network_stack
  create cfg project_id quota net_name w =
      if w.ctx.dry_run
      then one_action created net_name
          (lit "would create network stack (networks=" ∷ int quota ∷ lit ")" ∷ []) w
      else (do action ← ensure_network_stack N K T st cfg project_id; pure (action ∷ [])) w

  unfoldable pub unless_any :
      ProjectConfig → String → ℤ → String → List String → Act (World C S) (List Action)
  unfolding create one_action names_part
  unless_any cfg project_id quota net_name [] = create cfg project_id quota net_name
  unless_any cfg project_id quota net_name (n ∷ names) =
      one_action skipped net_name (lit "project has existing network(s): " ∷ names_part (n ∷ names))

  unfoldable pub unless_found :
      ProjectConfig → String → ℤ → String → Option String → Act (World C S) (List Action)
  unfolding unless_any one_action
  unless_found cfg project_id quota net_name (some existing) =
      one_action skipped net_name (lit "already exists" ∷ [])
  unless_found cfg project_id quota net_name none = do
    all_project_nets ← on_cloud (K.networks project_id)
    unless_any cfg project_id quota net_name all_project_nets

  unfoldable pub ensure_one : ProjectConfig → String → ℤ → Act (World C S) (List Action)
  unfolding one_action find_network unless_found
  ensure_one cfg project_id quota w =
      if leb_ℤ (pos 2) quota
      then one_action skipped ""
          (lit "networks quota is " ∷ int quota ∷ lit ", handled by ensure_quotas" ∷ []) w
      else if quota == pos 0
      then one_action skipped "" (lit "networks=0, no network requested" ∷ []) w
      else if not w.ctx.online
      then one_action skipped cfg.name
          (lit "networks=" ∷ int quota ∷ lit ", would ensure network exists (offline)" ∷ []) w
      else (do
        existing ← on_cloud (find_network K T (cfg.resource_prefix <> "-network") project_id)
        unless_found cfg project_id quota (cfg.resource_prefix <> "-network") existing)
          w

  -- No quotas, or an empty dict of them.
  unfoldable pub wanted_networks :
      Dict String ℤ → ProjectConfig → String → Act (World C S) (List Action)
  unfolding one_action networks_quota ensure_one
  wanted_networks [] cfg project_id =
      one_action skipped "all" (lit "no quotas.network configured" ∷ [])
  wanted_networks (q ∷ quotas) cfg project_id =
      ensure_one cfg project_id (networks_quota (q ∷ quotas))

  unfoldable pub ensure_preallocated_network :
      ProjectConfig → String → Act (World C S) (List Action)
  unfolding wanted_networks network_quotas
  ensure_preallocated_network cfg project_id =
      wanted_networks (network_quotas cfg.quotas) cfg project_id
