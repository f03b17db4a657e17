-- ===== src/ExternalNetwork.antt =====
-- Which external network and subnet a project uses: `resolve_external_subnet` and
-- `resolve_project_external_network` of src/utils.py.
pub mod Cache
pub mod Holding
use openstack_tenantctl.Base.{
  ℕ, Bool, true, false, ◌&&◌, ◌||◌, Option, none, some, List, [], ◌∷◌, String, ◌==◌, not, string_eq,
  nat_eq, pair_eq, if◌then◌else◌, keep, Result, ok, raised, provisioner, Act, pure, raise, gets,
  ◌>>=◌, ◌>>◌,
}
use openstack_tenantctl.Base.Dict
use openstack_tenantctl.Cloud.{Neutron, Tenacity, Subnet}
use openstack_tenantctl.Models.{ProjectConfig}
use openstack_tenantctl.Context.{Context, World, on_cloud, set_ctx}
use openstack_tenantctl.Context.Retry.{retried}

-- Several subnets: the first IPv4 one, or else the first.
unfoldable pub choose_subnet : Subnet → List Subnet → String
choose_subnet first [] = first.id
choose_subnet first (second ∷ rest) =
    elim (keep (λ (s : Subnet). s.ip_version == 4) (first ∷ second ∷ rest)) [
      | [] ↦ first.id
      | s ∷ _ ↦ s.id
    ]

unfoldable pub checked_subnet : String → Option Subnet → Result String
checked_subnet external_net_id none = raised (provisioner "subnet not found")
checked_subnet external_net_id (some subnet) =
    if subnet.network_id == external_net_id
    then ok subnet.id
    else raised (provisioner "subnet does not belong to external network")

unfoldable pub discovered : List Subnet → String
unfolding choose_subnet
discovered [] = ""
discovered (s ∷ ss) = choose_subnet s ss

-- `self.attr or other` on texts.
unfoldable pub is_empty : String → Bool
is_empty s = s == ""

abbrev pub lift : {C A : Type 0} → Result A → Act C A
lift r c = (r, c)

module _ {C : Type 0} (N : Neutron C) (T : Tenacity) where
  unfoldable pub resolve_external_subnet : String → String → Act C String
  unfolding discovered checked_subnet is_empty retried
  resolve_external_subnet external_net_id configured_subnet =
      if is_empty configured_subnet
      then if is_empty external_net_id
        then pure ""
        else (do subnets ← retried T (N.subnets external_net_id); pure (discovered subnets))
      else do
        subnet ← retried T (N.find_subnet configured_subnet)
        lift (checked_subnet external_net_id subnet)

-- The network: the one that the project names, whose subnet is then open, or the default.
unfoldable pub project_network : ProjectConfig → Context → Result (String × String)
unfolding is_empty
project_network cfg ctx =
    if is_empty cfg.external_network_name
    then ok (ctx.external_net_id, ctx.external_subnet_id)
    else elim (Dict.get cfg.external_network_name ctx.external_network_map) [
      | none ↦ raised (provisioner "external network not found")
      | some net_id ↦
          if is_empty net_id
          then raised (provisioner "external network not found")
          else ok (net_id, "")
    ]

unfoldable pub remember :
    {C S : Type 0} → String × String → String × String → Act (World C S) (Unit {0})
remember key result = set_ctx λ ctx. record ctx {
  resolved_external_networks = Dict.put key result ctx.resolved_external_networks;
}

module _ {C S : Type 0} (N : Neutron C) (T : Tenacity) where
  -- The subnet that the project names, if it can be looked up.
  unfoldable pub project_subnet :
      ProjectConfig → String × String → Act (World C S) (String × String)
  unfolding resolve_external_subnet
  project_subnet cfg (net, subnet) w =
      if is_empty cfg.external_network_subnet || not w.ctx.online || is_empty net
      then (ok (net, subnet), w)
      else (do
        resolved ← on_cloud (resolve_external_subnet N T net cfg.external_network_subnet)
        pure (net, if is_empty resolved then subnet else resolved))
          w

  unfoldable pub resolve_uncached : ProjectConfig → Act (World C S) (String × String)
  unfolding project_network project_subnet remember
  resolve_uncached cfg = do
    ctx ← gets (λ w. w.ctx)
    start ← on_cloud (lift (project_network cfg ctx))
    result ← project_subnet cfg start
    remember (cfg.external_network_name, cfg.external_network_subnet) result
    pure result

  unfoldable pub resolve_project_external_network :
      ProjectConfig → Act (World C S) (String × String)
  unfolding resolve_uncached is_empty
  resolve_project_external_network cfg w =
      if is_empty cfg.external_network_name && is_empty cfg.external_network_subnet
      then (ok (w.ctx.external_net_id, w.ctx.external_subnet_id), w)
      else elim (Dict.get (cfg.external_network_name, cfg.external_network_subnet)
          w.ctx.resolved_external_networks) [
            | some cached ↦ (ok cached, w)
            | none ↦ resolve_uncached cfg w
          ]
