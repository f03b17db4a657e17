-- ===== src/ExternalNetwork/Holding.antt =====
-- What the resolution of a project's external network keeps.
use openstack_tenantctl.Base.{
  ◌&&◌, ◌||◌, Option, none, some, String, not, string_eq, pair_eq, Result, ok, Act, pure, ◌>>=◌,
  ◌>>◌,
}
use openstack_tenantctl.Base.Dict
use openstack_tenantctl.Base.Holding.{Holds, bind-Holds, if-Holds, if_at-Holds}
use openstack_tenantctl.Cloud.{Neutron, Tenacity}
use openstack_tenantctl.Models.{ProjectConfig}
use openstack_tenantctl.Context.{World, on_cloud}
use openstack_tenantctl.Context.Retry.{retried, retried-Holds}
use openstack_tenantctl.ExternalNetwork.{
  is_empty, resolve_external_subnet, project_subnet, project_network, resolve_uncached, remember,
  resolve_project_external_network, checked_subnet, discovered, lift,
}

module _ {C S : Type 0} (P : World C S → Type 0) where
  -- A call of the cloud that keeps `P` does so under retrying.
  pub on_cloud-retried-Holds :
      {A : Type 0} (T : Tenacity) (m : Act C A)
      → Holds P (on_cloud m)
      → Holds P (on_cloud (retried T m))
  on_cloud-retried-Holds T m h w p =
      retried-Holds (λ c. P (record w { cloud = c })) T m (λ c. h (record w { cloud = c })) w.cloud
        p

  -- The calls of the resolution, and its cache, leave `P`.
  pub record ResolvingKeeps (N : Neutron C) : Type 0 where
    pub find_subnet : (name : String) → Holds P (on_cloud (N.find_subnet name))
    pub subnets : (net : String) → Holds P (on_cloud (N.subnets net))
    pub remember : (key result : String × String) → Holds P (remember key result)

abbrev keys : ProjectConfig → String × String
keys cfg = (cfg.external_network_name, cfg.external_network_subnet)

module _ {C S : Type 0} (P : World C S → Type 0) (N : Neutron C) (T : Tenacity)
    (R : ResolvingKeeps P N) where
  resolve_external_subnet-Holds :
      (net configured : String) → Holds P (on_cloud (resolve_external_subnet N T net configured))
  unfolding resolve_external_subnet
  resolve_external_subnet-Holds net configured w p =
      let Q : C → Type 0 = λ c. P (record w { cloud = c }) in
      if-Holds Q (is_empty configured) _ _
        (if-Holds Q (is_empty net) _ _ (λ c q. q)
          (bind-Holds Q (retried T (N.subnets net)) (λ subnets. pure (discovered subnets))
            (retried-Holds Q T (N.subnets net) (λ c. R.subnets net (record w { cloud = c })))
            (λ a c q. q)))
        (bind-Holds Q (retried T (N.find_subnet configured))
          (λ subnet. lift (checked_subnet net subnet))
          (retried-Holds Q T (N.find_subnet configured)
            (λ c. R.find_subnet configured (record w { cloud = c })))
          (λ a c q. q))
        w.cloud p

  project_subnet-Holds :
      (cfg : ProjectConfig) (start : String × String) → Holds P (project_subnet N T cfg start)
  unfolding project_subnet
  project_subnet-Holds cfg (net, subnet) w p =
      if_at-Holds P (is_empty cfg.external_network_subnet || not w.ctx.online || is_empty net) _ _ p
        (bind-Holds P (on_cloud (resolve_external_subnet N T net cfg.external_network_subnet)) _
          (resolve_external_subnet-Holds net cfg.external_network_subnet) (λ a v q. q) w p)

  resolve_uncached-Holds : (cfg : ProjectConfig) → Holds P (resolve_uncached N T cfg)
  unfolding resolve_uncached
  resolve_uncached-Holds cfg w p =
      bind-Holds P (on_cloud (λ c. (project_network cfg w.ctx, c)))
        (λ start. do result ← project_subnet N T cfg start; remember (keys cfg) result; pure result)
        (λ v q. q)
        (λ start.
          bind-Holds P (project_subnet N T cfg start) _ (project_subnet-Holds cfg start) (λ result.
            bind-Holds P (remember (keys cfg) result) (λ _. pure result)
              (R.remember (keys cfg) result) (λ a v q. q)))
        w p

  -- The two cases of the cache.
  cached_or-Holds :
      (cfg : ProjectConfig) (w : World C S)
      → P w
      → (o : Option (String × String))
      → P
          (elim o as (λ _. Result (String × String) × World C S) [
            | none ↦ resolve_uncached N T cfg w
            | some cached ↦ (ok cached, w)
          ]).1
  cached_or-Holds cfg w p none = resolve_uncached-Holds cfg w p
  cached_or-Holds cfg w p (some cached) = p

  pub resolve_project_external_network-Holds :
      (cfg : ProjectConfig) → Holds P (resolve_project_external_network N T cfg)
  unfolding resolve_project_external_network
  resolve_project_external_network-Holds cfg w p =
      if_at-Holds P (is_empty cfg.external_network_name && is_empty cfg.external_network_subnet) _ _
        p (cached_or-Holds cfg w p (Dict.get (keys cfg) w.ctx.resolved_external_networks))
