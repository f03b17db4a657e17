-- ===== src/ExternalNetwork/Cache.antt =====
-- The cache of resolved external networks.
use openstack_tenantctl.Base.{
  Option, some, ◌≡◌, arith, String, string_eq, pair_eq, Result, ok, raised, Act, pure, ◌>>=◌, ◌>>◌,
}
use openstack_tenantctl.Base.Dict
use openstack_tenantctl.Cloud.{Neutron, Tenacity}
use openstack_tenantctl.Models.{ProjectConfig}
use openstack_tenantctl.Context.{World, on_cloud}
use openstack_tenantctl.ExternalNetwork.{
  lift, project_network, project_subnet, remember, resolve_uncached,
  resolve_project_external_network,
}

module _ {C S : Type 0} (N : Neutron C) (T : Tenacity) where
  abbrev cached : ProjectConfig → World C S → Option (String × String)
  cached cfg w =
      Dict.get (cfg.external_network_name, cfg.external_network_subnet)
        w.ctx.resolved_external_networks

  abbrev last_step : ProjectConfig → String × String → Act (World C S) (String × String)
  last_step cfg result = do
    remember (cfg.external_network_name, cfg.external_network_subnet) result
    pure result

  last_step-cached :
      (cfg : ProjectConfig) (p : Result (String × String) × World C S) (w' : World C S)
      (r : String × String)
      → ((λ (_ : World C S). p) >>= last_step cfg) w' ≡ (ok r, w')
      → cached cfg w' ≡ some r
  unfolding remember
  last_step-cached cfg (ok a, v) w' r h = ground (
    arith,
    Dict.get-put (cfg.external_network_name, cfg.external_network_subnet)
        (cfg.external_network_name, cfg.external_network_subnet) a v.ctx.resolved_external_networks,
  )
  last_step-cached cfg (raised e, v) w' r h = cc

  resolve_from-cached :
      (cfg : ProjectConfig) (start : Result (String × String)) (w w' : World C S)
      (r : String × String)
      → (on_cloud (lift start) >>= λ s. project_subnet N T cfg s >>= last_step cfg) w ≡ (ok r, w')
      → cached cfg w' ≡ some r
  resolve_from-cached cfg (ok s) w w' r h = last_step-cached cfg (project_subnet N T cfg s w) w' r h
  resolve_from-cached cfg (raised e) w w' r h = cc

  resolve_uncached-cached :
      (cfg : ProjectConfig) (w w' : World C S) (r : String × String)
      → resolve_uncached N T cfg w ≡ (ok r, w')
      → cached cfg w' ≡ some r
  unfolding resolve_uncached
  resolve_uncached-cached cfg w w' r h =
      resolve_from-cached cfg (project_network cfg w.ctx) w w' r h

  -- A resolution that returned returns the same again, from the cache or the defaults, and then
  -- changes nothing.
  pub resolve_project_external_network_again :
      (cfg : ProjectConfig) (w w' : World C S) (r : String × String)
      → resolve_project_external_network N T cfg w ≡ (ok r, w')
      → resolve_project_external_network N T cfg w' ≡ (ok r, w')
  unfolding resolve_project_external_network
  resolve_project_external_network_again cfg w w' r h =
      ground (arith, resolve_uncached-cached cfg w w' r)
