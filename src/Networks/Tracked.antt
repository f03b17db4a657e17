-- ===== src/Networks/Tracked.antt =====
-- A live run of `track_router_ips` of src/resources/network.py, from the listing of the routers to
-- the state of the project.
use openstack_tenantctl.Base.{
  true, false, if_true, not, ◌||◌, some, List, ◌≡◌, refl, sym, ◌∙◌, subst, String, contains,
  string_eq, ok, ◌++◌,
}
use openstack_tenantctl.Cloud.{Neutron, Tenacity}
use openstack_tenantctl.Models.{ProjectConfig, dict_list}
use openstack_tenantctl.Models.Network.{
  ReleasedRouterIpEntry, router_ip_to_dict, released_router_ip_to_dict,
}
use openstack_tenantctl.Store.{get}
use openstack_tenantctl.Store.Interface.{StateStore, IsLawful}
use openstack_tenantctl.Context.{Action, World}
use openstack_tenantctl.Context.Retry.{retried-ok}
use openstack_tenantctl.Context.Quiet.{Unmoved, Unmoved-trans}
use openstack_tenantctl.ExternalNetwork.{resolve_project_external_network, remember}
use openstack_tenantctl.ExternalNetwork.Holding.{
  ResolvingKeeps, resolve_project_external_network-Holds,
}
use openstack_tenantctl.Networks.{Router, NetworkCalls, list_project_routers}
use openstack_tenantctl.Networks.Tracking.{
  external_ips, snapshot, finish_tracking, track_routers, track_online, track_router_ips,
  all_released_router_ips,
}
use openstack_tenantctl.Networks.Lost.{DistinctIds, lost}
use openstack_tenantctl.Networks.Audit.{
  released_addresses, gateway_mismatches-Quiet, compare_snapshots-Quiet, persist_tracking-loads,
  released_after,
}

resolving-Unmoved :
    {C S : Type 0} (N : Neutron C) (w : World C S) → ResolvingKeeps (λ v. Unmoved v w) N
unfolding remember
resolving-Unmoved N w = record {
  find_subnet = λ name v p. p;
  subnets = λ net v p. p;
  remember = λ key result v p. p;
}

module _ {C S : Type 0} (N : Neutron C) (K : NetworkCalls C) (T : Tenacity)
    (st : StateStore S) where
  -- A run that lists the routers and resolves the network goes on with them.
  track_router_ips-eq :
      (cfg : ProjectConfig) (project_id : String) (w : World C S) (rs : List Router) (c : C)
      (external : String × String) (v : World C S)
      → w.ctx.online ≡ true
      → K.routers project_id w.cloud ≡ (ok rs, c)
      → resolve_project_external_network N T cfg (record w { cloud = c }) ≡ (ok external, v)
      → track_router_ips N K T st cfg project_id w ≡ track_routers N K T st cfg rs external.0 v
  unfolding track_router_ips track_online list_project_routers
  track_router_ips-eq cfg project_id w rs c external v online lists resolves =
      if_true w.ctx.online _ _ online
      ∙ rw (retried-ok T (K.routers project_id) w.cloud c rs lists, resolves)

module _ {C S : Type 0} (N : Neutron C) (K : NetworkCalls C) (T : Tenacity) (st : StateStore S)
    {Sound : S → Type 0} (L : IsLawful st Sound) where
  track_routers-loads :
      (cfg : ProjectConfig) (rs : List Router) (net : String) (w : World C S)
      → Sound w.store
      → w.ctx.has_store ≡ true
      → w.ctx.dry_run ≡ false
      → get "router_ips" (st.load cfg.state_key w.store)
        ≡ some (dict_list router_ip_to_dict cfg.router_ips)
      → get "released_router_ips" (st.load cfg.state_key w.store)
        ≡ some (dict_list released_router_ip_to_dict cfg.released_router_ips)
      → (actions : List Action) × (u : World C S) × (new : List ReleasedRouterIpEntry)
        × (track_routers N K T st cfg rs net w ≡ (ok actions, u))
        × (released_addresses new ≡ lost cfg.router_ips (snapshot rs))
        × (get "router_ips" (st.load cfg.state_key u.store)
            ≡ some (dict_list router_ip_to_dict (snapshot rs)))
        × (get "released_router_ips" (st.load cfg.state_key u.store)
            ≡ some (
                dict_list released_router_ip_to_dict
                  (all_released_router_ips (snapshot rs) cfg.released_router_ips new)))
  unfolding track_routers finish_tracking
  track_routers-loads cfg rs net w sound on live here there =
      let (ms, v, e, m, _) = gateway_mismatches-Quiet net rs w in
      let ((new, found), t, e', m', addresses) =
        compare_snapshots-Quiet N cfg.router_ips (snapshot rs) v in
      let (s, o, d) = Unmoved-trans t v w m' m in
      let (u, e'', has, has') =
        persist_tracking-loads st L cfg (snapshot rs) new t (subst Sound (sym s) sound) (o ∙ on)
          (rw s here) (rw s there) in
      (ms ++ found, u, new, rw (e, e', d ∙ live, e''), addresses, has, has')

  -- In a lawful store that shows the configuration's router addresses, whose router ids are distinct,
  -- a live run that can list the routers and resolve the external network returns. The state then
  -- has the addresses of the listed routers, and an address that was tracked or released before is
  -- released exactly if it is not active.
  pub track_router_ips_conserves :
      (cfg : ProjectConfig) (project_id : String) (w : World C S) (rs : List Router) (c : C)
      (external : String × String) (v : World C S) (a : String)
      → Sound w.store
      → w.ctx.online ≡ true
      → w.ctx.has_store ≡ true
      → w.ctx.dry_run ≡ false
      → K.routers project_id w.cloud ≡ (ok rs, c)
      → resolve_project_external_network N T cfg (record w { cloud = c }) ≡ (ok external, v)
      → get "router_ips" (st.load cfg.state_key w.store)
        ≡ some (dict_list router_ip_to_dict cfg.router_ips)
      → get "released_router_ips" (st.load cfg.state_key w.store)
        ≡ some (dict_list released_router_ip_to_dict cfg.released_router_ips)
      → DistinctIds cfg.router_ips
      → (contains (external_ips cfg.router_ips) a
          || contains (released_addresses cfg.released_router_ips) a)
        ≡ true
      → (actions : List Action) × (u : World C S) × (released : List ReleasedRouterIpEntry)
        × (track_router_ips N K T st cfg project_id w ≡ (ok actions, u))
        × (get "router_ips" (st.load cfg.state_key u.store)
            ≡ some (dict_list router_ip_to_dict (snapshot rs)))
        × (get "released_router_ips" (st.load cfg.state_key u.store)
            ≡ some (dict_list released_router_ip_to_dict released))
        × (contains (released_addresses released) a ≡ not (contains (external_ips (snapshot rs)) a))
  track_router_ips_conserves cfg project_id w rs c external v a sound online on live lists resolves
        here there distinct known =
      let w' : World C S = record w { cloud = c } in
      let kept =
        resolve_project_external_network-Holds (λ v. Unmoved v w) N T (resolving-Unmoved N w) cfg w'
          (refl, refl, refl) in
      let (s, o, d) : Unmoved v w = rw resolves at kept in
      let (actions, u, new, e, addresses, has, has') =
        track_routers-loads cfg rs external.0 v (subst Sound (sym s) sound) (o ∙ on) (d ∙ live)
          (rw s here) (rw s there) in
      (
        actions,
        u,
        all_released_router_ips (snapshot rs) cfg.released_router_ips new,
        track_router_ips-eq N K T st cfg project_id w rs c external v online lists resolves ∙ e,
        has,
        has',
        released_after cfg.router_ips (snapshot rs) cfg.released_router_ips new a distinct addresses
            known,
      )
