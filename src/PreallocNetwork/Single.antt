-- ===== src/PreallocNetwork/Single.antt =====
-- The two handlers that may create a project's network: `ensure_network_stack` of
-- src/resources/network.py and `ensure_preallocated_network` of src/resources/prealloc/network.py.
use openstack_tenantctl.Base.{
  not, Option, none, some, List, [], ◌∷◌, ◌≡◌, refl, ◌∙◌, String, ◌==◌, inl, Result, ok, raised,
  pure, ◌>>=◌, ◌>>◌,
}
use openstack_tenantctl.Base.Dict.{Dict}
use openstack_tenantctl.Base.Int.{ℤ, pos, leb_ℤ, int_eq}
use openstack_tenantctl.Cloud.{Neutron, Tenacity}
use openstack_tenantctl.Models.{ProjectConfig}
use openstack_tenantctl.Store.Interface.{StateStore}
use openstack_tenantctl.Context.{Action, World, on_cloud, record_action}
use openstack_tenantctl.Context.Retry.{retried}
use openstack_tenantctl.Networks.{NetworkCalls, find_network}
use openstack_tenantctl.Networks.Stack.{net_name, ensure_network_stack}
use openstack_tenantctl.Networks.Single.{
  HasNetworks, Grown, Grown-trans, Ends, bind-Ends, if-Ends, called-Holds,
  ensure_network_stack-Grown,
}
use openstack_tenantctl.PreallocNetwork.{
  one_action, create, unless_any, unless_found, ensure_one, wanted_networks, networks_quota,
  network_quotas, ensure_preallocated_network,
}

module _ {C S : Type 0} (N : Neutron C) (K : NetworkCalls C) (T : Tenacity) (st : StateStore S)
    (project_id : String) (nets : C → List String) (H : HasNetworks N K project_id nets)
    (cfg : ProjectConfig) where
  -- The action of the stack is passed on in a list.
  passed_on :
      (ns : List String) (r : Result Action × World C S)
      → Ends nets (net_name cfg) ns r
      → Ends nets (net_name cfg) ns (((λ (v : World C S). r) >>= λ action. pure (action ∷ [])) r.1)
  passed_on ns (ok a, v) h = h
  passed_on ns (raised e, v) h = h

  create-Ends :
      (quota : ℤ) (name : String) (ns : List String) (w : World C S)
      → nets w.cloud ≡ ns
      → Ends nets (net_name cfg) ns (create N K T st cfg project_id quota name w)
  unfolding create one_action record_action
  create-Ends quota name ns w p = if-Ends nets (net_name cfg) ns w.ctx.dry_run _ _ (inl p) (
      passed_on ns (ensure_network_stack N K T st cfg project_id w)
        (rw p at (ensure_network_stack-Grown N K T st project_id nets H cfg w)))

  unless_any-Ends :
      (quota : ℤ) (name : String) (names ns : List String) (w : World C S)
      → nets w.cloud ≡ ns
      → Ends nets (net_name cfg) ns (unless_any N K T st cfg project_id quota name names w)
  unfolding unless_any one_action record_action
  unless_any-Ends quota name [] ns w p = create-Ends quota name ns w p
  unless_any-Ends quota name (n ∷ names) ns w p = inl p

  unless_found-Ends :
      (quota : ℤ) (name : String) (ns : List String) (o : Option String) (w : World C S)
      → nets w.cloud ≡ ns
      → Ends nets (net_name cfg) ns (unless_found N K T st cfg project_id quota name o w)
  unfolding unless_found one_action record_action
  unless_found-Ends quota name ns (some id) w p = inl p
  unless_found-Ends quota name ns none w p =
      bind-Ends nets (net_name cfg) ns (on_cloud (K.networks project_id))
        (unless_any N K T st cfg project_id quota name) (λ w p. H.networks w.cloud ∙ p)
        (λ names. unless_any-Ends quota name names ns) w p

  ensure_one-Ends :
      (quota : ℤ) (ns : List String) (w : World C S)
      → nets w.cloud ≡ ns
      → Ends nets (net_name cfg) ns (ensure_one N K T st cfg project_id quota w)
  unfolding ensure_one one_action record_action find_network
  ensure_one-Ends quota ns w p = if-Ends nets (net_name cfg) ns (leb_ℤ (pos 2) quota) _ _ (inl p) (
      if-Ends nets (net_name cfg) ns (quota == pos 0) _ _ (inl p) (
        if-Ends nets (net_name cfg) ns (not w.ctx.online) _ _ (inl p) (
          bind-Ends nets (net_name cfg) ns
            (on_cloud (retried T (K.find_network (net_name cfg) project_id)))
            (unless_found N K T st cfg project_id quota (net_name cfg))
            (called-Holds nets ns T _ (H.find_network (net_name cfg)))
            (unless_found-Ends quota (net_name cfg) ns) w p)))

  wanted_networks-Ends :
      (quotas : Dict String ℤ) (w : World C S)
      → Grown
          (net_name cfg)
          (nets w.cloud)
          (nets (wanted_networks N K T st quotas cfg project_id w).1.cloud)
  unfolding wanted_networks one_action record_action
  wanted_networks-Ends [] w = inl refl
  wanted_networks-Ends (q ∷ quotas) w =
      ensure_one-Ends (networks_quota (q ∷ quotas)) (nets w.cloud) w refl

  prealloc-Grown :
      (w : World C S)
      → Grown
          (net_name cfg)
          (nets w.cloud)
          (nets (ensure_preallocated_network N K T st cfg project_id w).1.cloud)
  unfolding ensure_preallocated_network
  prealloc-Grown w = wanted_networks-Ends (network_quotas cfg.quotas) w

  after_stack :
      (r : Result Action × World C S) (before : List String)
      → Grown (net_name cfg) before (nets r.1.cloud)
      → Grown (net_name cfg) before (
          nets
            (((λ (v : World C S). r) >> ensure_preallocated_network N K T st cfg project_id)
              r.1).1.cloud)
  after_stack (ok a, v) before h = Grown-trans _ _ _ _ h (prealloc-Grown v)
  after_stack (raised e, v) before h = h

  -- Where the listing shows the project's networks and only a creation that returns adds one, the two
  -- handlers, whatever they return or raise, leave the networks of the project as they were, or the
  -- project had none and has the configuration's one.
  pub one_network :
      (w : World C S)
      → Grown (net_name cfg) (nets w.cloud) (
          nets
            ((ensure_network_stack N K T st cfg project_id
                >> ensure_preallocated_network N K T st cfg project_id)
              w).1.cloud)
  one_network w =
      after_stack (ensure_network_stack N K T st cfg project_id w) (nets w.cloud)
        (ensure_network_stack-Grown N K T st project_id nets H cfg w)
