-- ===== src/Networks/Single.antt =====
-- How many networks a project has after `ensure_network_stack` of src/resources/network.py and
-- `ensure_preallocated_network` of src/resources/prealloc/network.py.
use openstack_tenantctl.Base.{
  Bool, true, false, Option, none, some, ℕ, List, [], ◌∷◌, ◌++◌, ◌≡◌, refl, sym, ◌∙◌, subst, String,
  ◌⊎◌, inl, inr, if◌then◌else◌, Result, ok, raised, Exc, Act, pure, ◌>>=◌,
}
use openstack_tenantctl.Base.Int.{ℤ, pos, leb_ℤ}
use openstack_tenantctl.Base.Holding.{Holds, bind-Holds, if-Holds, if_at-Holds, catch-Holds}
use openstack_tenantctl.Cloud.{Neutron, Tenacity, Attempts, returns, gives_up, again}
use openstack_tenantctl.Models.{ProjectConfig}
use openstack_tenantctl.Models.Network.{NetworkConfig}
use openstack_tenantctl.Store.{PyValue}
use openstack_tenantctl.Store.Interface.{StateStore}
use openstack_tenantctl.Context.{ActionStatus, Details, World, on_cloud, record_action}
use openstack_tenantctl.Context.Retry.{retried, is_retryable}
use openstack_tenantctl.ExternalNetwork.{is_empty, resolve_project_external_network, remember}
use openstack_tenantctl.ExternalNetwork.Holding.{
  ResolvingKeeps, on_cloud-retried-Holds, resolve_project_external_network-Holds,
}
use openstack_tenantctl.Fips.Persist.{save_or_raise}
use openstack_tenantctl.Networks.{
  NetworkCalls, NewNetwork, NewSubnet, NewRouter, find_network, create_network, create_subnet,
  create_router, add_interface_to_router, utc_now, new_router,
}
use openstack_tenantctl.Networks.Stack.{
  net_name, router_name, lost_entry, is_conflict, new_subnet, effective_mtu, reclaimable_ip,
  persist_released_router_ips, stack_action, report_stack, record_lost, reclaim_failed, try_reclaim,
  reclaim_router, router_or_new, provide_router, complete_stack, create_stack, on_no_network,
  unless_any, unless_found, stack_online, if_configured, ensure_network_stack,
}

-- `nets` is what the cloud has of the project's networks, by name: the listing shows them, a creation
-- that returns adds one, and all else leaves them.
pub record HasNetworks {C : Type 0} (N : Neutron C) (K : NetworkCalls C) (project_id : String)
    (nets : C → List String) : Type 0 where
  pub find_network : (name : String) (c : C) → nets (K.find_network name project_id c).1 ≡ nets c
  pub networks : (c : C) → nets (K.networks project_id c).1 ≡ nets c
  pub listed :
      (c : C) (names : List String) → (K.networks project_id c).0 ≡ ok names → names ≡ nets c
  pub created :
      (n : NewNetwork) (c c' : C) (id : String)
      → n.project_id ≡ project_id
      → K.create_network n c ≡ (ok id, c')
      → nets c' ≡ nets c ++ n.name ∷ []
  pub not_created :
      (n : NewNetwork) (c c' : C) (e : Exc)
      → K.create_network n c ≡ (raised e, c')
      → nets c' ≡ nets c
  pub create_subnet : (n : NewSubnet) (c : C) → nets (K.create_subnet n c).1 ≡ nets c
  pub create_router : (n : NewRouter) (c : C) → nets (K.create_router n c).1 ≡ nets c
  pub add_interface_to_router :
      (r s : String) (c : C) → nets (K.add_interface_to_router r s c).1 ≡ nets c
  pub find_subnet : (name : String) (c : C) → nets (N.find_subnet name c).1 ≡ nets c
  pub subnets : (net : String) (c : C) → nets (N.subnets net c).1 ≡ nets c
  pub now : (c : C) → nets (N.now c).1 ≡ nets c

-- The networks are as they were, or there was none and the one of this name is there.
abbrev pub Grown : String → List String → List String → Type 0
Grown name before after = (after ≡ before) ⊎ ((before ≡ []) × (after ≡ name ∷ []))

pub Grown-trans :
    (name : String) (a b c : List String) → Grown name a b → Grown name b c → Grown name a c
Grown-trans name a b c (inl e) (inl f) = inl (f ∙ e)
Grown-trans name a b c (inl e) (inr (empty, f)) = inr (sym e ∙ empty, f)
Grown-trans name a b c (inr (empty, e)) (inl f) = inr (empty, f ∙ e)
Grown-trans name a b c (inr (empty, e)) (inr (empty', f)) = inr (empty, f)

module _ {C S : Type 0} (nets : C → List String) (ns : List String) where
  abbrev pub Kept : World C S → Type 0
  Kept w = nets w.cloud ≡ ns

  pub called-Holds :
      {A : Type 0} (T : Tenacity) (m : Act C A)
      → ((c : C) → nets (m c).1 ≡ nets c)
      → Holds Kept (on_cloud (retried T m))
  called-Holds T m h = on_cloud-retried-Holds Kept T m (λ w p. h w.cloud ∙ p)

  stack_action-Holds :
      (status : ActionStatus) (cfg : ProjectConfig) (details : Details)
      → Holds Kept (stack_action status cfg details)
  unfolding stack_action record_action
  stack_action-Holds status cfg details w p = p

  save_or_raise-Holds :
      (st : StateStore S) (cfg : ProjectConfig) (key : String) (v : PyValue)
      → Holds Kept (save_or_raise st cfg key v)
  save_or_raise-Holds st cfg key v w p = if_at-Holds Kept w.ctx.has_store _ _ p p

module _ {C S : Type 0} (N : Neutron C) (K : NetworkCalls C) (T : Tenacity) (st : StateStore S)
    (project_id : String) (nets : C → List String) (H : HasNetworks N K project_id nets)
    (ns : List String) where
  resolving : ResolvingKeeps {S = S} (Kept nets ns) N
  unfolding remember
  resolving = record {
    find_subnet = λ name w p. H.find_subnet name w.cloud ∙ p;
    subnets = λ net w p. H.subnets net w.cloud ∙ p;
    remember = λ key result w p. p;
  }

  record_lost-Holds :
      (cfg : ProjectConfig) (ip : String) → Holds (Kept nets ns) (record_lost N K T st cfg ip)
  unfolding record_lost persist_released_router_ips
  record_lost-Holds cfg ip =
      bind-Holds (Kept nets ns) (utc_now N)
        (λ t.
          persist_released_router_ips st cfg (cfg.released_router_ips ++ lost_entry cfg ip t ∷ []))
        (λ w p. H.now w.cloud ∙ p) (λ t. save_or_raise-Holds nets ns st cfg "released_router_ips" _)

  reclaim_failed-Holds :
      (cfg : ProjectConfig) (ip : String) (e : Exc)
      → Holds (Kept nets ns) (reclaim_failed N K T st cfg ip e)
  unfolding reclaim_failed
  reclaim_failed-Holds cfg ip e =
      if-Holds (Kept nets ns) (is_conflict e) _ _
        (bind-Holds (Kept nets ns) (record_lost N K T st cfg ip) (λ _. pure none)
          (record_lost-Holds cfg ip) (λ a w p. p))
        (λ w p. p)

  try_reclaim-Holds :
      (cfg : ProjectConfig) (external : String × String) (ip : String)
      → Holds (Kept nets ns) (try_reclaim N K T st cfg project_id external ip)
  unfolding try_reclaim create_router
  try_reclaim-Holds cfg (net, subnet) ip =
      bind-Holds (Kept nets ns)
        (on_cloud
          (retried T (K.create_router (new_router (router_name cfg) project_id net subnet ip))))
        (λ r. pure (some r)) (called-Holds nets ns T _ (H.create_router _)) (λ r w p. p)

  reclaim_router-Holds :
      (cfg : ProjectConfig) (external : String × String) (ip : String)
      → Holds (Kept nets ns) (reclaim_router N K T st cfg project_id external ip)
  unfolding reclaim_router
  reclaim_router-Holds cfg external ip =
      catch-Holds (Kept nets ns) (try_reclaim N K T st cfg project_id external ip)
        (reclaim_failed N K T st cfg ip) (try_reclaim-Holds cfg external ip)
        (reclaim_failed-Holds cfg ip)

  router_or_new-Holds :
      (cfg : ProjectConfig) (external : String × String) (o : Option String)
      → Holds (Kept nets ns) (router_or_new N K T st cfg project_id external o)
  unfolding router_or_new create_router
  router_or_new-Holds cfg (net, subnet) (some r) w p = p
  router_or_new-Holds cfg (net, subnet) none w p = called-Holds nets ns T _ (H.create_router _) w p

  provide_router-Holds :
      (cfg : ProjectConfig) (external : String × String) (ip : String)
      → Holds (Kept nets ns) (provide_router N K T st cfg project_id external ip)
  unfolding provide_router
  provide_router-Holds cfg external ip =
      bind-Holds (Kept nets ns)
        (if is_empty ip then pure none else reclaim_router N K T st cfg project_id external ip)
        (router_or_new N K T st cfg project_id external)
        (if-Holds (Kept nets ns) (is_empty ip) _ _ (λ w p. p)
          (reclaim_router-Holds cfg external ip))
        (router_or_new-Holds cfg external)

  complete_stack-Holds :
      (cfg : ProjectConfig) (network : NetworkConfig) (external : String × String)
      (ip network_id : String)
      → Holds (Kept nets ns) (complete_stack N K T st cfg network project_id external ip network_id)
  unfolding complete_stack create_subnet add_interface_to_router stack_action record_action
  complete_stack-Holds cfg network external ip network_id =
      bind-Holds (Kept nets ns)
        (on_cloud (retried T (K.create_subnet (new_subnet cfg network network_id project_id)))) _
        (called-Holds nets ns T _ (H.create_subnet _))
        (λ subnet_id.
          bind-Holds (Kept nets ns) (provide_router N K T st cfg project_id external ip) _
            (provide_router-Holds cfg external ip)
            (λ router_id.
              bind-Holds (Kept nets ns)
                (on_cloud (retried T (K.add_interface_to_router router_id subnet_id))) _
                (called-Holds nets ns T _ (H.add_interface_to_router router_id subnet_id))
                (λ _ w p. p)))

module _ {C S : Type 0} (nets : C → List String) (name : String) where
  -- The networks after a run, from those of `ns` before it.
  abbrev pub Ends : List String → {A : Type 0} → Result A × World C S → Type 0
  Ends ns r = Grown name ns (nets r.1.cloud)

  pub next-Ends :
      {A B : Type 0} (ns : List String) (r : Result A × World C S) (f : A → Act (World C S) B)
      → nets r.1.cloud ≡ ns
      → ((a : A) (w : World C S) → nets w.cloud ≡ ns → Ends ns (f a w))
      → Ends ns (((λ (v : World C S). r) >>= f) r.1)
  next-Ends ns (ok a, v) f q k = k a v q
  next-Ends ns (raised e, v) f q k = inl q

  pub bind-Ends :
      {A B : Type 0} (ns : List String) (m : Act (World C S) A) (f : A → Act (World C S) B)
      → Holds (Kept nets ns) m
      → ((a : A) (w : World C S) → nets w.cloud ≡ ns → Ends ns (f a w))
      → (w : World C S) → nets w.cloud ≡ ns
      → Ends ns ((m >>= f) w)
  bind-Ends ns m f h k w p = next-Ends ns (m w) f (h w p) k

  pub if-Ends :
      {A : Type 0} (ns : List String) (b : Bool) (r q : Result A × World C S)
      → Ends ns r
      → Ends ns q
      → Ends ns (if b then r else q)
  if-Ends ns true r q h g = h
  if-Ends ns false r q h g = g

module _ {C : Type 0} (N : Neutron C) (K : NetworkCalls C) (project_id : String)
    (nets : C → List String) (H : HasNetworks N K project_id nets) where
  -- The networks after a creation from those before it.
  abbrev Creates : String → List String → Result String × C → Type 0
  Creates name ns (ok id, c) = nets c ≡ ns ++ name ∷ []
  Creates name ns (raised e, c) = nets c ≡ ns

  call-Creates :
      (n : NewNetwork) (c : C) (r : Result String × C)
      → n.project_id ≡ project_id
      → K.create_network n c ≡ r
      → Creates n.name (nets c) r
  call-Creates n c (ok id, c') e h = H.created n c c' id e h
  call-Creates n c (raised x, c') e h = H.not_created n c c' x h

  -- However often the creation is tried, it adds the network once or not at all.
  Attempts-Creates :
      {p : Exc → Bool} (n : NewNetwork) {k : ℕ} {c : C} {r : Result String × C}
      → n.project_id ≡ project_id
      → Attempts p (K.create_network n) k c r
      → Creates n.name (nets c) r
  Attempts-Creates n e (returns h) = call-Creates n _ _ e h
  Attempts-Creates n e (gives_up h _) = call-Creates n _ _ e h
  Attempts-Creates n e (again {w = c} {w' = c'} {r = r} h _ more) =
      subst (λ ns. Creates n.name ns r) (call-Creates n c _ e h) (Attempts-Creates n e more)

  create_network-Creates :
      (T : Tenacity) (name : String) (mtu : ℤ) (c : C)
      → Creates name (nets c) (create_network K T name project_id mtu c)
  unfolding create_network retried
  create_network-Creates T name mtu c =
      let n : NewNetwork = record {
        name = name;
        project_id = project_id;
        mtu = if leb_ℤ (pos 1) mtu then some mtu else none;
      } in
      Attempts-Creates n refl (T.retry-Attempts C String is_retryable 4 (K.create_network n) c)

module _ {C S : Type 0} (N : Neutron C) (K : NetworkCalls C) (T : Tenacity) (st : StateStore S)
    (project_id : String) (nets : C → List String) (H : HasNetworks N K project_id nets)
    (cfg : ProjectConfig) where
  after_creation :
      (network : NetworkConfig) (external : String × String) (ip : String) (r : Result String × C)
      (w : World C S)
      → Creates N K project_id nets H (net_name cfg) [] r
      → Ends nets (net_name cfg) [] (
          ((λ (v : World C S). (r.0, record v { cloud = r.1 }))
              >>= complete_stack N K T st cfg network project_id external ip)
            w)
  after_creation network external ip (ok id, c) w h = inr (
    refl,
    complete_stack-Holds N K T st project_id nets H (net_name cfg ∷ []) cfg network external ip id _
        h,
  )
  after_creation network external ip (raised e, c) w h = inl h

  create_stack-Ends :
      (network : NetworkConfig) (external : String × String) (ip : String) (w : World C S)
      → nets w.cloud ≡ []
      → Ends nets (net_name cfg) [] (create_stack N K T st cfg network project_id external ip w)
  unfolding create_stack
  create_stack-Ends network external ip w p =
      let r : Result String × C =
        create_network K T (net_name cfg) project_id (effective_mtu network) w.cloud in
      after_creation network external ip r w (
        subst (λ ns. Creates N K project_id nets H (net_name cfg) ns r) p
          (create_network-Creates N K project_id nets H T (net_name cfg) (effective_mtu network)
            w.cloud))

  report_stack-Ends :
      (ns : List String) (network : NetworkConfig) (ip : String) (w : World C S)
      → nets w.cloud ≡ ns
      → Ends nets (net_name cfg) ns (report_stack cfg network ip w)
  unfolding report_stack stack_action record_action
  report_stack-Ends ns network ip w p = inl p

  on_no_network-Ends :
      (network : NetworkConfig) (external : String × String) (w : World C S)
      → nets w.cloud ≡ []
      → Ends nets (net_name cfg) [] (on_no_network N K T st cfg network project_id external w)
  unfolding on_no_network
  on_no_network-Ends network external w p =
      if-Ends nets (net_name cfg) [] w.ctx.dry_run _ _
        (report_stack-Ends [] network (reclaimable_ip cfg) w p)
        (create_stack-Ends network external (reclaimable_ip cfg) w p)

  unless_any-Ends :
      (network : NetworkConfig) (ns : List String) (w : World C S)
      → nets w.cloud ≡ ns
      → Ends nets (net_name cfg) ns (unless_any N K T st cfg network project_id ns w)
  unfolding unless_any stack_action record_action
  unless_any-Ends network [] w p =
      bind-Ends nets (net_name cfg) [] (resolve_project_external_network N T cfg)
        (on_no_network N K T st cfg network project_id)
        (resolve_project_external_network-Holds (Kept nets []) N T
          (resolving N K T st project_id nets H []) cfg)
        (on_no_network-Ends network) w p
  unless_any-Ends network (n ∷ names) w p = inl p

  -- The names that a listing returned are those of the networks.
  listed-Ends :
      (network : NetworkConfig) (ns : List String) (r : Result (List String) × C) (w : World C S)
      → nets r.1 ≡ ns
      → ((names : List String) → r.0 ≡ ok names → names ≡ ns)
      → Ends nets (net_name cfg) ns (
          ((λ (v : World C S). (r.0, record v { cloud = r.1 }))
              >>= unless_any N K T st cfg network project_id)
            w)
  listed-Ends network ns (ok names, c) w p same =
      rw (same names refl) (unless_any-Ends network ns _ p)
  listed-Ends network ns (raised e, c) w p same = inl p

  unless_found-Ends :
      (network : NetworkConfig) (ns : List String) (o : Option String) (w : World C S)
      → nets w.cloud ≡ ns
      → Ends nets (net_name cfg) ns (unless_found N K T st cfg network project_id o w)
  unfolding unless_found stack_action record_action
  unless_found-Ends network ns (some id) w p = inl p
  unless_found-Ends network ns none w p =
      listed-Ends network ns (K.networks project_id w.cloud) w (H.networks w.cloud ∙ p)
        (λ names e. H.listed w.cloud names e ∙ p)

  stack_online-Ends :
      (network : NetworkConfig) (ns : List String) (w : World C S)
      → nets w.cloud ≡ ns
      → Ends nets (net_name cfg) ns (stack_online N K T st cfg network project_id w)
  unfolding stack_online find_network
  stack_online-Ends network ns =
      bind-Ends nets (net_name cfg) ns
        (on_cloud (retried T (K.find_network (net_name cfg) project_id)))
        (unless_found N K T st cfg network project_id)
        (called-Holds nets ns T _ (H.find_network (net_name cfg))) (unless_found-Ends network ns)

  if_configured-Ends :
      (o : Option NetworkConfig) (ns : List String) (w : World C S)
      → nets w.cloud ≡ ns
      → Ends nets (net_name cfg) ns (if_configured N K T st cfg project_id o w)
  unfolding if_configured stack_action record_action
  if_configured-Ends none ns w p = inl p
  if_configured-Ends (some network) ns w p = stack_online-Ends network ns w p

  -- A run adds a network only to a project that has none, and then the one of the configuration.
  pub ensure_network_stack-Grown :
      (w : World C S)
      → Grown
          (net_name cfg)
          (nets w.cloud)
          (nets (ensure_network_stack N K T st cfg project_id w).1.cloud)
  unfolding ensure_network_stack stack_action record_action
  ensure_network_stack-Grown w =
      if-Ends nets (net_name cfg) (nets w.cloud) w.ctx.online _ _
        (if_configured-Ends cfg.network (nets w.cloud) w refl) (inl refl)
