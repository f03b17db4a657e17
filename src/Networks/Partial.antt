-- ===== src/Networks/Partial.antt =====
-- A stack whose creation failed half-way: `ensure_network_stack` of src/resources/network.py.
use openstack_tenantctl.Base.{
  Bool, true, false, Option, none, some, List, ◌≡◌, ◌≢◌, refl, sym, arith, String, contains,
  string_eq, inl, inr, if◌then◌else◌, Result, ok, subst, ◌>>=◌,
}
use openstack_tenantctl.Cloud.{Neutron, Tenacity}
use openstack_tenantctl.Models.{ProjectConfig}
use openstack_tenantctl.Models.Network.{NetworkConfig}
use openstack_tenantctl.Store.Interface.{StateStore}
use openstack_tenantctl.Context.{Action, World, skipped, record_action}
use openstack_tenantctl.Context.Retry.{retried-ok}
use openstack_tenantctl.Networks.{NetworkCalls, find_network}
use openstack_tenantctl.Networks.Stack.{
  net_name, stack_action, unless_found, stack_online, if_configured, ensure_network_stack,
}
use openstack_tenantctl.Networks.Single.{HasNetworks, Grown, ensure_network_stack-Grown}

-- A network that the project has is found by its name.
abbrev pub Finds : {C : Type 0} → NetworkCalls C → String → (C → List String) → Type 0
Finds {C} K project_id nets =
    (name : String) (c : C)
    → contains (nets c) name ≡ true
    → (id : String) × (K.find_network name project_id c ≡ (ok (some id), c))

in-Grown :
    (name : String) (before after : List String)
    → Grown name before after
    → after ≢ before
    → contains after name ≡ true
in-Grown name before after (inl same) h = absurd (h same)
in-Grown name before after (inr (empty, one)) h = rw one (ground arith)

module _ {C S : Type 0} (N : Neutron C) (K : NetworkCalls C) (T : Tenacity) (st : StateStore S)
    (project_id : String) (nets : C → List String) (cfg : ProjectConfig) where
  -- What is found is left alone.
  abbrev pub LeftAlone : World C S → Result Action × World C S → Type 0
  LeftAlone w r =
      (action : Action) × (u : World C S) × (r ≡ (ok action, u))
      × (action.status ≡ skipped)
      × (u.cloud ≡ w.cloud)
      × (u.store ≡ w.store)

  found-LeftAlone :
      (network : NetworkConfig) (id : String) (w : World C S)
      → K.find_network (net_name cfg) project_id w.cloud ≡ (ok (some id), w.cloud)
      → LeftAlone w (stack_online N K T st cfg network project_id w)
  unfolding stack_online find_network unless_found stack_action record_action
  found-LeftAlone network id w h =
      subst
        (λ (r : Result (Option String) × C). LeftAlone w (
          ((λ (v : World C S). (r.0, record v { cloud = r.1 }))
              >>= unless_found N K T st cfg network project_id)
            w))
        (sym (retried-ok T (K.find_network (net_name cfg) project_id) w.cloud w.cloud (some id) h))
        (_, _, refl, refl, refl, refl)

  online-LeftAlone :
      (o : Option NetworkConfig) (id : String) (w : World C S)
      → K.find_network (net_name cfg) project_id w.cloud ≡ (ok (some id), w.cloud)
      → LeftAlone w (if_configured N K T st cfg project_id o w)
  unfolding if_configured stack_action record_action
  online-LeftAlone none id w h = (_, _, refl, refl, refl, refl)
  online-LeftAlone (some network) id w h = found-LeftAlone network id w h

  any-LeftAlone :
      (id : String) (w : World C S)
      → K.find_network (net_name cfg) project_id w.cloud ≡ (ok (some id), w.cloud)
      → LeftAlone w (ensure_network_stack N K T st cfg project_id w)
  unfolding ensure_network_stack stack_action record_action
  any-LeftAlone id w h =
      if-LeftAlone w.ctx.online _ _ (online-LeftAlone cfg.network id w h)
        (_, _, refl, refl, refl, refl)
    where
      if-LeftAlone :
          (b : Bool) (r q : Result Action × World C S)
          → LeftAlone w r
          → LeftAlone w q
          → LeftAlone w (if b then r else q)
      if-LeftAlone true r q l m = l
      if-LeftAlone false r q l m = m

  -- In a cloud that finds and lists the project's networks, and in which only a creation that returns
  -- adds one, nothing makes up for a run that added the network and then raised, before the subnet and
  -- the router were there: whatever that run came to, every later run over its cloud returns a skipped
  -- action and leaves the cloud and the store.
  pub ensure_network_stack_never_completed :
      (w v : World C S)
      → HasNetworks N K project_id nets
      → Finds K project_id nets
      → nets (ensure_network_stack N K T st cfg project_id w).1.cloud ≢ nets w.cloud
      → v.cloud ≡ (ensure_network_stack N K T st cfg project_id w).1.cloud
      → LeftAlone v (ensure_network_stack N K T st cfg project_id v)
  ensure_network_stack_never_completed w v H finds grew same =
      let there =
        in-Grown (net_name cfg) (nets w.cloud) _
          (ensure_network_stack-Grown N K T st project_id nets H cfg w) grew in
      let (id, found) = finds (net_name cfg) v.cloud (rw same there) in any-LeftAlone id v found
