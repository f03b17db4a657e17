-- ===== src/Fips/DryRun.antt =====
-- What a dry run of `ensure_preallocated_fips` does: it lists, resolves and reports.
use openstack_tenantctl.Base.{
  ℕ, Bool, true, false, not, ◌&&◌, ◌||◌, Option, none, some, List, [], ◌∷◌, ◌≡◌, refl, ◌∙◌, arith,
  String, ◌==◌, string_eq, pair_eq, if◌then◌else◌, length, Result, ok, raised, Act, ◌>>=◌,
}
use openstack_tenantctl.Base.Dict
use openstack_tenantctl.Base.Int.{ℤ, pos, int_eq}
use openstack_tenantctl.Cloud.{Neutron, Tenacity, FloatingIp, Attempts-keeps}
use openstack_tenantctl.Models.{ProjectConfig}
use openstack_tenantctl.Store.Interface.{StateStore}
use openstack_tenantctl.Context.{
  lit, int, skipped, ActionStatus, Details, World, on_cloud, record_action,
}
use openstack_tenantctl.Context.Retry.{is_retryable, retried}
use openstack_tenantctl.ExternalNetwork.{
  project_network, resolve_external_subnet, resolve_project_external_network, resolve_uncached,
  project_subnet, remember, is_empty,
}
use openstack_tenantctl.Fips.Scale.{list_floating_ips}
use openstack_tenantctl.Fips.Ensure.{
  one_action, note_foreign, report_scale, ensure_on_network, ensure_online,
  ensure_preallocated_fips, has_network_quotas, detect_router_gateway, prefer_router,
}
use openstack_tenantctl.Fips.{partition_fips_by_network}
use openstack_tenantctl.Fips.Drift.{floating_ips_of}

-- The listing calls keep `P`, as any of them does that only reads.
pub record ListingsKeep {C : Type 0} (N : Neutron C) (P : C → Type 0) : Type 0 where
  pub ips : (project_id : String) (c : C) → P c → P (N.ips project_id c).1
  pub routers : (project_id : String) (c : C) → P c → P (N.routers project_id c).1
  pub find_subnet : (name : String) (c : C) → P c → P (N.find_subnet name c).1
  pub subnets : (net : String) (c : C) → P c → P (N.subnets net c).1

pub retried-keeps :
    {C A : Type 0} (T : Tenacity) (P : C → Type 0) (body : Act C A)
    → ((c : C) → P c → P (body c).1)
    → (c : C) → P c
    → P (retried T body c).1
unfolding retried
retried-keeps {C} {A} T P body keeps c p =
    Attempts-keeps P keeps (T.retry-Attempts C A is_retryable 4 body c) p

module _ {C S : Type 0} (P : C → Type 0) where
  -- In a dry run the action leaves the store as it is, and the cloud with `P`.
  abbrev pub Reports : {A : Type 0} → Act (World C S) A → Type 0
  Reports m =
      (w : World C S)
      → w.ctx.dry_run ≡ true
      → P w.cloud
      → ((m w).1.store ≡ w.store) × ((m w).1.ctx.dry_run ≡ true) × P (m w).1.cloud

  after-Reports :
      {A B : Type 0} (r : Result A × World C S) (f : A → Act (World C S) B) (w : World C S)
      → ((a : A) → Reports (f a))
      → (r.1.store ≡ w.store) × (r.1.ctx.dry_run ≡ true) × P r.1.cloud
      → ((((λ (_ : World C S). r) >>= f) w).1.store ≡ w.store)
        × ((((λ (_ : World C S). r) >>= f) w).1.ctx.dry_run ≡ true)
        × P (((λ (_ : World C S). r) >>= f) w).1.cloud
  after-Reports (ok a, v) f w g (s, d, p) = let (s', d', p') = g a v d p in (s' ∙ s, d', p')
  after-Reports (raised e, v) f w g h = h

  pub bind-Reports :
      {A B : Type 0} (m : Act (World C S) A) (f : A → Act (World C S) B)
      → Reports m
      → ((a : A) → Reports (f a))
      → Reports (m >>= f)
  bind-Reports m f h g w d p = after-Reports (m w) f w g (h w d p)

  pub on_cloud-Reports :
      {A : Type 0} (m : Act C A) → ((c : C) → P c → P (m c).1) → Reports (on_cloud m)
  on_cloud-Reports m h w d p = (refl, d, h w.cloud p)

  if-Reports :
      {A : Type 0} (b : Bool) (m k : Act (World C S) A)
      → Reports m
      → Reports k
      → Reports (if b then m else k)
  if-Reports true m k h g = h
  if-Reports false m k h g = g

  abbrev IsKept : {A : Type 0} → World C S → Result A × World C S → Type 0
  IsKept w r = (r.1.store ≡ w.store) × (r.1.ctx.dry_run ≡ true) × P r.1.cloud

  if-IsKept :
      {A : Type 0} (w : World C S) (b : Bool) (r q : Result A × World C S)
      → IsKept w r
      → IsKept w q
      → IsKept w (if b then r else q)
  if-IsKept w true r q h g = h
  if-IsKept w false r q h g = g

  chosen-IsKept :
      {A : Type 0} (b : Bool) (m k : Act (World C S) A) (v : World C S)
      → b ≡ true
      → IsKept v (m v)
      → IsKept v ((if b then m else k) v)
  chosen-IsKept true m k v e h = h
  chosen-IsKept false m k v e h = cc

  one_action-Reports :
      (s : ActionStatus) (name : String) (ds : Details) → Reports (one_action s name ds)
  unfolding one_action record_action
  one_action-Reports s name ds w d p = (refl, d, p)

module _ {C S : Type 0} (N : Neutron C) (T : Tenacity) (st : StateStore S) {P : C → Type 0}
    (K : ListingsKeep N P) where
  resolve_external_subnet-keeps :
      (net subnet : String) (c : C) → P c → P (resolve_external_subnet N T net subnet c).1
  unfolding resolve_external_subnet
  resolve_external_subnet-keeps net subnet c p =
      let found = retried-keeps T P (N.find_subnet subnet) (K.find_subnet subnet) c p in
      let listed = retried-keeps T P (N.subnets net) (K.subnets net) c p in
      ground (arith, found, listed)

  project_subnet-Reports :
      (cfg : ProjectConfig) (start : String × String)
      → Reports {S = S} P (project_subnet N T cfg start)
  unfolding project_subnet
  project_subnet-Reports cfg start w d p =
      if-IsKept P w (is_empty cfg.external_network_subnet || not w.ctx.online || is_empty start.0) _
        _ (refl, d, p)
        (bind-Reports P (on_cloud (resolve_external_subnet N T start.0 cfg.external_network_subnet))
          _
          (on_cloud-Reports P (resolve_external_subnet N T start.0 cfg.external_network_subnet)
            (resolve_external_subnet-keeps start.0 cfg.external_network_subnet))
          (λ a v e q. (refl, e, q)) w d p)

  resolve_uncached-Reports : (cfg : ProjectConfig) → Reports {S = S} P (resolve_uncached N T cfg)
  unfolding resolve_uncached remember
  resolve_uncached-Reports cfg w d p =
      bind-Reports P (on_cloud (λ c. (project_network cfg w.ctx, c))) _
        (on_cloud-Reports P (λ c. (project_network cfg w.ctx, c)) (λ c q. q))
        (λ start.
          bind-Reports P (project_subnet N T cfg start) _ (project_subnet-Reports cfg start)
            (λ result v e q. (refl, e, q)))
        w d p

  cached-IsKept :
      (cfg : ProjectConfig) (found : Option (String × String)) (w : World C S)
      → w.ctx.dry_run ≡ true
      → P w.cloud
      → IsKept P {A = String × String} w
          (elim found [ some cached ↦ (ok cached, w) | none ↦ resolve_uncached N T cfg w ])
  cached-IsKept cfg (some cached) w d p = (refl, d, p)
  cached-IsKept cfg none w d p = resolve_uncached-Reports cfg w d p

  pub resolve-Reports :
      (cfg : ProjectConfig) → Reports {S = S} P (resolve_project_external_network N T cfg)
  unfolding resolve_project_external_network
  resolve-Reports cfg w d p =
      if-IsKept P w (is_empty cfg.external_network_name && is_empty cfg.external_network_subnet) _ _
        (refl, d, p)
        (cached-IsKept cfg
          (Dict.get (cfg.external_network_name, cfg.external_network_subnet)
            w.ctx.resolved_external_networks)
          w d p)

  report_scale-Reports :
      (cfg : ProjectConfig) (n : ℕ) (z : ℤ) → Reports {S = S} P (report_scale cfg n z)
  unfolding report_scale one_action record_action
  report_scale-Reports cfg n z w d p = ground (arith, d, p)

  pub note_foreign-Reports :
      (fs : List FloatingIp) (net : String) → Reports {S = S} P (note_foreign fs net)
  unfolding note_foreign one_action record_action
  note_foreign-Reports [] net w d p = (refl, d, p)
  note_foreign-Reports (f ∷ fs) net w d p = (refl, d, p)

  ensure_on_network-Reports :
      (cfg : ProjectConfig) (project_id : String) (z : ℤ) (choice : String × String)
      → Reports P (ensure_on_network N T st cfg project_id z choice)
  unfolding ensure_on_network list_floating_ips
  ensure_on_network-Reports cfg project_id z choice =
      let (net, subnet) = choice in
      if-Reports P (is_empty net) _ _
        (one_action-Reports P skipped "" (lit "no external network — cannot allocate FIPs" ∷ []))
        (bind-Reports P (on_cloud (list_floating_ips N T project_id)) _
          (on_cloud-Reports P (list_floating_ips N T project_id)
            (retried-keeps T P (N.ips project_id) (K.ips project_id)))
          (λ all_fips.
            let parts = partition_fips_by_network all_fips net in
            bind-Reports P (note_foreign parts.1 net) _ (note_foreign-Reports parts.1 net)
              (λ foreign v e q. chosen-IsKept P v.ctx.dry_run _ _ v e (
                bind-Reports P (report_scale cfg (length parts.0) z) _
                  (report_scale-Reports cfg (length parts.0) z) (λ actions u f r. (refl, f, r)) v e
                  q))))

  ensure_online-Reports :
      (cfg : ProjectConfig) (project_id : String) (z : ℤ)
      → Reports P (ensure_online N T st cfg project_id z)
  unfolding ensure_online
  ensure_online-Reports cfg project_id z =
      if-Reports P (z == pos 0) _ _
        (one_action-Reports P skipped "" (lit "no floating IPs requested" ∷ []))
        (bind-Reports P (resolve_project_external_network N T cfg) _ (resolve-Reports cfg)
          (λ configured.
            bind-Reports P (on_cloud (N.routers project_id)) _
              (on_cloud-Reports P (N.routers project_id) (K.routers project_id))
              (λ routers.
                ensure_on_network-Reports cfg project_id z
                  (prefer_router (detect_router_gateway routers) configured))))

  -- A dry run of the pre-allocation leaves the state store as it is, and keeps of the cloud
  -- whatever the calls that list keep.
  pub ensure_preallocated_fips_dry_run :
      (cfg : ProjectConfig) (project_id : String) (w : World C S)
      → w.ctx.dry_run ≡ true
      → P w.cloud
      → ((ensure_preallocated_fips N T st cfg project_id w).1.store ≡ w.store)
        × P (ensure_preallocated_fips N T st cfg project_id w).1.cloud
  unfolding ensure_preallocated_fips
  ensure_preallocated_fips_dry_run cfg project_id w d p =
      let (s, _, q) =
        if-IsKept P w (not (has_network_quotas cfg.quotas)) _ _
          (one_action-Reports P skipped "all" (lit "no quotas.network configured" ∷ []) w d p)
          (if-IsKept P w (not w.ctx.online) _ _
            (one_action-Reports P skipped cfg.name
              (lit "would allocate "
                ∷ int (floating_ips_of cfg.quotas)
                ∷ lit " FIP(s) and set quota (offline)"
                ∷ [])
              w d p)
            (ensure_online-Reports cfg project_id (floating_ips_of cfg.quotas) w d p)) in
      (s, q)
