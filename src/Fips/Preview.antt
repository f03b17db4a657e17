-- ===== src/Fips/Preview.antt =====
-- What a dry run of `ensure_preallocated_fips` does not look at.
use openstack_tenantctl.Base.{
  ℕ, Bool, true, false, not, List, ◌≡◌, refl, String, ◌==◌, string_eq, if◌then◌else◌, Result, ok,
  raised, Act, ◌>>=◌,
}
use openstack_tenantctl.Base.Int.{ℤ, pos, int_eq}
use openstack_tenantctl.Cloud.{Neutron, Tenacity}
use openstack_tenantctl.Models.{ProjectConfig, FipEntry}
use openstack_tenantctl.Store.Interface.{StateStore}
use openstack_tenantctl.Context.{World, on_cloud}
use openstack_tenantctl.ExternalNetwork.{
  resolve_project_external_network, resolve_uncached, project_subnet, project_network, is_empty,
}
use openstack_tenantctl.Fips.{partition_fips_by_network}
use openstack_tenantctl.Fips.Drift.{floating_ips_of}
use openstack_tenantctl.Fips.Scale.{list_floating_ips}
use openstack_tenantctl.Fips.Ensure.{
  note_foreign, report_scale, ensure_on_network, ensure_online, ensure_preallocated_fips,
  detect_router_gateway, prefer_router, has_network_quotas,
}
use openstack_tenantctl.Fips.DryRun.{ListingsKeep, Reports, resolve-Reports, note_foreign-Reports}

abbrev Anything : {C : Type 0} → C → Type 0
Anything c = Unit

module _ {C S : Type 0} where
  abbrev Same : {A : Type 0} → Act (World C S) A → Act (World C S) A → Type 0
  Same m k = (w : World C S) → w.ctx.dry_run ≡ true → m w ≡ k w

  after-Same :
      {A B : Type 0} (r : Result A × World C S) (f g : A → Act (World C S) B)
      → r.1.ctx.dry_run ≡ true
      → ((a : A) → Same (f a) (g a))
      → ((λ (_ : World C S). r) >>= f) r.1 ≡ ((λ (_ : World C S). r) >>= g) r.1
  after-Same (ok a, v) f g d same = same a v d
  after-Same (raised e, v) f g d same = refl

  bind-Same :
      {A B : Type 0} (m : Act (World C S) A) (f g : A → Act (World C S) B)
      → Reports {S = S} Anything m
      → ((a : A) → Same (f a) (g a))
      → Same (m >>= f) (m >>= g)
  bind-Same m f g keeps same w d = after-Same (m w) f g (keeps w d tt).1 same

  if-Same :
      {A : Type 0} (b : Bool) (m k n : Act (World C S) A)
      → Same k n
      → Same (if b then m else k) (if b then m else n)
  if-Same true m k n same w d = refl
  if-Same false m k n same w d = same w d

  chosen-same :
      {A : Type 0} (b : Bool) (m k n : Act (World C S) A) (v : World C S)
      → b ≡ true
      → (if b then m else k) v ≡ (if b then m else n) v
  chosen-same true m k n v e = refl
  chosen-same false m k n v e = cc

  if-equal :
      {A : Type 0} (b : Bool) (r q q' : Result A × World C S)
      → q ≡ q'
      → (if b then r else q) ≡ (if b then r else q')
  if-equal true r q q' e = refl
  if-equal false r q q' e = e

module _ {C S : Type 0} (N : Neutron C) (T : Tenacity) (st : StateStore S) (cfg : ProjectConfig)
    (fips : List FipEntry) where
  keeps : ListingsKeep N (Anything {C = C})
  keeps = record {
    ips = λ project_id c p. tt;
    routers = λ project_id c p. tt;
    find_subnet = λ name c p. tt;
    subnets = λ net c p. tt;
  }

  abbrev other : ProjectConfig
  other = record cfg { preallocated_fips = fips }

  resolve-same :
      resolve_project_external_network {S = S} N T other ≡ resolve_project_external_network N T cfg
  unfolding resolve_project_external_network resolve_uncached project_subnet project_network
  resolve-same = refl

  report_scale-same :
      (n : ℕ) (z : ℤ) → report_scale {C = C} {S = S} other n z ≡ report_scale cfg n z
  unfolding report_scale
  report_scale-same n z = refl

  ensure_on_network-Same :
      (project_id : String) (z : ℤ) (choice : String × String)
      → Same
          (ensure_on_network N T st other project_id z choice)
          (ensure_on_network N T st cfg project_id z choice)
  unfolding ensure_on_network report_scale list_floating_ips
  ensure_on_network-Same project_id z choice =
      let (net, subnet) = choice in
      if-Same (is_empty net) _ _ _ (
        bind-Same (on_cloud (list_floating_ips N T project_id)) _ _ (λ w d p. (refl, d, tt))
          (λ all_fips.
            let parts = partition_fips_by_network all_fips net in
            bind-Same (note_foreign parts.1 net) _ _ (note_foreign-Reports N T st keeps parts.1 net)
              (λ foreign v d. chosen-same v.ctx.dry_run _ _ _ v d)))

  ensure_online-Same :
      (project_id : String) (z : ℤ)
      → Same (ensure_online N T st other project_id z) (ensure_online N T st cfg project_id z)
  unfolding ensure_online
  ensure_online-Same project_id z = rw resolve-same (
      if-Same (z == pos 0) _ _ _ (
        bind-Same (resolve_project_external_network N T cfg) _ _ (resolve-Reports N T st keeps cfg)
          (λ configured.
            bind-Same (on_cloud (N.routers project_id)) _ _ (λ w d p. (refl, d, tt))
              (λ routers.
                ensure_on_network-Same project_id z
                  (prefer_router (detect_router_gateway routers) configured)))))

  -- A dry run does the same, and records the same actions, whatever floating IPs the state tracks:
  -- it reports no drift.
  pub ensure_preallocated_fips_no_drift :
      (project_id : String) (w : World C S)
      → w.ctx.dry_run ≡ true
      → ensure_preallocated_fips N T st (record cfg { preallocated_fips = fips }) project_id w
        ≡ ensure_preallocated_fips N T st cfg project_id w
  unfolding ensure_preallocated_fips
  ensure_preallocated_fips_no_drift project_id w d =
      if-equal (not (has_network_quotas cfg.quotas)) _ _ _ (
        if-equal (not w.ctx.online) _ _ _
          (ensure_online-Same project_id (floating_ips_of cfg.quotas) w d))
