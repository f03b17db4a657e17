-- ===== src/Fips/Unlimited.antt =====
-- What `ensure_preallocated_fips` does with a negative number of floating IPs. Validation of the
-- quotas (src/models/quotas.py) accepts -1 as "unlimited".
use openstack_tenantctl.Base.{
  ℕ, zero, suc, ◌+◌, ◌≤◌, List, [], ◌∷◌, ◌≡◌, refl, sym, subst, arith, String, length, keep, take,
  map, All, some, ok, true, ◌∙◌, ap, inl, inr, Bool-cases,
}
use openstack_tenantctl.Base.Int.{pos, negsuc, pos_part, ◌-ℤ◌, int_eq}
use openstack_tenantctl.Cloud.{Neutron, Tenacity, FloatingIp}
use openstack_tenantctl.Models.{ProjectConfig, from_sdk, fip_to_dict, dict_list}
use openstack_tenantctl.Store.{get}
use openstack_tenantctl.Store.Interface.{StateStore, IsLawful}
use openstack_tenantctl.Context.{Action, World}
use openstack_tenantctl.Fips.Deleting.{Deletes, scale_down-run}
use openstack_tenantctl.Fips.Remaining.{InUse, keep-unused, keep-used, All-Doomed, unused-Doomed}
use openstack_tenantctl.Fips.{is_unused, to_delete, remaining_fips}
use openstack_tenantctl.Fips.Scale.{scale_down_fips}
use openstack_tenantctl.Fips.Ensure.{scale_fips}

take-keep_all :
    (n : ℕ) (fips : List FloatingIp)
    → length fips ≤ n
    → take n (keep is_unused fips) ≡ keep is_unused fips
take-keep_all zero [] h = refl
take-keep_all (suc n) [] h = refl
take-keep_all zero (f ∷ fips) h = let n : ⊥ = omega (arith, h) in absurd n
take-keep_all (suc n) (f ∷ fips) h =
    ground (arith, take-keep_all n fips, take-keep_all (suc n) fips)

unused-All :
    (P : String → Type 0) (fips : List FloatingIp)
    → All (λ (f : FloatingIp). P f.id) (keep is_unused fips)
    → All (λ (f : FloatingIp). is_unused f ≡ true → P f.id) fips
unused-All P [] h = tt
unused-All P (f ∷ fips) h = elim (Bool-cases (is_unused f)) [
  | inl unused ↦
      let (p, more) = rw (keep-unused f fips unused) at h in (λ _. p, unused-All P fips more)
  | inr used ↦ (λ unused. cc, unused-All P fips (rw (keep-used f fips used) at h))
]

module _ {C S : Type 0} (N : Neutron C) (T : Tenacity) (st : StateStore S)
    (gone : String → C → Type 0) (D : Deletes N gone) where
  -- In a store that keeps what is saved, and a cloud in which a deletion that returns is final, a run with
  -- a negative number of wanted floating IPs, as in the "unlimited" quota -1, that returns has deleted
  -- every floating IP that is not in use, and tracks only ones that are in use.
  pub scale_fips_unlimited :
      {Sound : S → Type 0} (L : IsLawful st Sound) (cfg : ProjectConfig)
      (project_id net subnet : String) (k : ℕ) (fips : List FloatingIp) (w v : World C S)
      (actions : List Action)
      → Sound w.store
      → w.ctx.has_store ≡ true
      → scale_fips N T st cfg project_id net subnet (negsuc k) fips w ≡ (ok actions, v)
      → (left : List FloatingIp) × (get "preallocated_fips" (st.load cfg.state_key v.store)
          ≡ some (dict_list fip_to_dict (map from_sdk left)))
        × All InUse left
        × All (λ (f : FloatingIp). is_unused f ≡ true → gone f.id v.cloud) fips
  unfolding scale_fips to_delete int_eq
  scale_fips_unlimited L cfg project_id net subnet k fips w v actions sound on h =
      let down : scale_fips N T st cfg project_id net subnet (negsuc k) fips w
          ≡ scale_down_fips N T st cfg project_id fips (length fips) (negsuc k) w =
        ground arith in
      let (doomed, e, all, tracked) =
        scale_down-run N T st gone D L cfg project_id fips (negsuc k) w v actions sound on
          (sym down ∙ h) in
      let count : pos_part (pos (length fips) -ℤ negsuc k) ≡ length fips + suc k = ground arith in
      let same : doomed ≡ keep is_unused fips =
        e
        ∙ ap (λ n. take n (keep is_unused fips)) count
        ∙ take-keep_all (length fips + suc k) fips (omega arith) in
      (
        remaining_fips fips doomed,
        tracked,
        rw same (All-Doomed (keep is_unused fips) fips (unused-Doomed fips)),
        unused-All (λ i. gone i v.cloud) fips
            (subst (All (λ (f : FloatingIp). gone f.id v.cloud)) same all),
      )
