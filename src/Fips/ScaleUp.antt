-- ===== src/Fips/ScaleUp.antt =====
-- What `_scale_up_fips` writes down.
use openstack_tenantctl.Base.{
  ℕ, zero, suc, ◌+◌, ◌≤◌, true, some, List, [], ◌∷◌, ◌++◌, map, ◌≡◌, refl, ap, sym, subst, ◌∙◌,
  arith, String, length, bind_ok, ok, Act, pure, ◌>>=◌,
}
use openstack_tenantctl.Base.Int.{ℤ, pos, pos_part, ◌-ℤ◌}
use openstack_tenantctl.Cloud.{Neutron, Tenacity, FloatingIp}
use openstack_tenantctl.Models.{ProjectConfig, FipEntry, from_sdk, fip_to_dict, dict_list}
use openstack_tenantctl.Store.{get}
use openstack_tenantctl.Store.Path.{get-put_self}
use openstack_tenantctl.Store.Interface.{StateStore, IsLawful}
use openstack_tenantctl.Context.{Action, World, on_cloud, record_action}
use openstack_tenantctl.Fips.Quota.{raise_fip_quota, set_fip_quota_and_record, note_quota}
use openstack_tenantctl.Fips.Persist.{persist_fips}
use openstack_tenantctl.Fips.Released.{save_or_raise-loads}
use openstack_tenantctl.Fips.Scale.{allocate, repeat, with_action, scale_up_fips}

length-entries :
    (ts : List (FipEntry × Action)) → length (map (λ (t : FipEntry × Action). t.0) ts) ≡ length ts
length-entries [] = refl
length-entries (t ∷ ts) = rw (length-entries ts) refl

counted :
    (desired existing n : ℕ)
    → existing ≤ desired
    → n ≡ pos_part (pos desired -ℤ pos existing)
    → existing + n ≡ desired
counted desired existing n le e = ground arith

module _ {C S : Type 0} (N : Neutron C) (T : Tenacity) (st : StateStore S) where
  -- The store, and whether the run has one, are as before.
  abbrev pub SameStore : World C S → World C S → Type 0
  SameStore w v = (v.store ≡ w.store) × (v.ctx.has_store ≡ w.ctx.has_store)

  allocate-SameStore :
      (net project_id subnet : String) (w : World C S)
      → SameStore w (allocate N T st net project_id subnet w).1
  unfolding allocate record_action
  allocate-SameStore net project_id subnet w = ground arith

  repeat-SameStore :
      {A : Type 0} (m : Act (World C S) A)
      → ((w : World C S) → SameStore w (m w).1)
      → (n : ℕ) (w v : World C S) (as' : List A) → repeat N T st n m w ≡ (ok as', v)
      → (length as' ≡ n) × SameStore w v
  unfolding repeat
  repeat-SameStore m keeps zero w v as' h = ground arith
  repeat-SameStore m keeps (suc n) w v as' h =
      let (a, u, e, h') =
        bind_ok m (λ a. repeat N T st n m >>= λ rest. pure (a ∷ rest)) w as' v h in
      let (rest, t, e', h'') = bind_ok (repeat N T st n m) (λ rest. pure (a ∷ rest)) u as' v h' in
      let later = repeat-SameStore m keeps n u t rest e' in
      let first : SameStore w u = rw e at (keeps w) in
      (
        ground (arith, h'', later),
        (ground (arith, h'', later, first), ground (arith, h'', later, first)),
      )

  pub quota-SameStore :
      (project_id : String) (desired actual : ℤ) (w : World C S)
      → SameStore w (set_fip_quota_and_record N T project_id desired actual w).1
  unfolding set_fip_quota_and_record note_quota record_action
  quota-SameStore project_id desired actual w = ground arith

  pub raised-SameStore :
      {A : Type 0} (m : Act C A) (w v : World C S) (a : A)
      → on_cloud m w ≡ (ok a, v)
      → SameStore w v
  raised-SameStore m w v a h =
      let e : (on_cloud m w).1 ≡ v = ap (λ r. r.1) h in subst (SameStore w) e (refl, refl)

  pub quota_last-SameStore :
      (project_id : String) (desired actual : ℤ) (done : List Action) (w v : World C S)
      (actions : List Action)
      → (set_fip_quota_and_record N T project_id desired actual >>= λ q. pure (with_action done q))
          w
        ≡ (ok actions, v)
      → v.store ≡ w.store
  quota_last-SameStore project_id desired actual done w v actions h =
      let (q, t, e, h') =
        bind_ok (set_fip_quota_and_record N T project_id desired actual)
          (λ q. pure (with_action done q)) w actions v h in
      let kept : SameStore w t = rw e at (quota-SameStore project_id desired actual w) in
      ap (λ r. r.1.store) (sym h') ∙ kept.0

  -- In a store that keeps what is saved, a run that scales up to `desired` floating IPs and returns
  -- has written down those that existed and new ones, which are `desired` together.
  pub scale_up_fips_tracks :
      {Sound : S → Type 0} (L : IsLawful st Sound) (cfg : ProjectConfig) (project_id : String)
      (existing_fips : List FloatingIp) (desired : ℕ) (net subnet : String) (w v : World C S)
      (actions : List Action)
      → Sound w.store
      → w.ctx.has_store ≡ true
      → length existing_fips ≤ desired
      → scale_up_fips N T st cfg project_id existing_fips
          (length existing_fips)
          (pos desired)
          net
          subnet
          w
        ≡ (ok actions, v)
      → (new : List FipEntry) × (length existing_fips + length new ≡ desired)
        × (get "preallocated_fips" (st.load cfg.state_key v.store)
            ≡ some (dict_list fip_to_dict (map from_sdk existing_fips ++ new)))
  unfolding scale_up_fips persist_fips
  scale_up_fips_tracks {Sound = Sound} L cfg project_id existing_fips desired net subnet w v actions
        sound on le h =
      let n = pos_part (pos desired -ℤ pos (length existing_fips)) in
      let raise = on_cloud (raise_fip_quota N T project_id (pos desired)) in
      let (u0, w0, e0, h0) = bind_ok raise _ w actions v h in
      let started : SameStore w w0 =
        raised-SameStore (raise_fip_quota N T project_id (pos desired)) w w0 u0 e0 in
      let (allocations, w1, e1, h1) =
        bind_ok (repeat N T st n (allocate N T st net project_id subnet)) _ w0 actions v h0 in
      let (count, (stored, has)) =
        repeat-SameStore (allocate N T st net project_id subnet)
          (allocate-SameStore net project_id subnet) n w0 w1 allocations e1 in
      let new = map (λ (t : FipEntry × Action). t.0) allocations in
      let tracked = map from_sdk existing_fips ++ new in
      let (w2, e2, loads, _, _) =
        save_or_raise-loads st L cfg "preallocated_fips" (dict_list fip_to_dict tracked) w1
          (subst Sound (sym (stored ∙ started.0)) sound) (has ∙ started.1 ∙ on) in
      let (u2, t2, e3, h2) = bind_ok (persist_fips st cfg tracked) _ w1 actions v h1 in
      let kept =
        quota_last-SameStore project_id (pos desired)
          (pos (length existing_fips + length allocations)) (map (λ t. t.1) allocations) t2 v
          actions h2 in
      let same : t2 ≡ w2 = ap (λ r. r.1) (sym e3 ∙ e2) in
      (
        new,
        counted desired (length existing_fips) (length new) le (length-entries allocations ∙ count),
        ap (λ s. get "preallocated_fips" (st.load cfg.state_key s)) (kept ∙ ap (λ t. t.store) same)
            ∙ rw loads (
                get-put_self "preallocated_fips" (dict_list fip_to_dict tracked)
                  (st.load cfg.state_key w1.store)),
      )
