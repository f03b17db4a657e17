-- ===== src/Fips/Deleting.antt =====
-- What `_scale_down_fips` deletes, and what it writes down of those that remain.
use openstack_tenantctl.Base.{
  ℕ, zero, suc, ◌-◌, true, some, List, [], ◌∷◌, ◌++◌, map, ◌≡◌, refl, ap, sym, subst, ◌∙◌, arith,
  String, length, bind_ok, ok, Exc, pure, each, All, ◌>>=◌, bad_request,
}
use openstack_tenantctl.Base.Int.{ℤ, pos, pos_part, ◌-ℤ◌, max_ℤ}
use openstack_tenantctl.Base.Holding.{Holds, bind-Holds, catch-Holds, each-Holds, All-every}
use openstack_tenantctl.Cloud.{Neutron, Tenacity, FloatingIp}
use openstack_tenantctl.Models.{ProjectConfig, from_sdk, fip_to_dict, dict_list}
use openstack_tenantctl.Store.{get}
use openstack_tenantctl.Store.Path.{get-put_self}
use openstack_tenantctl.Store.Interface.{StateStore, IsLawful}
use openstack_tenantctl.Context.{Action, World, on_cloud, record_action}
use openstack_tenantctl.Context.Retry.{retried-Holds, retried-result}
use openstack_tenantctl.Fips.{to_delete, remaining_fips}
use openstack_tenantctl.Fips.Quota.{
  set_fip_quota_and_record, set_fip_quota, set_once, fall_back, note_quota, QuotaSet, as_wanted,
}
use openstack_tenantctl.Fips.Persist.{persist_fips}
use openstack_tenantctl.Fips.Released.{save_or_raise-loads}
use openstack_tenantctl.Fips.Scale.{
  delete_floating_ip, release_unused, note_in_use, scale_down_fips,
}
use openstack_tenantctl.Fips.ScaleUp.{SameStore, quota_last-SameStore, raised-SameStore}

-- A floating IP whose deletion returns is gone, and no deletion and no quota call brings it back.
pub record Deletes {C : Type 0} (N : Neutron C) (gone : String → C → Type 0) : Type 0 where
  pub delete-gone : (i : String) (c c' : C) → N.delete_ip i c ≡ (ok tt, c') → gone i c'
  pub delete-keeps : (i j : String) → Holds (gone i) (N.delete_ip j)
  pub update-keeps : (i project_id : String) (n : ℤ) → Holds (gone i) (N.update_quota project_id n)
  pub details-keeps : (i project_id : String) → Holds (gone i) (N.get_quota_details project_id)

All-implied :
    (P Q : FloatingIp → Type 0)
    → ((f : FloatingIp) → P f → Q f)
    → (fips : List FloatingIp) → All P fips
    → All Q fips
All-implied P Q h [] all = tt
All-implied P Q h (f ∷ fips) (p, all) = (h f p, All-implied P Q h fips all)

module _ {C S : Type 0} (N : Neutron C) (T : Tenacity) (st : StateStore S)
    (gone : String → C → Type 0) (D : Deletes N gone) where
  abbrev Gone : String → World C S → Type 0
  Gone i w = gone i w.cloud

  delete-gone_lem : (i : String) (c c' : C) → delete_floating_ip N T i c ≡ (ok tt, c') → gone i c'
  unfolding delete_floating_ip
  delete-gone_lem i c c' h =
      retried-result (λ r. r ≡ (ok tt, c') → gone i c') T (N.delete_ip i) c
        (λ v. D.delete-gone i v c') h

  release-Gone :
      (f : FloatingIp) (w u : World C S) (a : Action)
      → release_unused N T st f w ≡ (ok a, u)
      → Gone f.id u × SameStore N T st w u
  unfolding release_unused record_action
  release-Gone f w u a h =
      let (done, v, e, h') = bind_ok (on_cloud (delete_floating_ip N T f.id)) _ w a u h in
      let there : Gone f.id v =
        delete-gone_lem f.id w.cloud v.cloud (ap (λ r. (r.0, r.1.cloud)) e) in
      let same : SameStore N T st w v =
        raised-SameStore N T st (delete_floating_ip N T f.id) w v done e in
      let last : v.cloud ≡ u.cloud = ap (λ r. r.1.cloud) h' in
      let stored : v.store ≡ u.store = ap (λ r. r.1.store) h' in
      let has : v.ctx.has_store ≡ u.ctx.has_store = ap (λ r. r.1.ctx.has_store) h' in
      (subst (gone f.id) last there, (sym stored ∙ same.0, sym has ∙ same.1))

  release-Holds : (i : String) (f : FloatingIp) → Holds (Gone i) (release_unused N T st f)
  unfolding release_unused delete_floating_ip record_action
  release-Holds i f =
      bind-Holds (Gone i) (on_cloud (delete_floating_ip N T f.id)) _
        (λ w p. retried-Holds (gone i) T _ (D.delete-keeps i f.id) w.cloud p) (λ u w p. p)

  -- The loop over those that are to go.
  releases-Gone :
      (doomed : List FloatingIp) (w u : World C S) (actions : List Action)
      → each (release_unused N T st) doomed w ≡ (ok actions, u)
      → All (λ (f : FloatingIp). Gone f.id u) doomed × SameStore N T st w u
  unfolding each
  releases-Gone [] w u actions h =
      (tt, (ap (λ r. r.1.store) (sym h), ap (λ r. r.1.ctx.has_store) (sym h)))
  releases-Gone (f ∷ doomed) w u actions h =
      let (a, v, e, h') = bind_ok (release_unused N T st f) _ w actions u h in
      let (rest, t, e', h'') = bind_ok (each (release_unused N T st) doomed) _ v actions u h' in
      let (here, same) = release-Gone f w v a e in
      let (more, same') = releases-Gone doomed v t rest e' in
      let last : t ≡ u = ap (λ r. r.1) h'' in
      let kept : Gone f.id t = rw e' at (
        each-Holds {W = World C S} (Gone f.id) (λ (g : FloatingIp). Unit {0})
          (release_unused N T st) (λ g _. release-Holds f.id g) doomed
          (All-every _ (λ g. tt) doomed) v here) in
      subst (λ x. All (λ (g : FloatingIp). Gone g.id x) (f ∷ doomed) × SameStore N T st w x) last
        ((kept, more), (same'.0 ∙ same.0, same'.1 ∙ same.1))

  fall_back-Holds : (i project_id : String) (e : Exc) → Holds (gone i) (fall_back N T project_id e)
  unfolding fall_back
  fall_back-Holds i project_id bad_request =
      bind-Holds (gone i) (N.get_quota_details project_id) _ (D.details-keeps i project_id)
        λ detail. bind-Holds (gone i) _ _ (D.update-keeps i project_id _) (λ _ c p. p)
  fall_back-Holds i project_id e = λ c p. p

  set_once-Holds : (i project_id : String) (n : ℤ) → Holds (gone i) (set_once N T project_id n)
  unfolding set_once
  set_once-Holds i project_id n =
      catch-Holds (gone i) (N.update_quota project_id n >>= λ _. pure as_wanted)
        (fall_back N T project_id)
        (bind-Holds (gone i) (N.update_quota project_id n) (λ _. pure as_wanted)
          (D.update-keeps i project_id n) (λ _ c q. q))
        (fall_back-Holds i project_id)

  note_quota-Holds :
      (i : String) (desired effective : ℤ) (outcome : QuotaSet)
      → Holds (Gone i) (note_quota {C = C} {S = S} N T desired effective outcome)
  unfolding note_quota record_action
  note_quota-Holds i desired effective outcome w p = ground (arith, p)

  quota-Holds :
      (i project_id : String) (desired actual : ℤ)
      → Holds (Gone i) (set_fip_quota_and_record {C = C} {S = S} N T project_id desired actual)
  unfolding set_fip_quota_and_record set_fip_quota
  quota-Holds i project_id desired actual =
      bind-Holds (Gone i) (on_cloud (set_fip_quota N T project_id (max_ℤ desired actual))) _
        (λ w p.
          retried-Holds (gone i) T (set_once N T project_id (max_ℤ desired actual))
            (set_once-Holds i project_id (max_ℤ desired actual)) w.cloud p)
        (note_quota-Holds i desired (max_ℤ desired actual))

  note_in_use-same :
      (n : ℕ) (desired : ℤ) (left : ℕ) (w : World C S)
      → ((note_in_use N T st n desired left w).1.cloud ≡ w.cloud)
        × SameStore N T st w (note_in_use N T st n desired left w).1
  unfolding note_in_use record_action
  note_in_use-same zero desired left w = (refl, (refl, refl))
  note_in_use-same (suc n) desired left w = (refl, (refl, refl))

  save-cloud :
      (cfg : ProjectConfig) (left : List FloatingIp) (w : World C S)
      → (persist_fips st cfg (map from_sdk left) w).1.cloud ≡ w.cloud
  unfolding persist_fips
  save-cloud cfg left w = ground arith

  -- A run that scales down and returns has deleted those that were to go, and has written down
  -- those that remain.
  pub scale_down-run :
      {Sound : S → Type 0} (L : IsLawful st Sound) (cfg : ProjectConfig) (project_id : String)
      (fips : List FloatingIp) (desired : ℤ) (w v : World C S) (actions : List Action)
      → Sound w.store
      → w.ctx.has_store ≡ true
      → scale_down_fips N T st cfg project_id fips (length fips) desired w ≡ (ok actions, v)
      → (doomed : List FloatingIp) × (doomed
          ≡ to_delete fips (pos_part (pos (length fips) -ℤ desired)))
        × All (λ (f : FloatingIp). gone f.id v.cloud) doomed
        × (get "preallocated_fips" (st.load cfg.state_key v.store)
            ≡ some (dict_list fip_to_dict (map from_sdk (remaining_fips fips doomed))))
  unfolding scale_down_fips persist_fips
  scale_down-run {Sound = Sound} L cfg project_id fips desired w v actions sound on h =
      let excess = pos_part (pos (length fips) -ℤ desired) in
      let doomed = to_delete fips excess in
      let left = remaining_fips fips doomed in
      let (releases, w1, e1, h1) = bind_ok (each (release_unused N T st) doomed) _ w actions v h in
      let (all, stored) = releases-Gone doomed w w1 releases e1 in
      let note =
        note_in_use N T st (excess - length doomed) desired (length fips - length doomed) in
      let (in_use, w2, e2, h2) = bind_ok note _ w1 actions v h1 in
      let (cloud2, stored2) =
        rw e2 at
          (note_in_use-same (excess - length doomed) desired (length fips - length doomed) w1) in
      let (w3, e3, loads, _, _) =
        save_or_raise-loads st L cfg "preallocated_fips" (dict_list fip_to_dict (map from_sdk left))
          w2 (subst Sound (sym (stored2.0 ∙ stored.0)) sound) (stored2.1 ∙ stored.1 ∙ on) in
      let (done, t, e4, h3) = bind_ok (persist_fips st cfg (map from_sdk left)) _ w2 actions v h2 in
      let same : t ≡ w3 = ap (λ r. r.1) (sym e4 ∙ e3) in
      let cloud3 : t.cloud ≡ w2.cloud = rw e4 at (save-cloud cfg left w2) in
      let (q, u, e5, h4) =
        bind_ok (set_fip_quota_and_record N T project_id desired (pos (length left))) _ t actions v
          h3 in
      let kept =
        quota_last-SameStore N T st project_id desired (pos (length left)) (releases ++ in_use) t v
          actions h3 in
      (
        doomed,
        refl,
        All-implied (λ (f : FloatingIp). gone f.id w1.cloud) (λ (f : FloatingIp). gone f.id v.cloud)
            (λ f p. subst (gone f.id) (ap (λ r. r.1.cloud) h4) (
              rw e5 at (
                quota-Holds f.id project_id desired (pos (length left)) t
                  (subst (gone f.id) (sym (cloud3 ∙ cloud2)) p))))
            doomed all,
        ap (λ s. get "preallocated_fips" (st.load cfg.state_key s)) (kept ∙ ap (λ x. x.store) same)
            ∙ rw loads (
                get-put_self "preallocated_fips" (dict_list fip_to_dict (map from_sdk left))
                  (st.load cfg.state_key w2.store)),
      )
