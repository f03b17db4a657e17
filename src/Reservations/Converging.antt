-- ===== src/Reservations/Converging.antt =====
-- What a live run over the reservations comes to, when nothing fails.
use openstack_tenantctl.Base.{
  ℕ, Bool, true, false, not, ◌&&◌, ◌||◌, List, [], ◌∷◌, ◌++◌, map, ◌≡◌, refl, sym, ◌∙◌, ap, arith,
  String, ◌==◌, contains, string_eq, if◌then◌else◌, keep, contains-keep, ok, Act, pure, length,
  subst,
}
use openstack_tenantctl.Base.Dict
use openstack_tenantctl.Base.Sorting.{sorted_by-contains}
use openstack_tenantctl.Cloud.{Tenacity}
use openstack_tenantctl.Models.{ProjectConfig}
use openstack_tenantctl.Models.Reservations.{
  GrantedFlavorAccessEntry, RevokedFlavorAccessEntry, granted_list_eq, revoked_list_eq,
}
use openstack_tenantctl.Store.{Value, plain, serialize_value}
use openstack_tenantctl.Store.Interface.{StateStore, IsLawful}
use openstack_tenantctl.Context.{Action, World, record_action}
use openstack_tenantctl.Fips.Persist.{save_or_raise}
use openstack_tenantctl.Reservations.{
  FlavorCalls, Grants, is_desired, somes, covered_by, to_revoke, to_grant, all_revoked,
}
use openstack_tenantctl.Reservations.Granting.{
  grant_one, verify_one, revoke_uncovered, persist_grants, persist_new, persist_final,
  reconcile_revoked,
}
use openstack_tenantctl.Reservations.Ensure.{converge, unless_none, one_action}
use openstack_tenantctl.Reservations.Access.{
  KeepsAccess, grants_each, revokes_each, grant_one-Changes, verify_one-Changes,
  revoke_uncovered-Changes,
}

module _ {C S : Type 0} (st : StateStore S) {Sound : S → Type 0} (L : IsLawful st Sound) where
  abbrev CanSave : World C S → Type 0
  CanSave w = Sound w.store × (w.ctx.has_store ≡ true)

  -- The statement returns and leaves the cloud, in a run that can save, which it can afterwards.
  abbrev Saves : {A : Type 0} → Act (World C S) A → Type 0
  Saves {A} m =
      (w : World C S)
      → CanSave w
      → (a : A) × (v : World C S) × (m w ≡ (ok a, v)) × (v.cloud ≡ w.cloud) × CanSave v

  still-CanSave :
      (v w : World C S)
      → v.store ≡ w.store
      → v.ctx.has_store ≡ w.ctx.has_store
      → CanSave w
      → CanSave v
  still-CanSave v w s t (sound, on) = (subst Sound (sym s) sound, t ∙ on)

  save_or_raise-Saves :
      (cfg : ProjectConfig) (key : String) (x : Value) → Saves (save_or_raise st cfg key (plain x))
  unfolding serialize_value
  save_or_raise-Saves cfg key x w (sound, on) =
      let s = (st.save cfg.state_key (key ∷ []) (plain x) w.store).1 in
      let returns = L.save-returns cfg.state_key key [] (plain x) x w.store sound refl in
      (
        tt,
        record w { store = s },
        ground (arith, on, returns),
        refl,
        (L.save-Sound cfg.state_key key [] (plain x) x w.store sound refl, on),
      )

  pure-Saves : {A : Type 0} (a : A) → Saves (pure a)
  pure-Saves a w c = (a, w, refl, refl, c)

  if-Saves :
      {A : Type 0} (b : Bool) (m k : Act (World C S) A)
      → Saves m
      → Saves k
      → Saves (if b then m else k)
  if-Saves true m k h g = h
  if-Saves false m k h g = g

  persist_new-Saves :
      (cfg : ProjectConfig) (new_grants : List GrantedFlavorAccessEntry)
      → Saves (persist_new st cfg new_grants)
  unfolding persist_new persist_grants
  persist_new-Saves cfg [] = pure-Saves tt
  persist_new-Saves cfg (g ∷ new_grants) = save_or_raise-Saves cfg "granted_flavor_access" _

  persist_final-Saves :
      (cfg : ProjectConfig) (grants : List GrantedFlavorAccessEntry)
      → Saves (persist_final st cfg grants)
  unfolding persist_final persist_grants
  persist_final-Saves cfg grants =
      if-Saves (grants == cfg.granted_flavor_access) _ _ (pure-Saves tt)
        (save_or_raise-Saves cfg "granted_flavor_access" _)

  reconcile_revoked-Saves :
      (cfg : ProjectConfig) (grants : List GrantedFlavorAccessEntry)
      (new : List RevokedFlavorAccessEntry)
      → Saves (reconcile_revoked st cfg grants new)
  unfolding reconcile_revoked
  reconcile_revoked-Saves cfg grants new =
      if-Saves (all_revoked grants cfg.revoked_flavor_access new == cfg.revoked_flavor_access) _ _
        (pure-Saves tt) (save_or_raise-Saves cfg "revoked_flavor_access" _)

-- Which flavors are granted, verified and revoked.
desired_contains :
    (desired : Grants) (k : String) → contains (map (λ e. e.0) desired) k ≡ is_desired desired k
unfolding is_desired Dict.get
desired_contains [] k = refl
desired_contains ((j, g) ∷ desired) k = ground (arith, desired_contains desired k)

abbrev ids_of : List GrantedFlavorAccessEntry → List String
ids_of grants = map (λ g. g.flavor_id) grants

module _ (desired : Grants) (tracked : List GrantedFlavorAccessEntry) (k : String) where
  to_grant-contains :
      contains (map (λ e. e.0) (to_grant desired tracked)) k
      ≡ (not (contains (ids_of tracked) k) && is_desired desired k)
  unfolding to_grant
  to_grant-contains =
      sorted_by-contains (λ e. e.0) (keep (λ e. not (contains (ids_of tracked) e.0)) desired) k
      ∙ contains-keep (λ e. e.0) (λ j. not (contains (ids_of tracked) j)) desired k
      ∙ ap (λ b. not (contains (ids_of tracked) k) && b) (desired_contains desired k)

  covered_by-contains :
      contains (ids_of (covered_by desired tracked)) k
      ≡ (is_desired desired k && contains (ids_of tracked) k)
  unfolding covered_by
  covered_by-contains = contains-keep (λ g. g.flavor_id) (is_desired desired) tracked k

  to_revoke-contains :
      contains (ids_of (to_revoke desired tracked)) k
      ≡ (not (is_desired desired k) && contains (ids_of tracked) k)
  unfolding to_revoke
  to_revoke-contains = contains-keep (λ g. g.flavor_id) (λ j. not (is_desired desired j)) tracked k

-- The three changes in a row.
combined :
    (t d granted covered revoked a0 a1 a2 a3 : Bool)
    → granted ≡ (not t && d)
    → covered ≡ (d && t)
    → revoked ≡ (not d && t)
    → a1 ≡ (granted || a0)
    → a2 ≡ (covered || a1)
    → a3 ≡ (not revoked && a2)
    → a3 ≡ (d || not t && a0)
combined t d granted covered revoked a0 a1 a2 a3 g c r h i j = ground (arith, g, c, r, h, i, j)

module _ {C S : Type 0} (F : FlavorCalls C) (T : Tenacity) (st : StateStore S) (project_id : String)
    (access : C → String → Bool) (K : KeepsAccess F project_id access) {Sound : S → Type 0}
    (L : IsLawful st Sound) where
  unless_none-ok :
      (cfg : ProjectConfig) (n : ℕ) (actions : List Action) (w : World C S)
      → (found : List Action) × (v : World C S) × (unless_none F T st cfg n actions w
          ≡ (ok found, v))
        × (v.cloud ≡ w.cloud)
  unfolding unless_none one_action record_action
  unless_none-ok cfg n [] w = (_, _, refl, refl)
  unless_none-ok cfg n (a ∷ actions) w = (_, _, refl, refl)

  -- In a cloud that keeps what it is told, and with a store that does, a live run returns whatever
  -- flavors are desired. The project then has access to the desired ones and, of the others, to those
  -- that it had access to and that are not tracked.
  pub converge_access :
      (cfg : ProjectConfig) (now : ℕ) (desired : Grants) (w : World C S)
      → Sound w.store
      → w.ctx.has_store ≡ true
      → (actions : List Action) × (v : World C S) × (converge F T st cfg project_id now desired w
          ≡ (ok actions, v))
        × ((k : String)
            → access v.cloud k ≡ (
                is_desired desired k
                || not (contains (map (λ g. g.flavor_id) cfg.granted_flavor_access) k)
                  && access w.cloud k))
  unfolding converge
  converge_access cfg now desired w sound on =
      let tracked = cfg.granted_flavor_access in
      let (granted, a, ga, sa, ta, aa) =
        grants_each access (grant_one F T cfg project_id now) (λ e. e.0)
          (grant_one-Changes F T project_id access K cfg now) (to_grant desired tracked) w in
      let new_grants = somes (map (λ g. g.0) granted) in
      let (_, b, gb, cb, fb) =
        persist_new-Saves st L cfg new_grants a (still-CanSave st L a w sa ta (sound, on)) in
      let (verified, c, gc, sc, tc, ac) =
        grants_each access (verify_one F T project_id) (λ g. g.flavor_id)
          (verify_one-Changes F T project_id access K) (covered_by desired tracked) b in
      let (revoked, d, gd, sd, td, ad) =
        revokes_each access (revoke_uncovered F T cfg project_id now) (λ g. g.flavor_id)
          (revoke_uncovered-Changes F T project_id access K cfg now) (to_revoke desired tracked)
          c in
      let (_, e, ge, ce, fe) =
        persist_final-Saves st L cfg (covered_by desired tracked ++ new_grants) d
          (still-CanSave st L d b (sd ∙ sc) (td ∙ tc) fb) in
      let (_, f, gf, cf, ff) =
        reconcile_revoked-Saves st L cfg (covered_by desired tracked ++ new_grants)
          (map (λ r. r.0) revoked) e fe in
      let (actions, v, gv, cv) =
        unless_none-ok cfg (length (covered_by desired tracked))
          (map (λ g. g.1) granted ++ somes verified ++ map (λ r. r.1) revoked) f in
      (
        actions,
        v,
        rw (ga, gb, gc, gd, ge, gf) gv,
        λ k.
            ap (λ x. access x k) (cv ∙ cf ∙ ce)
            ∙ combined (contains (ids_of tracked) k) (is_desired desired k)
                (contains (map (λ e. e.0) (to_grant desired tracked)) k)
                (contains (ids_of (covered_by desired tracked)) k)
                (contains (ids_of (to_revoke desired tracked)) k) (access w.cloud k)
                (access b.cloud k) (access c.cloud k) (access d.cloud k)
                (to_grant-contains desired tracked k) (covered_by-contains desired tracked k)
                (to_revoke-contains desired tracked k) (ap (λ x. access x k) cb ∙ aa k) (ac k)
                (ad k),
      )
