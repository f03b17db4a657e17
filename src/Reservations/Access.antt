-- ===== src/Reservations/Access.antt =====
-- The access to flavors that a live run leaves, in a cloud that keeps what it is told.
use openstack_tenantctl.Base.{
  ℕ, Bool, true, not, ◌&&◌, ◌||◌, Option, List, [], ◌∷◌, map, ◌≡◌, refl, sym, ◌∙◌, ap, arith,
  String, ◌==◌, contains, string_eq, ok, Act, each, ==_iff, Bool-cases, inl, inr,
}
use openstack_tenantctl.Cloud.{Tenacity}
use openstack_tenantctl.Models.{ProjectConfig}
use openstack_tenantctl.Models.Reservations.{
  GrantedFlavorAccessEntry, granted_list_eq, revoked_list_eq,
}
use openstack_tenantctl.Context.{World, record_action}
use openstack_tenantctl.Context.Retry.{retried-ok}
use openstack_tenantctl.Reservations.{FlavorCalls, tenants}
use openstack_tenantctl.Reservations.Granting.{
  grant_access, revoke_access, access_project_ids, grant_one, verify_one, revoke_one,
  revoke_uncovered,
}

-- A cloud that shows the project's access to each flavor, grants what it is asked to and revokes what it
-- is asked to.
pub record KeepsAccess {C : Type 0} (F : FlavorCalls C) (project_id : String)
    (access : C → String → Bool) : Type 0 where
  pub get-ok :
      (fid : String) (c : C)
      → (entries : List (Option String)) × (F.get_flavor_access fid c ≡ (ok entries, c))
        × (contains (tenants entries) project_id ≡ access c fid)
  pub add-ok :
      (fid : String) (c : C)
      → (c' : C) × (F.flavor_add_tenant_access fid project_id c ≡ (ok tt, c'))
        × ((k : String) → access c' k ≡ (k == fid || access c k))
  pub remove-ok :
      (fid : String) (c : C)
      → (c' : C) × (F.flavor_remove_tenant_access fid project_id c ≡ (ok tt, c'))
        × ((k : String) → access c' k ≡ (not (k == fid) && access c k))

module _ {C S : Type 0} (access : C → String → Bool) where
  -- The statement returns, leaves the store and changes the access by `g`.
  abbrev pub Changes : {A : Type 0} → (String → Bool → Bool) → Act (World C S) A → Type 0
  Changes {A} g m =
      (w : World C S)
      → (a : A) × (v : World C S) × (m w ≡ (ok a, v))
        × (v.store ≡ w.store)
        × (v.ctx.has_store ≡ w.ctx.has_store)
        × ((k : String) → access v.cloud k ≡ g k (access w.cloud k))

  pub grants_each :
      {A B : Type 0} (f : A → Act (World C S) B) (key : A → String)
      → ((a : A) → Changes (λ k b. k == key a || b) (f a))
      → (xs : List A) → Changes (λ k b. contains (map key xs) k || b) (each f xs)
  unfolding each
  grants_each f key h [] w = ([], w, refl, refl, refl, λ k. refl)
  grants_each f key h (x ∷ xs) w =
      let (b, v, e, s, t, g) = h x w in
      let (bs, u, e', s', t', g') = grants_each f key h xs v in
      (b ∷ bs, u, rw (e, e'), s' ∙ s, t' ∙ t, λ k. ground (arith, g k, g' k))

  pub revokes_each :
      {A B : Type 0} (f : A → Act (World C S) B) (key : A → String)
      → ((a : A) → Changes (λ k b. not (k == key a) && b) (f a))
      → (xs : List A) → Changes (λ k b. not (contains (map key xs) k) && b) (each f xs)
  unfolding each
  revokes_each f key h [] w = ([], w, refl, refl, refl, λ k. refl)
  revokes_each f key h (x ∷ xs) w =
      let (b, v, e, s, t, g) = h x w in
      let (bs, u, e', s', t', g') = revokes_each f key h xs v in
      (b ∷ bs, u, rw (e, e'), s' ∙ s, t' ∙ t, λ k. ground (arith, g k, g' k))

already : (k fid : String) (a : String → Bool) → a fid ≡ true → a k ≡ (k == fid || a k)
already k fid a h = elim (Bool-cases (k == fid)) [
  | inl same ↦ ground (arith, same, ap a ((==_iff k fid).0 same), h)
  | inr differ ↦ ground (arith, differ)
]

module _ {C : Type 0} (F : FlavorCalls C) (T : Tenacity) (project_id : String)
    (access : C → String → Bool) (K : KeepsAccess F project_id access) where
  access_project_ids-ok :
      (fid : String) (c : C)
      → (ids : List String) × (access_project_ids F T fid c ≡ (ok ids, c))
        × (contains ids project_id ≡ access c fid)
  unfolding access_project_ids
  access_project_ids-ok fid c =
      let (entries, e, a) = K.get-ok fid c in
      (tenants entries, retried-ok T _ c c (tenants entries) (rw e refl), a)

  grant_access-ok :
      (fid : String) (c : C)
      → (c' : C) × (grant_access F T fid project_id c ≡ (ok tt, c'))
        × ((k : String) → access c' k ≡ (k == fid || access c k))
  unfolding grant_access
  grant_access-ok fid c =
      let (c', e, a) = K.add-ok fid c in
      (c', retried-ok T (F.flavor_add_tenant_access fid project_id) c c' tt e, a)

  revoke_access-ok :
      (fid : String) (c : C)
      → (c' : C) × (revoke_access F T fid project_id c ≡ (ok tt, c'))
        × ((k : String) → access c' k ≡ (not (k == fid) && access c k))
  unfolding revoke_access
  revoke_access-ok fid c =
      let (c', e, a) = K.remove-ok fid c in
      (c', retried-ok T (F.flavor_remove_tenant_access fid project_id) c c' tt e, a)

module _ {C S : Type 0} (F : FlavorCalls C) (T : Tenacity) (project_id : String)
    (access : C → String → Bool) (K : KeepsAccess F project_id access) where
  pub grant_one-Changes :
      (cfg : ProjectConfig) (now : ℕ) (e : String × (String × String))
      → Changes {S = S} access (λ k b. k == e.0 || b) (grant_one F T cfg project_id now e)
  unfolding grant_one record_action
  grant_one-Changes cfg now (fid, (flavor_name, reservation)) w =
      let (ids, h, a) = access_project_ids-ok F T project_id access K fid w.cloud in
      let (c', g, b) = grant_access-ok F T project_id access K fid w.cloud in
      elim (Bool-cases (contains ids project_id)) [
        | inl yes_ids ↦
            rw (h, yes_ids)
              (_, _, refl, refl, refl, λ k. already k fid (access w.cloud) (sym a ∙ yes_ids))
        | inr no_ids ↦ rw (h, no_ids, g) (_, _, refl, refl, refl, b)
      ]

  pub verify_one-Changes :
      (grant : GrantedFlavorAccessEntry)
      → Changes {S = S} access (λ k b. k == grant.flavor_id || b) (verify_one F T project_id grant)
  unfolding verify_one record_action
  verify_one-Changes grant w =
      let fid = grant.flavor_id in
      let (ids, h, a) = access_project_ids-ok F T project_id access K fid w.cloud in
      let (c', g, b) = grant_access-ok F T project_id access K fid w.cloud in
      elim (Bool-cases (contains ids project_id)) [
        | inl yes_ids ↦
            rw (h, yes_ids)
              (_, _, refl, refl, refl, λ k. already k fid (access w.cloud) (sym a ∙ yes_ids))
        | inr no_ids ↦ rw (h, no_ids, g) (_, _, refl, refl, refl, b)
      ]

  pub revoke_uncovered-Changes :
      (cfg : ProjectConfig) (now : ℕ) (grant : GrantedFlavorAccessEntry)
      → Changes {S = S} access
          (λ k b. not (k == grant.flavor_id) && b)
          (revoke_uncovered F T cfg project_id now grant)
  unfolding revoke_uncovered revoke_one record_action
  revoke_uncovered-Changes cfg now grant w =
      let (c', g, b) = revoke_access-ok F T project_id access K grant.flavor_id w.cloud in
      rw g (_, _, refl, refl, refl, b)
