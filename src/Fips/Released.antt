-- ===== src/Fips/Released.antt =====
-- What the state of a project says of released floating IPs: an address in `preallocated_fips` must
-- not be in `released_fips` too.
use openstack_tenantctl.Base.{
  true, not, some, List, [], ◌∷◌, ◌++◌, map, ◌≡◌, refl, ◌∙◌, arith, String, string_eq, contains,
  ◌&&◌, ◌||◌, ap, contains-keep, map-append-contains, ok, ◌>>◌,
}
use mathlib.Core.Bool.{false≢true}
use text.Mathlib.TextEquality.{eq_iff}
use openstack_tenantctl.Models.{
  ProjectConfig, FipEntry, ReleasedFipEntry, fip_to_dict, released_to_dict, dict_list,
  released_list_eq,
}
use openstack_tenantctl.Store.{Value, get, put, set_path, plain, serialize_value}
use openstack_tenantctl.Store.Path.{get-put_self, get-put_ne}
use openstack_tenantctl.Store.Interface.{StateStore, IsLawful}
use openstack_tenantctl.Context.{World}
use openstack_tenantctl.Fips.{all_released}
use openstack_tenantctl.Fips.Persist.{persist_fips, reconcile_released_fips, save_or_raise}

abbrev pub addresses : List FipEntry → List String
addresses = map (λ (f : FipEntry). f.address)

abbrev pub released_addresses : List ReleasedFipEntry → List String
released_addresses = map (λ (r : ReleasedFipEntry). r.address)

all_released-contains :
    (active : List FipEntry) (old new : List ReleasedFipEntry) (a : String)
    → contains (released_addresses (all_released active old new)) a ≡ (
        not (contains (addresses active) a)
        && (contains (released_addresses old) a || contains (released_addresses new) a))
unfolding all_released
all_released-contains active old new a =
    contains-keep (λ r. r.address) (λ b. not (contains (addresses active) b)) (old ++ new) a
    ∙ ap (λ b. not (contains (addresses active) a) && b)
        (map-append-contains (λ r. r.address) old new a)

module _ {C S : Type 0} (st : StateStore S) {Sound : S → Type 0} (L : IsLawful st Sound) where
  -- A save of a plain value at one key, in a run that has a store.
  pub save_or_raise-loads :
      (cfg : ProjectConfig) (key : String) (v : Value) (w : World C S)
      → Sound w.store
      → w.ctx.has_store ≡ true
      → (u : World C S) × (save_or_raise st cfg key (plain v) w ≡ (ok tt, u))
        × (st.load cfg.state_key u.store ≡ put key v (st.load cfg.state_key w.store))
        × Sound u.store
        × (u.ctx ≡ w.ctx)
  unfolding serialize_value set_path
  save_or_raise-loads cfg key v w sound on =
      let s = (st.save cfg.state_key (key ∷ []) (plain v) w.store).1 in
      let loads = L.load-save cfg.state_key cfg.state_key key [] (plain v) v w.store sound refl in
      let returns = L.save-returns cfg.state_key key [] (plain v) v w.store sound refl in
      (
        record w { store = s },
        ground (arith, returns),
        ground (arith, loads),
        L.save-Sound cfg.state_key key [] (plain v) v w.store sound refl,
        refl,
      )

  -- The released entries are those of the run, written down or there already.
  reconcile_released_fips-loads :
      (cfg : ProjectConfig) (active : List FipEntry) (new : List ReleasedFipEntry) (w : World C S)
      → Sound w.store
      → w.ctx.has_store ≡ true
      → get "released_fips" (st.load cfg.state_key w.store)
        ≡ some (dict_list released_to_dict cfg.released_fips)
      → (u : World C S) × (reconcile_released_fips st cfg active new w ≡ (ok tt, u))
        × (get "released_fips" (st.load cfg.state_key u.store)
            ≡ some (dict_list released_to_dict (all_released active cfg.released_fips new)))
        × (get "preallocated_fips" (st.load cfg.state_key u.store)
            ≡ get "preallocated_fips" (st.load cfg.state_key w.store))
  unfolding reconcile_released_fips
  reconcile_released_fips-loads cfg active new w sound on there =
      let rs = all_released active cfg.released_fips new in
      elim (released_list_eq.dec rs cfg.released_fips) [
        | yes same ↦ (w, ground arith, rw same there, refl)
        | no differ ↦
            let (u, e, loads, _, _) =
              save_or_raise-loads cfg "released_fips" (dict_list released_to_dict rs) w sound on in
            (
              u,
              ground (arith, e),
              rw loads (get-put_self _ _ _),
              rw loads (
                  get-put_ne _ _ _ _
                    (λ q. false≢true ((eq_iff "released_fips" "preallocated_fips").1 q))),
            )
      ]

  -- In a store that keeps what is saved, and whose released entries are those of the configuration,
  -- a run that has a store can write down the active floating IPs and settle the released ones. The
  -- state then has the active ones, and an address is among its released entries exactly if it is
  -- among the old or the new ones and is not active.
  pub reconcile_released_fips_disjoint :
      (cfg : ProjectConfig) (active : List FipEntry) (new : List ReleasedFipEntry) (w : World C S)
      → Sound w.store
      → w.ctx.has_store ≡ true
      → get "released_fips" (st.load cfg.state_key w.store)
        ≡ some (dict_list released_to_dict cfg.released_fips)
      → (u : World C S) × (rs : List ReleasedFipEntry) × ((persist_fips st cfg active
              >> reconcile_released_fips st cfg active new)
            w
          ≡ (ok tt, u))
        × (get "preallocated_fips" (st.load cfg.state_key u.store)
            ≡ some (dict_list fip_to_dict active))
        × (get "released_fips" (st.load cfg.state_key u.store)
            ≡ some (dict_list released_to_dict rs))
        × ((a : String)
            → contains (released_addresses rs) a ≡ (
                not (contains (addresses active) a)
                && (contains (released_addresses cfg.released_fips) a
                    || contains (released_addresses new) a)))
  unfolding persist_fips
  reconcile_released_fips_disjoint cfg active new w sound on there =
      let (v, e, loads, more, ctx) =
        save_or_raise-loads cfg "preallocated_fips" (dict_list fip_to_dict active) w sound on in
      let kept =
        get-put_ne "released_fips" "preallocated_fips" (dict_list fip_to_dict active)
          (st.load cfg.state_key w.store)
          (λ q. false≢true ((eq_iff "preallocated_fips" "released_fips").1 q)) in
      let (u, e', now, same) =
        reconcile_released_fips-loads cfg active new v more (rw ctx on) (rw loads (kept ∙ there)) in
      (
        u,
        all_released active cfg.released_fips new,
        rw e e',
        same
            ∙ rw loads (
                get-put_self "preallocated_fips" (dict_list fip_to_dict active)
                  (st.load cfg.state_key w.store)),
        now,
        all_released-contains active cfg.released_fips new,
      )
