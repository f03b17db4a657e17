-- ===== src/Networks/Audit.antt =====
-- What the state of a project says of router addresses after `track_router_ips` of
-- src/resources/network.py.
use openstack_tenantctl.Base.{
  Bool, true, false, not, ◌||◌, Option, none, some, List, [], ◌∷◌, ◌++◌, map, ◌≡◌, ◌≢◌, refl, ◌∙◌,
  ap, arith, String, ◌==◌, contains, string_eq, ==_iff, Bool-cases, inl, inr, ◌&&◌, if◌then◌else◌,
  map-append-contains, contains-keep, ok, pure, each,
}
use mathlib.Core.Bool.{false≢true}
use text.Mathlib.TextEquality.{eq_iff}
use openstack_tenantctl.Cloud.{Neutron}
use openstack_tenantctl.Models.{ProjectConfig, dict_list}
use openstack_tenantctl.Models.Network.{
  RouterIpEntry, ReleasedRouterIpEntry, router_ip_to_dict, released_router_ip_to_dict,
  router_ips_eq, released_router_ips_eq,
}
use openstack_tenantctl.Store.{Value, get, plain}
use openstack_tenantctl.Store.Path.{get-put_self, get-put_ne}
use openstack_tenantctl.Store.Interface.{StateStore, IsLawful}
use openstack_tenantctl.Context.{World, record_action}
use openstack_tenantctl.Context.Quiet.{
  Quiet, bind-Quiet, each-Quiet, pure-Quiet, if-Quiet, Unmoved-trans,
}
use openstack_tenantctl.ExternalNetwork.{is_empty}
use openstack_tenantctl.Fips.Persist.{save_or_raise}
use openstack_tenantctl.Fips.Released.{save_or_raise-loads}
use openstack_tenantctl.Networks.{Router}
use openstack_tenantctl.Networks.Tracking.{
  external_ips, changed, without_ids_of, all_released_router_ips, gateway_mismatches, note_mismatch,
  mismatch_of, joined, foreign_gateway, adopt_router, release_removed, release_changed,
  compare_snapshots, persist_tracking, persist_router_ips,
}
use openstack_tenantctl.Networks.Stack.{persist_released_router_ips}
use openstack_tenantctl.Networks.Lost.{lost, lost-contains, DistinctIds}

abbrev pub released_addresses : List ReleasedRouterIpEntry → List String
released_addresses = map (λ (r : ReleasedRouterIpEntry). r.address)

map-pairs :
    {A B : Type 0} (f : A → String) (xs ys : List (A × B))
    → map f (map (λ r. r.0) (xs ++ ys)) ≡ map (λ r. f r.0) xs ++ map (λ r. f r.0) ys
map-pairs f [] [] = refl
map-pairs f [] (y ∷ ys) = ground (arith, map-pairs f [] ys)
map-pairs f (x ∷ xs) ys = ground (arith, map-pairs f xs ys)

module _ {C S : Type 0} where
  note_mismatch-Quiet :
      (net : String) (r : Router)
      → Quiet (note_mismatch {C = C} {S = S} net r) (λ b. ◌≡◌ {A = Unit {0}} tt tt)
  unfolding note_mismatch mismatch_of record_action
  note_mismatch-Quiet net r = mismatch_of-Quiet (foreign_gateway net r)
    where
      mismatch_of-Quiet :
          (o : Option String)
          → Quiet (mismatch_of {C = C} {S = S} net r o) (λ b. ◌≡◌ {A = Unit {0}} tt tt)
      mismatch_of-Quiet none w = pure-Quiet _ [] refl w
      mismatch_of-Quiet (some other) w = (_, _, refl, (refl, refl, refl), refl)

  pub gateway_mismatches-Quiet :
      (net : String) (rs : List Router)
      → Quiet (gateway_mismatches {C = C} {S = S} net rs) (λ b. Unit {0})
  unfolding gateway_mismatches
  gateway_mismatches-Quiet net rs = if-Quiet (is_empty net) (pure []) _ (pure-Quiet _ [] tt) (
      bind-Quiet _ _ (each (note_mismatch net) rs) (λ found. pure (joined found))
        (each-Quiet (note_mismatch net) (λ b. tt) (λ b. tt) (note_mismatch-Quiet net) rs)
        (λ found e. pure-Quiet _ _ tt))

  adopt_router-Quiet :
      (e : RouterIpEntry) → Quiet (adopt_router {C = C} {S = S} e) (λ b. ◌≡◌ {A = Unit {0}} tt tt)
  unfolding adopt_router
  adopt_router-Quiet e w = (_, _, refl, (refl, refl, refl), refl)

module _ {C S : Type 0} (N : Neutron C) where
  release_removed-Quiet :
      (e : RouterIpEntry)
      → Quiet (release_removed {C = C} {S = S} N e) (λ b. b.0.address ≡ e.external_ip)
  unfolding release_removed
  release_removed-Quiet e w = (_, _, refl, (refl, refl, refl), refl)

  release_changed-Quiet :
      (c : String × RouterIpEntry)
      → Quiet (release_changed {C = C} {S = S} N c) (λ b. b.0.address ≡ c.0)
  unfolding release_changed
  release_changed-Quiet (old, e) w = (_, _, refl, (refl, refl, refl), refl)

  pub compare_snapshots-Quiet :
      (previous current : List RouterIpEntry)
      → Quiet
          (compare_snapshots {C = C} {S = S} N previous current)
          (λ r. released_addresses r.0 ≡ lost previous current)
  unfolding compare_snapshots
  compare_snapshots-Quiet previous current w =
      let (a, v, e, m, p) =
        each-Quiet adopt_router (λ b. tt) (λ b. tt) adopt_router-Quiet
          (without_ids_of previous current) w in
      let (r, u, e', m', p') =
        each-Quiet (release_removed N) (λ b. b.0.address) (λ e. e.external_ip) release_removed-Quiet
          (without_ids_of current previous) v in
      let (c, t, e'', m'', p'') =
        each-Quiet (release_changed N) (λ b. b.0.address) (λ c. c.0) release_changed-Quiet
          (changed previous current) u in
      (
        (map (λ x. x.0) (r ++ c), a ++ map (λ x. x.1) (r ++ c)),
        t,
        rw (e, e', e''),
        Unmoved-trans t u w m'' (Unmoved-trans u v w m' m),
        map-pairs (λ (r : ReleasedRouterIpEntry). r.address) r c ∙ rw (p', p''),
      )

module _ {C S : Type 0} (st : StateStore S) {Sound : S → Type 0} (L : IsLawful st Sound) where
  -- A save that is left out if the state has the value already.
  save_unless-loads :
      (cfg : ProjectConfig) (key : String) (v : Value) (w : World C S) (same : Bool)
      → Sound w.store
      → w.ctx.has_store ≡ true
      → (same ≡ true → get key (st.load cfg.state_key w.store) ≡ some v)
      → (u : World C S) × ((if same then pure tt else save_or_raise st cfg key (plain v)) w
          ≡ (ok tt, u))
        × (get key (st.load cfg.state_key u.store) ≡ some v)
        × ((other : String)
            → key ≢ other
            → get other (st.load cfg.state_key u.store) ≡ get other (st.load cfg.state_key w.store))
        × Sound u.store
        × (u.ctx ≡ w.ctx)
  save_unless-loads cfg key v w true sound on there =
      (w, refl, there refl, λ other differ. refl, sound, refl)
  save_unless-loads cfg key v w false sound on there =
      let (u, e, loads, more, ctx) = save_or_raise-loads st L cfg key v w sound on in
      (
        u,
        e,
        rw loads (get-put_self _ _ _),
        λ other differ. rw loads (get-put_ne _ _ _ _ differ),
        more,
        ctx,
      )

  -- The state after the two saves, whichever of them is left out.
  pub persist_tracking-loads :
      (cfg : ProjectConfig) (current : List RouterIpEntry) (new : List ReleasedRouterIpEntry)
      (w : World C S)
      → Sound w.store
      → w.ctx.has_store ≡ true
      → get "router_ips" (st.load cfg.state_key w.store)
        ≡ some (dict_list router_ip_to_dict cfg.router_ips)
      → get "released_router_ips" (st.load cfg.state_key w.store)
        ≡ some (dict_list released_router_ip_to_dict cfg.released_router_ips)
      → (u : World C S) × (persist_tracking st cfg current new w ≡ (ok tt, u))
        × (get "router_ips" (st.load cfg.state_key u.store)
            ≡ some (dict_list router_ip_to_dict current))
        × (get "released_router_ips" (st.load cfg.state_key u.store)
            ≡ some (
                dict_list released_router_ip_to_dict
                  (all_released_router_ips current cfg.released_router_ips new)))
  unfolding persist_tracking persist_router_ips persist_released_router_ips
  persist_tracking-loads cfg current new w sound on here there =
      let rs = all_released_router_ips current cfg.released_router_ips new in
      let (v, e, has, rest, more, ctx) =
        save_unless-loads cfg "router_ips" (dict_list router_ip_to_dict current) w
          (current == cfg.router_ips) sound on
          (λ same. rw ((==_iff current cfg.router_ips).0 same) here) in
      let (u, e', has', rest', more', ctx') =
        save_unless-loads cfg "released_router_ips" (dict_list released_router_ip_to_dict rs) v
          (rs == cfg.released_router_ips) more (rw ctx on)
          (λ same.
            rest "released_router_ips"
              (λ q. false≢true ((eq_iff "router_ips" "released_router_ips").1 q))
            ∙ rw ((==_iff rs cfg.released_router_ips).0 same) there) in
      (
        u,
        rw (e, e'),
        rest' "router_ips" (λ q. false≢true ((eq_iff "released_router_ips" "router_ips").1 q))
            ∙ has,
        has',
      )

-- What is written down of the released addresses, when those of a comparison are `new`.
all_released-contains :
    (current : List RouterIpEntry) (old new : List ReleasedRouterIpEntry) (a : String)
    → contains (released_addresses (all_released_router_ips current old new)) a ≡ (
        not (contains (external_ips current) a)
        && (contains (released_addresses old) a || contains (released_addresses new) a))
unfolding all_released_router_ips
all_released-contains current old new a =
    contains-keep (λ r. r.address) (λ b. not (contains (external_ips current) b)) (old ++ new) a
    ∙ ap (λ b. not (contains (external_ips current) a) && b)
        (map-append-contains (λ r. r.address) old new a)

-- An address that was tracked, or released, is active or released in the end, and never both.
pub released_after :
    (previous current : List RouterIpEntry) (old new : List ReleasedRouterIpEntry) (a : String)
    → DistinctIds previous
    → released_addresses new ≡ lost previous current
    → (contains (external_ips previous) a || contains (released_addresses old) a) ≡ true
    → contains (released_addresses (all_released_router_ips current old new)) a
      ≡ not (contains (external_ips current) a)
released_after previous current old new a d e h =
    elim (Bool-cases (contains (external_ips current) a)) [
      | inl active ↦ rw (all_released-contains, active)
      | inr inactive ↦
          ground
            (arith, all_released-contains current old new a, lost-contains previous current a d, e)
    ]
