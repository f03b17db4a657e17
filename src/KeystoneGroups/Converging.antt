-- ===== src/KeystoneGroups/Converging.antt =====
-- What a live run of `ensure_keystone_groups` of src/resources/keystone_groups.py comes to in a Keystone
-- that keeps what it is told.
use openstack_tenantctl.Base.{
  Bool, true, false, not, ◌&&◌, Option, none, some, List, [], ◌∷◌, map, ◌≡◌, refl, sym, ◌∙◌, arith,
  String, ==_iff, contains, string_eq, if_true, if_false, All, ok, each, ◌>>◌,
}
use Prim.Native.Nat.{Ordering}
use Prim.Native.String
use openstack_tenantctl.Base.Dict.{Dict, get}
use openstack_tenantctl.Base.Sorting.{sorted_by, insert_by}
use openstack_tenantctl.Cloud.{Tenacity}
use openstack_tenantctl.Models.{ProjectConfig}
use openstack_tenantctl.Context.{Action, World, lit, created, on_cloud, record_action}
use openstack_tenantctl.Context.Retry.{retried, retried-ok}
use openstack_tenantctl.Projects.{Identity, resolve_domain}
use openstack_tenantctl.KeystoneGroups.{
  GroupCalls, given, cached, distinct, all_needed, add_needed, group_action, create_group,
  unless_exists, ensure_group, cache_domain, ensure_needed, if_needed, ensure_keystone_groups,
}

abbrev pub is_some : Option String → Bool
is_some none = false
is_some (some s) = true

-- `dom` is the id that a domain reference resolves to, and `has` tells the groups that exist, by name
-- and domain.
pub record KeepsGroups {C : Type 0} (G : GroupCalls C) (I : Identity C) (dom : String → String)
    (has : C → String → Option String → Bool) : Type 0 where
  pub find_domain : (ref : String) (c : C) → I.find_domain ref c ≡ (ok (some (dom ref)), c)
  pub find_group :
      (name : String) (domain : Option String) (c : C)
      → (o : Option String) × (G.find_group name domain c ≡ (ok o, c))
        × (is_some o ≡ has c name domain)
  pub create_group :
      (name domain : String) (c : C)
      → (c' : C) × (G.create_group name domain c ≡ (ok tt, c'))
        × (has c' name (given domain) ≡ true)
        × ((n : String) (d : Option String) → has c n d ≡ true → has c' n d ≡ true)

distinct-contains :
    (xs seen : List String) (k : String)
    → contains (distinct seen xs) k ≡ (contains xs k && not (contains seen k))
unfolding distinct
distinct-contains [] seen k = refl
distinct-contains (d ∷ xs) seen k =
    ground (arith, distinct-contains xs seen k, distinct-contains xs (d ∷ seen) k, ==_iff k d)

cached-map :
    (dom : String → String) (refs : List String) (k : String)
    → contains refs k ≡ true
    → cached (map (λ d. (d, dom d)) refs) k ≡ dom k
unfolding cached get
cached-map dom [] k h = absurd (cc)
cached-map dom (d ∷ refs) k h = ground (arith, cached-map dom refs k, ==_iff k d)

-- Every domain that is needed is in the cache.
known_domains :
    (dom : String → String) (refs : List String) (ns : List (String × String))
    → ((k : String) → contains (map (λ n. n.1) ns) k ≡ true → contains refs k ≡ true)
    → All (λ n. cached (map (λ d. (d, dom d)) refs) n.1 ≡ dom n.1) ns
known_domains dom refs [] h = tt
known_domains dom refs ((name, d) ∷ ns) h = (
  cached-map dom refs d (h d (ground arith)),
  known_domains dom refs ns (λ k there. h k (ground (arith, there))),
)

module _ {A : Type 0} (key : A → String) (P : A → Type 0) where
  insert_by-All : (x : A) (xs : List A) → P x → All P xs → All P (insert_by key x xs)
  unfolding insert_by
  insert_by-All x [] p h = (p, tt)
  insert_by-All x (y ∷ ys) p (q, h) =
      split (Prim.Native.String.compare (key x) (key y)) (insert_by-All x ys p h)
    where
      split :
          (o : Ordering)
          → All P (insert_by key x ys)
          → All P (elim o [ Ordering.gt ↦ y ∷ insert_by key x ys | _ ↦ x ∷ y ∷ ys ])
      split Ordering.gt r = (q, r)
      split Ordering.lt r = (p, (q, h))
      split Ordering.eq r = (p, (q, h))

  All-insert_by : (x : A) (xs : List A) → All P (insert_by key x xs) → P x × All P xs
  unfolding insert_by
  All-insert_by x [] h = h
  All-insert_by x (y ∷ ys) h =
      split (Prim.Native.String.compare (key x) (key y)) (All-insert_by x ys) h
    where
      split :
          (o : Ordering)
          → (All P (insert_by key x ys) → P x × All P ys)
          → All P (elim o [ Ordering.gt ↦ y ∷ insert_by key x ys | _ ↦ x ∷ y ∷ ys ])
          → P x × (P y × All P ys)
      split Ordering.gt r (q, h) = let (p, more) = r h in (p, (q, more))
      split Ordering.lt r h = h
      split Ordering.eq r h = h

  sorted_by-All : (xs : List A) → All P xs → All P (sorted_by key xs)
  unfolding sorted_by
  sorted_by-All [] h = tt
  sorted_by-All (x ∷ xs) (p, h) = insert_by-All x (sorted_by key xs) p (sorted_by-All xs h)

  All-sorted_by : (xs : List A) → All P (sorted_by key xs) → All P xs
  unfolding sorted_by
  All-sorted_by [] h = tt
  All-sorted_by (x ∷ xs) h =
      let (p, more) = All-insert_by x (sorted_by key xs) h in (p, All-sorted_by xs more)

module _ {C : Type 0} (G : GroupCalls C) (I : Identity C) (T : Tenacity) (dom : String → String)
    (has : C → String → Option String → Bool) (K : KeepsGroups G I dom has) where
  resolve_domain-ok : (ref : String) (c : C) → resolve_domain I T ref c ≡ (ok (dom ref), c)
  unfolding resolve_domain
  resolve_domain-ok ref c = retried-ok T _ c c (dom ref) (rw (K.find_domain ref c) refl)

module _ {C S : Type 0} (G : GroupCalls C) (I : Identity C) (T : Tenacity) (dom : String → String)
    (has : C → String → Option String → Bool) (K : KeepsGroups G I dom has) where
  -- Groups are not lost on the way.
  abbrev Still : World C S → World C S → Type 0
  Still u w = (n : String) (d : Option String) → has w.cloud n d ≡ true → has u.cloud n d ≡ true

  cache_domains :
      (refs : List String) (w : World C S)
      → each (cache_domain G I T) refs w ≡ (ok (map (λ d. (d, dom d)) refs), w)
  unfolding each cache_domain
  cache_domains [] w = refl
  cache_domains (r ∷ refs) w =
      rw (resolve_domain-ok G I T dom has K r w.cloud, cache_domains refs w)

  create_group-eq :
      (name domain_id : String) (w : World C S) (c : C)
      → w.ctx.dry_run ≡ false
      → G.create_group name domain_id w.cloud ≡ (ok tt, c)
      → create_group G I T name domain_id w
        ≡ group_action created name
            (lit "created group '" ∷ lit name ∷ lit "'" ∷ [])
            (record w { cloud = c })
  unfolding create_group
  create_group-eq name domain_id w c live e =
      let stepped = retried-ok T (G.create_group name domain_id) w.cloud c tt e in
      if_false w.ctx.dry_run _ _ live ∙ rewritten stepped
    where
      rewritten :
          retried T (G.create_group name domain_id) w.cloud ≡ (ok tt, c)
          → (do
            on_cloud (retried T (G.create_group name domain_id))
            group_action created name (lit "created group '" ∷ lit name ∷ lit "'" ∷ []))
              w
            ≡ group_action created name
                (lit "created group '" ∷ lit name ∷ lit "'" ∷ [])
                (record w { cloud = c })
      rewritten h = rw h

  ensured :
      (name domain_id : String) (w : World C S) (o : Option String)
      → w.ctx.dry_run ≡ false
      → is_some o ≡ has w.cloud name (given domain_id)
      → (a : Action) × (u : World C S) × (unless_exists G I T name domain_id o w ≡ (ok a, u))
        × (u.ctx.dry_run ≡ false)
        × (has u.cloud name (given domain_id) ≡ true)
        × Still u w
  unfolding unless_exists group_action record_action
  ensured name domain_id w (some id) live found = (_, _, refl, live, sym found, λ n d h. h)
  ensured name domain_id w none live found =
      let (c, e, there, still) = K.create_group name domain_id w.cloud in
      (_, _, create_group-eq name domain_id w c live e, live, there, still)

  ensure_group-ok :
      (cache : Dict String String) (n : String × String) (w : World C S)
      → w.ctx.dry_run ≡ false
      → cached cache n.1 ≡ dom n.1
      → (a : Action) × (u : World C S) × (ensure_group G I T cache n w ≡ (ok a, u))
        × (u.ctx.dry_run ≡ false)
        × (has u.cloud n.0 (given (dom n.1)) ≡ true)
        × Still u w
  unfolding ensure_group
  ensure_group-ok cache (name, domain) w live known =
      let (o, e, found) = K.find_group name (given (dom domain)) w.cloud in
      let (a, u, e', live', there, still) = ensured name (dom domain) w o live found in
      (
        a,
        u,
        rw (known, retried-ok T (G.find_group name (given (dom domain))) w.cloud w.cloud o e) e',
        live',
        there,
        still,
      )

  ensure_groups :
      (cache : Dict String String) (ns : List (String × String)) (w : World C S)
      → w.ctx.dry_run ≡ false
      → All (λ n. cached cache n.1 ≡ dom n.1) ns
      → (actions : List Action) × (u : World C S) × (each (ensure_group G I T cache) ns w
          ≡ (ok actions, u))
        × All (λ n. has u.cloud n.0 (given (dom n.1)) ≡ true) ns
        × Still u w
  unfolding each
  ensure_groups cache [] w live known = ([], w, refl, tt, λ n d h. h)
  ensure_groups cache (n ∷ ns) w live (k, known) =
      let (a, v, e, live', there, still) = ensure_group-ok cache n w live k in
      let (actions, u, e', all, still') = ensure_groups cache ns v live' known in
      (
        a ∷ actions,
        u,
        rw (e, e'),
        (still' n.0 (given (dom n.1)) there, all),
        λ m d h. still' m d (still m d h),
      )

  ensure_needed-ok :
      (needed : Dict String String) (w : World C S)
      → w.ctx.dry_run ≡ false
      → (actions : List Action) × (u : World C S) × (ensure_needed G I T needed w ≡ (ok actions, u))
        × All (λ n. has u.cloud n.0 (given (dom n.1)) ≡ true) needed
  unfolding ensure_needed
  ensure_needed-ok needed w live =
      let refs : List String = distinct [] (map (λ n. n.1) needed) in
      let cache : Dict String String = map (λ d. (d, dom d)) refs in
      let known =
        known_domains dom refs needed
          (λ k h. distinct-contains (map (λ n. n.1) needed) [] k ∙ ground (arith, h)) in
      let (actions, u, e, all, _) =
        ensure_groups cache (sorted_by (λ n. n.0) needed) w live
          (sorted_by-All (λ n. n.0) (λ n. cached cache n.1 ≡ dom n.1) needed known) in
      (
        actions,
        u,
        rw (cache_domains refs w, e),
        All-sorted_by (λ n. n.0) (λ n. has u.cloud n.0 (given (dom n.1)) ≡ true) needed all,
      )

  if_needed-ok :
      (needed : Dict String String) (w : World C S)
      → w.ctx.online ≡ true
      → w.ctx.dry_run ≡ false
      → (actions : List Action) × (u : World C S) × (if_needed G I T needed w ≡ (ok actions, u))
        × All (λ n. has u.cloud n.0 (given (dom n.1)) ≡ true) needed
  unfolding if_needed group_action record_action
  if_needed-ok [] w online live = (_, _, refl, tt)
  if_needed-ok (n ∷ needed) w online live =
      let (actions, u, e, all) = ensure_needed-ok (n ∷ needed) w live in
      (actions, u, if_true w.ctx.online _ _ online ∙ e, all)

  -- In a Keystone that resolves the domains, finds the groups that exist, and has a group once it is
  -- created and from then on, a live run returns. Each group that is needed at the instant of the run
  -- then exists, in the domain of the first project that needs it.
  pub ensure_keystone_groups_converges :
      (all_projects : List ProjectConfig) (w : World C S)
      → w.ctx.online ≡ true
      → w.ctx.dry_run ≡ false
      → (actions : List Action) × (u : World C S) × (ensure_keystone_groups G I T all_projects w
          ≡ (ok actions, u))
        × All
            (λ n. has u.cloud n.0 (given (dom n.1)) ≡ true)
            (add_needed [] (all_needed (G.now w.cloud).0 all_projects))
  unfolding ensure_keystone_groups
  ensure_keystone_groups_converges all_projects w online live =
      if_needed-ok (add_needed [] (all_needed (G.now w.cloud).0 all_projects))
        (record w { cloud = (G.now w.cloud).1 }) online live
