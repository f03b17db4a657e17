-- ===== src/Teardown/Clearing.antt =====
-- A resource that the steps of a teardown come to: `_run_step` of src/resources/teardown.py.
use openstack_tenantctl.Base.{
  false, List, [], ◌∷◌, ◌≡◌, refl, sym, subst, ap, String, ◌⊎◌, inl, inr, Result, ok, raised,
  endpoint_not_found, pure, catch, each, All, bind_ok, Bool-cases, ◌>>=◌,
}
use openstack_tenantctl.Cloud.{Tenacity}
use openstack_tenantctl.Context.{lit, World}
use openstack_tenantctl.Context.Retry.{retried-result}
use openstack_tenantctl.Teardown.{
  Kind, Resource, Inventory, Deletion, skipped?, wanted, list_resources, no_service, list_or_skip,
  run_step, label, type_name, prepared_delete,
}
use openstack_tenantctl.Teardown.Endings.{Deleting, safe_delete-Ends, prepared_delete-Ends}
use openstack_tenantctl.Teardown.Keeping.{Keeps, delete_one, delete_one-Holds, run_step-Holds}

abbrev pub Has : {A : Type 0} → A → List A → Type 0
Has x [] = ⊥
Has x (y ∷ ys) = (x ≡ y) ⊎ Has x ys

-- A listing has the resource unless it is gone, and a service that is not there has none.
pub record Listing {C : Type 0} (I : Inventory C) (kind : Kind) (project_id : String) (r : Resource)
    (G : C → Type 0) : Type 0 where
  pub listed :
      (c c' : C) (rs : List Resource)
      → I.resources kind project_id c ≡ (ok rs, c')
      → G c' ⊎ Has r rs
  pub unlisted : (c c' : C) → I.resources kind project_id c ≡ (raised endpoint_not_found, c') → G c'

module _ {C : Type 0} (I : Inventory C) (T : Tenacity) (project_id : String) (kind : Kind)
    (r : Resource) (G : C → Type 0) (L : Listing I kind project_id r G) where
  abbrev Listed : Result (List Resource) × C → Type 0
  Listed x =
      ((rs : List Resource) (c : C) → x ≡ (ok rs, c) → G c ⊎ Has r rs)
      × ((c : C) → x ≡ (raised endpoint_not_found, c) → G c)

  list-Listed : (c : C) → Listed (list_resources I T kind project_id c)
  unfolding list_resources
  list-Listed c =
      retried-result Listed T (I.resources kind project_id) c
        (λ v. (λ rs c' h. L.listed v c' rs h, λ c' h. L.unlisted v c' h))

module _ {C S : Type 0} (I : Inventory C) (T : Tenacity) (project_id : String) (kind : Kind)
    (r : Resource) (G : C → Type 0) (L : Listing I kind project_id r G) where
  skip_cases :
      (x : Result (List Resource) × C) (w v : World C S) (rs : List Resource)
      → Listed I T project_id kind r G L x
      → catch (λ (_ : World C S). (x.0, record w { cloud = x.1 })) (no_service I T) w ≡ (ok rs, v)
      → G v.cloud ⊎ Has r rs
  unfolding no_service
  skip_cases (ok found, c) w v rs (q, _) h =
      let same : found ≡ rs = cc in
      let at : c ≡ v.cloud = ap (λ y. y.1.cloud) h in
      elim (q found c refl) [
        | inl g ↦ inl (subst G at g)
        | inr there ↦ inr (subst (Has r) same there)
      ]
  skip_cases (raised endpoint_not_found, c) w v rs (_, q) h =
      inl (subst G (ap (λ y. y.1.cloud) h) (q c refl))
  skip_cases (raised e, c) w v rs q h = cc

  list_or_skip-Has :
      (w v : World C S) (rs : List Resource)
      → list_or_skip I T kind project_id w ≡ (ok rs, v)
      → G v.cloud ⊎ Has r rs
  unfolding list_or_skip
  list_or_skip-Has w v rs h =
      skip_cases (list_resources I T kind project_id w.cloud) w v rs
        (list-Listed I T project_id kind r G L w.cloud) h

wanted-Has :
    (kind : Kind) (r : Resource) (rs : List Resource)
    → skipped? kind r ≡ false
    → Has r rs
    → Has r (wanted kind rs)
unfolding wanted
wanted-Has kind r [] h there = there
wanted-Has kind r (s ∷ rs) h (inl same) =
    rw (subst (λ x. skipped? kind x ≡ false) same h) (inl same)
wanted-Has kind r (s ∷ rs) h (inr later) = elim (Bool-cases (skipped? kind s)) [
  | inl on ↦ rw on (wanted-Has kind r rs h later)
  | inr off ↦ rw off (inr (wanted-Has kind r rs h later))
]

abbrev pub Unfailed : Deletion → Type 0
Unfailed d = d.1 ≡ []

module _ {C S : Type 0} (I : Inventory C) (T : Tenacity) (project_id : String) (kind : Kind)
    (r : Resource) (G : C → Type 0) (L : Listing I kind project_id r G) (K : Keeps I G)
    (D : Deleting I kind r.id G) where
  one-gone :
      (w u : World C S) (d : Deletion)
      → delete_one I T G K project_id kind r w ≡ (ok d, u)
      → Unfailed d
      → G u.cloud
  one-gone w u d h unfailed =
      safe_delete-Ends G (type_name kind) (label kind r) (prepared_delete I T kind r)
        (lit "deleted" ∷ []) w u d (prepared_delete-Ends I T r G kind D) h unfailed

  loop-gone :
      (rs : List Resource) (w u : World C S) (ds : List Deletion)
      → each (delete_one I T G K project_id kind) rs w ≡ (ok ds, u)
      → All Unfailed ds
      → G w.cloud ⊎ Has r rs
      → G u.cloud
  unfolding each
  loop-gone [] w u ds h all (inl g) = subst G (ap (λ x. x.1.cloud) h) g
  loop-gone [] w u ds h all (inr there) = absurd there
  loop-gone (s ∷ rs) w u ds h all now =
      let (d, v, e, h') =
        bind_ok (delete_one I T G K project_id kind s)
          (λ d. each (delete_one I T G K project_id kind) rs >>= λ rest. pure (d ∷ rest)) w ds u
          h in
      let (rest, t, e', h'') =
        bind_ok (each (delete_one I T G K project_id kind) rs) (λ rest. pure (d ∷ rest)) v ds u
          h' in
      let same : ds ≡ d ∷ rest = cc in
      let (here, later) = subst (All Unfailed) same all in
      let last : t.cloud ≡ u.cloud = ap (λ x. x.1.cloud) h'' in
      subst G last (loop-gone rs v t rest e' later (step s w v d e here now))
    where
      step :
          (s : Resource) (w v : World C S) (d : Deletion)
          → delete_one I T G K project_id kind s w ≡ (ok d, v)
          → Unfailed d
          → G w.cloud ⊎ Has r (s ∷ rs)
          → G v.cloud ⊎ Has r rs
      step s w v d e here (inl g) = inl (rw e at (delete_one-Holds I T G K project_id kind s w g))
      step s w v d e here (inr (inl same)) = inl (
          one-gone w v d
            (subst (λ x. delete_one I T G K project_id kind x w ≡ (ok d, v)) (sym same) e) here)
      step s w v d e here (inr (inr later)) = inr later

  run_step-gone :
      (w u : World C S) (ds : List Deletion)
      → skipped? kind r ≡ false
      → run_step I T project_id kind w ≡ (ok ds, u)
      → All Unfailed ds
      → G u.cloud
  unfolding run_step
  run_step-gone w u ds h e all =
      let (rs, v, e', h') =
        bind_ok (list_or_skip I T kind project_id)
          (λ rs. each (delete_one I T G K project_id kind) (wanted kind rs)) w ds u e in
      loop-gone (wanted kind rs) v u ds h' all
        (elim (list_or_skip-Has I T project_id kind r G L w v rs e') [
          | inl g ↦ inl g
          | inr there ↦ inr (wanted-Has kind r rs h there)
        ])

  pub steps-gone :
      (kinds : List Kind) (w u : World C S) (steps : List (List Deletion))
      → skipped? kind r ≡ false
      → each (run_step I T project_id) kinds w ≡ (ok steps, u)
      → All (All Unfailed) steps
      → G w.cloud ⊎ Has kind kinds
      → G u.cloud
  unfolding each
  steps-gone [] w u steps h e all (inl g) = subst G (ap (λ x. x.1.cloud) e) g
  steps-gone [] w u steps h e all (inr there) = absurd there
  steps-gone (k ∷ kinds) w u steps h e all now =
      let (ds, v, e', h') =
        bind_ok (run_step I T project_id k)
          (λ ds. each (run_step I T project_id) kinds >>= λ rest. pure (ds ∷ rest)) w steps u e in
      let (rest, t, e'', h'') =
        bind_ok (each (run_step I T project_id) kinds) (λ rest. pure (ds ∷ rest)) v steps u h' in
      let same : steps ≡ ds ∷ rest = cc in
      let (here, later) = subst (All (All Unfailed)) same all in
      subst G (ap (λ x. x.1.cloud) h'')
        (steps-gone kinds v t rest h e'' later (step k w v ds e' here now))
    where
      step :
          (k : Kind) (w v : World C S) (ds : List Deletion)
          → run_step I T project_id k w ≡ (ok ds, v)
          → All Unfailed ds
          → G w.cloud ⊎ Has kind (k ∷ kinds)
          → G v.cloud ⊎ Has kind kinds
      step k w v ds e here (inl g) = inl (rw e at (run_step-Holds I T G K project_id k w g))
      step k w v ds e here (inr (inl same)) = inl (
          run_step-gone w v ds h
            (subst (λ x. run_step I T project_id x w ≡ (ok ds, v)) (sym same) e) here)
      step k w v ds e here (inr (inr later)) = inr later
