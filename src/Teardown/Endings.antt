-- ===== src/Teardown/Endings.antt =====
-- What the deletion of a resource comes to: `_delete_resource`, `_prepare_router_deletion` and
-- `_safe_delete` of src/resources/teardown.py.
use openstack_tenantctl.Base.{
  Bool, true, false, List, [], ◌∷◌, ◌≡◌, refl, sym, subst, ap, ◌∙◌, arith, String, ◌==◌, string_eq,
  Result, ok, raised, Act, pure, each, ◌>>=◌, Bool-cases, inl, inr,
}
use openstack_tenantctl.Cloud.{Tenacity}
use openstack_tenantctl.Context.{Details, World, record_action}
use openstack_tenantctl.Context.Retry.{retried, retried-result}
use openstack_tenantctl.Teardown.{
  Kind, floating_ip, snapshot, router, subnet, network, security_group, Resource, Port, Inventory,
  Deletion, is_not_found, delete_resource, detach, detach_port, prepare_router_deletion,
  prepared_delete, safe_delete, deletion_error,
}
use openstack_tenantctl.Teardown.Outcome.{safe_delete-cloud}

-- It met something that is not there.
abbrev pub missed : {A : Type 0} → Result A → Bool
missed (ok a) = false
missed (raised e) = is_not_found e

-- It returned, or met something that is not there.
abbrev pub over : {A : Type 0} → Result A → Bool
over (ok a) = true
over (raised e) = is_not_found e

unfailed :
    {C S : Type 0} (resource_type name : String) (body : Act C (Unit {0})) (detail : Details)
    (w u : World C S) (d : Deletion)
    → safe_delete resource_type name body detail w ≡ (ok d, u)
    → d.1 ≡ []
    → over (body w.cloud).0 ≡ true
unfolding safe_delete deletion_error record_action
unfailed resource_type name body detail w u d e none_failed = ground (arith, e, none_failed)

module _ {C : Type 0} (G : C → Type 0) where
  abbrev pub Misses : {A : Type 0} → Act C A → Type 0
  Misses m = (c : C) → missed (m c).0 ≡ true → G (m c).1

  abbrev pub Ends : {A : Type 0} → Act C A → Type 0
  Ends m = (c : C) → over (m c).0 ≡ true → G (m c).1

  next-Misses :
      {A B : Type 0} (r : Result A × C) (f : A → Act C B)
      → (missed r.0 ≡ true → G r.1)
      → ((a : A) → Misses (f a))
      → missed (((λ (_ : C). r) >>= f) r.1).0 ≡ true
      → G (((λ (_ : C). r) >>= f) r.1).1
  next-Misses (ok a, c) f g h p = h a c p
  next-Misses (raised e, c) f g h p = g p

  pub bind-Misses :
      {A B : Type 0} (m : Act C A) (f : A → Act C B)
      → Misses m
      → ((a : A) → Misses (f a))
      → Misses (m >>= f)
  bind-Misses m f g h c p = next-Misses (m c) f (g c) h p

  next-Ends :
      {A B : Type 0} (r : Result A × C) (f : A → Act C B)
      → (missed r.0 ≡ true → G r.1)
      → ((a : A) → Ends (f a))
      → over (((λ (_ : C). r) >>= f) r.1).0 ≡ true
      → G (((λ (_ : C). r) >>= f) r.1).1
  next-Ends (ok a, c) f g h p = h a c p
  next-Ends (raised e, c) f g h p = g p

  pub bind-Ends :
      {A B : Type 0} (m : Act C A) (f : A → Act C B)
      → Misses m
      → ((a : A) → Ends (f a))
      → Ends (m >>= f)
  bind-Ends m f g h c p = next-Ends (m c) f (g c) h p

  pure-Misses : {A : Type 0} (a : A) → Misses (pure a)
  pure-Misses a c p = cc

  each-Misses :
      {A B : Type 0} (f : A → Act C B)
      → ((a : A) → Misses (f a))
      → (xs : List A) → Misses (each f xs)
  unfolding each
  each-Misses f h [] = λ c p. cc
  each-Misses f h (x ∷ xs) =
      bind-Misses (f x) _ (h x)
        (λ b. bind-Misses (each f xs) _ (each-Misses f h xs) (λ bs. pure-Misses (b ∷ bs)))

  retried-Misses : {A : Type 0} (T : Tenacity) (m : Act C A) → Misses m → Misses (retried T m)
  retried-Misses T m h c = retried-result (λ r. missed r.0 ≡ true → G r.1) T m c h

  pub retried-Ends : {A : Type 0} (T : Tenacity) (m : Act C A) → Ends m → Ends (retried T m)
  retried-Ends T m h c = retried-result (λ r. over r.0 ≡ true → G r.1) T m c h

  -- A deletion without a failure.
  pub safe_delete-Ends :
      {S : Type 0} (resource_type name : String) (body : Act C (Unit {0})) (detail : Details)
      (w u : World C S) (d : Deletion)
      → Ends body
      → safe_delete resource_type name body detail w ≡ (ok d, u)
      → d.1 ≡ []
      → G u.cloud
  safe_delete-Ends resource_type name body detail w u d h e none_failed =
      subst G (sym (safe_delete-cloud resource_type name body detail w) ∙ ap (λ r. r.1.cloud) e)
        (h w.cloud (unfailed resource_type name body detail w u d e none_failed))

-- The laws of the calls for one resource: `G` says that it is gone.
pub record Deleting {C : Type 0} (I : Inventory C) (kind : Kind) (id : String) (G : C → Type 0)
    : Type 0 where
  pub delete-ends : Ends G (I.delete kind id)
  pub ports-misses : kind ≡ router → Misses G (I.ports id)
  pub interface-misses :
      kind ≡ router → (subnet_id : String) → Misses G (I.remove_interface id subnet_id)
  pub gateway-misses : kind ≡ router → Misses G (I.clear_gateway id)

module _ {C : Type 0} (I : Inventory C) (T : Tenacity) (id : String) (G : C → Type 0)
    (D : Deleting I router id G) where
  detach-Misses : (subnet_id : String) → Misses G (detach I T id subnet_id)
  unfolding detach
  detach-Misses subnet_id = elim (Bool-cases (subnet_id == "")) [
    | inl none ↦ rw none (λ c p. cc)
    | inr some ↦ rw some (retried-Misses G T _ (D.interface-misses refl subnet_id))
  ]

  detach_port-Misses : (port : Port) → Misses G (detach_port I T id port)
  unfolding detach_port
  detach_port-Misses port = elim (Bool-cases port.is_router_interface) [
    | inl on ↦ rw on (
        bind-Misses G (each (detach I T id) port.subnets) _
          (each-Misses G (detach I T id) detach-Misses port.subnets) (λ _ c p. cc))
    | inr off ↦ rw off (λ c p. cc)
  ]

  prepare-Misses : Misses G (prepare_router_deletion I T id)
  unfolding prepare_router_deletion
  prepare-Misses =
      bind-Misses G (retried T (I.ports id)) _ (retried-Misses G T _ (D.ports-misses refl)) λ ports.
        bind-Misses G (each (detach_port I T id) ports) _
          (each-Misses G (detach_port I T id) detach_port-Misses ports)
          λ _. retried-Misses G T _ (D.gateway-misses refl)

module _ {C : Type 0} (I : Inventory C) (T : Tenacity) (r : Resource) (G : C → Type 0) where
  delete-Ends : (kind : Kind) → Deleting I kind r.id G → Ends G (delete_resource I T kind r.id)
  unfolding delete_resource
  delete-Ends kind D = retried-Ends G T (I.delete kind r.id) D.delete-ends

  pub prepared_delete-Ends :
      (kind : Kind) → Deleting I kind r.id G → Ends G (prepared_delete I T kind r)
  unfolding prepared_delete
  prepared_delete-Ends router D =
      bind-Ends G (prepare_router_deletion I T r.id) _ (prepare-Misses I T r.id G D)
        (λ _. delete-Ends router D)
  prepared_delete-Ends floating_ip D = delete-Ends floating_ip D
  prepared_delete-Ends snapshot D = delete-Ends snapshot D
  prepared_delete-Ends subnet D = delete-Ends subnet D
  prepared_delete-Ends network D = delete-Ends network D
  prepared_delete-Ends security_group D = delete-Ends security_group D
