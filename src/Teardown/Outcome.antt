-- ===== src/Teardown/Outcome.antt =====
-- How far the failure of one deletion reaches: `_safe_delete` and `_run_step` of
-- src/resources/teardown.py.
use openstack_tenantctl.Base.{
  List, [], ◌∷◌, ◌≡◌, refl, arith, String, length, ok, Act, each, sym, ap, ◌∙◌, All, subst,
  ok_witness,
}
use openstack_tenantctl.Base.Holding.{Holds, each-Holds, All-every}
use openstack_tenantctl.Cloud.{Tenacity}
use openstack_tenantctl.Context.{Details, lit, World, record_action}
use openstack_tenantctl.Teardown.{
  Kind, Resource, Inventory, Deletion, list_or_skip, wanted, safe_delete, label, type_name,
  prepared_delete, run_step, deletion_error,
}

module _ {C S : Type 0} where
  -- `_safe_delete` never raises.
  safe_delete-returns :
      (resource_type name : String) (body : Act C (Unit {0})) (detail : Details) (w : World C S)
      → (d : Deletion) × (v : World C S) × (safe_delete resource_type name body detail w
          ≡ (ok d, v))
  unfolding safe_delete
  safe_delete-returns resource_type name body detail w =
      ok_witness (safe_delete resource_type name body detail w) (ground arith)

  -- It leaves the cloud as its body does.
  pub safe_delete-cloud :
      (resource_type name : String) (body : Act C (Unit {0})) (detail : Details) (w : World C S)
      → (safe_delete resource_type name body detail w).1.cloud ≡ (body w.cloud).1
  unfolding safe_delete deletion_error record_action
  safe_delete-cloud resource_type name body detail w = ground arith

module _ {C S : Type 0} (I : Inventory C) (T : Tenacity) where
  abbrev delete_one : String → Kind → Resource → Act (World C S) Deletion
  delete_one project_id kind r =
      safe_delete (type_name kind) (label kind r) (prepared_delete I T kind r) (lit "deleted" ∷ [])

  -- The loop over the resources of a step.
  tried :
      (P : Resource → C → Type 0) (project_id : String) (kind : Kind)
      → ((r : Resource) (c : C) → P r (prepared_delete I T kind r c).1)
      → ((r s : Resource) → Holds (P r) (prepared_delete I T kind s))
      → (rs : List Resource) (w : World C S)
      → (ds : List Deletion) × (u : World C S) × (each (delete_one project_id kind) rs w
          ≡ (ok ds, u))
        × (length ds ≡ length rs)
        × All (λ r. P r u.cloud) rs
  unfolding each
  tried P project_id kind tries stays [] w = ([], w, refl, refl, tt)
  tried P project_id kind tries stays (r ∷ rs) w =
      let body = prepared_delete I T kind r in
      let (d, v, e) =
        safe_delete-returns (type_name kind) (label kind r) body (lit "deleted" ∷ []) w in
      let (ds, u, e', n, all) = tried P project_id kind tries stays rs v in
      let done : (body w.cloud).1 ≡ v.cloud =
        sym (safe_delete-cloud (type_name kind) (label kind r) body (lit "deleted" ∷ []) w)
        ∙ ap (λ x. x.1.cloud) e in
      let kept : P r u.cloud = rw e' at (
        each-Holds {W = World C S} (λ x. P r x.cloud) (λ (s : Resource). Unit {0})
          (delete_one project_id kind)
          (λ s _ x p.
            subst (P r)
              (sym (
                safe_delete-cloud (type_name kind) (label kind s) (prepared_delete I T kind s)
                  (lit "deleted" ∷ []) x))
              (stays r s x.cloud p))
          rs (All-every _ (λ s. tt) rs) v (subst (P r) done (tries r w.cloud))) in
      (d ∷ ds, u, rw (e, e'), rw n, (kept, all))

  -- Let `P r` be what the deletion of a resource brings about whether it returns or raises, as that it was
  -- tried, and what no deletion undoes. Once the resources of a step are listed, the step returns a
  -- result for each of them that it does not skip, and has brought about `P r` for each, whatever any
  -- of the deletions raises.
  pub run_step_isolates :
      (P : Resource → C → Type 0) (project_id : String) (kind : Kind)
      → ((r : Resource) (c : C) → P r (prepared_delete I T kind r c).1)
      → ((r s : Resource) → Holds (P r) (prepared_delete I T kind s))
      → (w v : World C S) (resources : List Resource)
      → list_or_skip I T kind project_id w ≡ (ok resources, v)
      → (ds : List Deletion) × (u : World C S) × (run_step I T project_id kind w ≡ (ok ds, u))
        × (length ds ≡ length (wanted kind resources))
        × All (λ r. P r u.cloud) (wanted kind resources)
  unfolding run_step
  run_step_isolates P project_id kind tries stays w v resources h =
      let (ds, u, e, n, all) = tried P project_id kind tries stays (wanted kind resources) v in
      (ds, u, rw h e, n, all)
