-- ===== src/Teardown/Gone.antt =====
-- What a teardown that returned leaves of a project: `teardown_project` of src/resources/teardown.py.
use openstack_tenantctl.Base.{
  false, List, [], ◌∷◌, ◌++◌, ◌≡◌, refl, sym, subst, ap, ◌∙◌, String, inl, inr, ok, Act, each, All,
  bind_ok, append-eq-nil_iff, ◌>>=◌,
}
use openstack_tenantctl.Cloud.{Tenacity}
use openstack_tenantctl.Models.{ProjectConfig}
use openstack_tenantctl.Context.{Action, lit, World}
use openstack_tenantctl.Context.Retry.{retried, retried-Holds}
use openstack_tenantctl.Teardown.{
  Kind, floating_ip, snapshot, router, subnet, network, security_group, Resource, Inventory,
  Deletion, skipped?, teardown_steps, run_step, safe_delete, gathered, verdict, teardown_online,
}
use openstack_tenantctl.Teardown.Outcome.{safe_delete-cloud}
use openstack_tenantctl.Teardown.Endings.{Ends, Deleting, safe_delete-Ends, retried-Ends}
use openstack_tenantctl.Teardown.Keeping.{Keeps}
use openstack_tenantctl.Teardown.Clearing.{Has, Listing, Unfailed, steps-gone}

in_steps : (kind : Kind) → Has kind teardown_steps
in_steps floating_ip = inl refl
in_steps snapshot = inr (inl refl)
in_steps router = inr (inr (inl refl))
in_steps subnet = inr (inr (inr (inl refl)))
in_steps network = inr (inr (inr (inr (inl refl))))
in_steps security_group = inr (inr (inr (inr (inr (inl refl)))))

gathered-Unfailed :
    (steps : List (List Deletion)) → (gathered steps).1 ≡ [] → All (All Unfailed) steps
unfolding gathered
gathered-Unfailed [] e = tt
gathered-Unfailed ([] ∷ rest) e = (tt, gathered-Unfailed rest e)
gathered-Unfailed (((a, failures) ∷ ds) ∷ rest) e =
    let none_failed = (append-eq-nil_iff failures (gathered (ds ∷ rest)).1).0 e in
    let (more, others) = gathered-Unfailed (ds ∷ rest) none_failed.1 in
    ((none_failed.0, more), others)

unappended :
    (P : List Deletion → Type 0) (xs : List (List Deletion)) (x : List Deletion)
    → All P (xs ++ x ∷ [])
    → All P xs × P x
unappended P [] x (p, _) = (tt, p)
unappended P (y ∷ xs) x (q, all) = let (more, p) = unappended P xs x all in ((q, more), p)

-- A cloud in which listings and deletions are true to what is gone: a listing has what is not gone, a
-- deletion that returns or meets something that is not there means that the resource is gone, and so
-- does a call that prepares a router's deletion and meets something that is not there.
pub record IsTrue {C : Type 0} (I : Inventory C) (project_id : String)
    (gone : Kind → Resource → C → Type 0) (project_gone : C → Type 0) : Type 0 where
  pub listing : (kind : Kind) (r : Resource) → Listing I kind project_id r (gone kind r)
  pub keeps : (kind : Kind) (r : Resource) → Keeps I (gone kind r)
  pub deleting : (kind : Kind) (r : Resource) → Deleting I kind r.id (gone kind r)
  pub project-ends : Ends project_gone (I.delete_project project_id)

module _ {C S : Type 0} (I : Inventory C) (T : Tenacity) where
  verdict_ok :
      (name : String) (p : List Action × List String) (w v : World C S) (actions : List Action)
      → verdict I T name p w ≡ (ok actions, v)
      → (p.1 ≡ []) × (w.cloud ≡ v.cloud)
  unfolding verdict
  verdict_ok name (acts, []) w v actions e = (refl, ap (λ x. x.1.cloud) e)
  verdict_ok name (acts, f ∷ fs) w v actions e = cc

  abbrev delete_project : ProjectConfig → String → Act (World C S) Deletion
  delete_project cfg project_id =
      safe_delete "project" cfg.name (retried T (I.delete_project project_id))
        (lit "id=" ∷ lit project_id ∷ [])

  last-Holds :
      (G : C → Type 0) (K : Keeps I G) (cfg : ProjectConfig) (project_id : String) (w u : World C S)
      (d : Deletion)
      → delete_project cfg project_id w ≡ (ok d, u)
      → G w.cloud
      → G u.cloud
  last-Holds G K cfg project_id w u d e g =
      subst G
        (sym (
            safe_delete-cloud "project" cfg.name (retried T (I.delete_project project_id))
              (lit "id=" ∷ lit project_id ∷ []) w)
          ∙ ap (λ x. x.1.cloud) e)
        (retried-Holds G T _ (K.project-keeps project_id) w.cloud g)

  -- In a cloud whose listings and deletions are true to what is gone, and in which the calls that prepare
  -- a router's deletion miss nothing unless the router is gone, a live teardown that returns leaves
  -- nothing of the project: every resource of the six types is gone, except for a default security
  -- group, and so is the project itself. So a deletion that fails in another way makes it raise.
  pub teardown_online-gone :
      (cfg : ProjectConfig) (project_id : String) (gone : Kind → Resource → C → Type 0)
      (project_gone : C → Type 0)
      → IsTrue I project_id gone project_gone
      → (w v : World C S) (actions : List Action)
      → teardown_online I T cfg project_id w ≡ (ok actions, v)
      → ((kind : Kind) (r : Resource) → skipped? kind r ≡ false → gone kind r v.cloud)
        × project_gone v.cloud
  unfolding teardown_online
  teardown_online-gone cfg project_id gone project_gone M w v actions h =
      let close = λ (steps : List (List Deletion)) (last : Deletion).
        verdict I T cfg.name (gathered (steps ++ (last ∷ []) ∷ [])) in
      let (steps, u, e, h') =
        bind_ok (each (run_step I T project_id) teardown_steps)
          (λ steps. delete_project cfg project_id >>= λ last. close steps last) w actions v h in
      let (last, t, e', h'') =
        bind_ok (delete_project cfg project_id) (λ last. close steps last) u actions v h' in
      let (none_failed, at) =
        verdict_ok cfg.name (gathered (steps ++ (last ∷ []) ∷ [])) t v actions h'' in
      let (all, (ended, _)) =
        unappended (All Unfailed) steps (last ∷ []) (gathered-Unfailed _ none_failed) in
      (
        λ kind r s. subst (gone kind r) at (
            last-Holds (gone kind r) (M.keeps kind r) cfg project_id u t last e' (
              steps-gone I T project_id kind r (gone kind r) (M.listing kind r) (M.keeps kind r)
                (M.deleting kind r) teardown_steps w u steps s e all (inr (in_steps kind)))),
        subst project_gone at (
            safe_delete-Ends project_gone "project" cfg.name
              (retried T (I.delete_project project_id)) (lit "id=" ∷ lit project_id ∷ []) u t last
              (retried-Ends project_gone T _ M.project-ends) e' ended),
      )
