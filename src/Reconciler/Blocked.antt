-- ===== src/Reconciler/Blocked.antt =====
-- What the safety check does to the teardown of an absent project.
use openstack_tenantctl.Base.{
  true, false, some, List, [], ◌∷◌, ◌≡◌, ◌≢◌, refl, ap, ◌∙◌, String, Result, ok, raised,
  safety_check_failed, ◌>>=◌,
}
use openstack_tenantctl.Cloud.{Neutron, Tenacity}
use openstack_tenantctl.Models.{ProjectConfig}
use openstack_tenantctl.Store.Interface.{StateStore}
use openstack_tenantctl.Context.{World}
use openstack_tenantctl.Teardown.{Inventory}
use openstack_tenantctl.Teardown.Safety.{Blocker, safety_check, safety_check_iff, IsClear}
use openstack_tenantctl.Context.Retry.{retried}
use openstack_tenantctl.Reconciler.{Handlers, tear_down, tear_down_found, reconcile_absent}

module _ {C S : Type 0} (N : Neutron C) (T : Tenacity) (I : Inventory C) (st : StateStore S)
    (H : Handlers C S) where
  blocked :
      (cfg : ProjectConfig) (project_id : String) (w : World C S) (blockers : List Blocker)
      → w.ctx.dry_run ≡ false
      → blockers ≢ []
      → tear_down N T I st H cfg project_id blockers w ≡ (raised (safety_check_failed cfg.name), w)
  unfolding tear_down
  blocked cfg project_id w [] live n = absurd (n refl)
  blocked cfg project_id w (b ∷ blockers) live n = rw live

  checked :
      (cfg : ProjectConfig) (project_id : String) (v : World C S) (blockers : List Blocker) (c : C)
      → safety_check I T project_id v.cloud ≡ (ok blockers, c)
      → tear_down_found N T I st H cfg (some project_id) v
        ≡ tear_down N T I st H cfg project_id blockers
            (record v { cloud = c; ctx = record (v.ctx) { current_project_id = project_id } })
  unfolding tear_down_found
  checked cfg project_id v blockers c e =
      ap
        (λ (p : Result (List Blocker) × C).
          ((λ (_ : World C S). (
            p.0,
            record v { cloud = p.1; ctx = record (v.ctx) { current_project_id = project_id } },
          ))
              >>= tear_down N T I st H cfg project_id)
            v)
        e

  -- A live run that finds the project of an absent configuration, and whose listings of servers
  -- and of volumes did not both come back empty or meet a service that is not there, raises
  -- SafetyCheckError. The cloud is then what the two listings leave, and the store is unchanged.
  pub reconcile_absent_blocked :
      (cfg : ProjectConfig) (project_id : String) (w v : World C S)
      → w.ctx.online ≡ true
      → H.find_existing_project cfg w ≡ (ok (some project_id), v)
      → v.ctx.dry_run ≡ false
      → let servers = retried T (I.servers project_id) v.cloud in
        let volumes = retried T (I.volumes project_id) servers.1 in
        ((IsClear I T servers × IsClear I T volumes) → ⊥)
        → (reconcile_absent N T I st H cfg w).0 ≡ raised (safety_check_failed cfg.name)
          × ((reconcile_absent N T I st H cfg w).1.cloud ≡ volumes.1)
          × ((reconcile_absent N T I st H cfg w).1.store ≡ v.store)
  unfolding reconcile_absent
  reconcile_absent_blocked cfg project_id w v online found live n =
      let (blockers, e, iff) = safety_check_iff I T project_id v.cloud in
      let named : World C S = record v {
        ctx = record (v.ctx) { current_project_id = project_id };
      } in
      let there : World C S = record named {
        cloud = (retried T (I.volumes project_id) (retried T (I.servers project_id) v.cloud).1).1;
      } in
      let same : reconcile_absent N T I st H cfg w
          ≡ (raised (safety_check_failed cfg.name), there) =
        rw (found, online)
          (checked cfg project_id v blockers _ e
            ∙ blocked cfg project_id there blockers live (λ h. n (iff.0 h))) in
      (rw same refl, rw same refl, rw same refl)
