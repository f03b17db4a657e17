-- ===== src/Reservations/Manual.antt =====
-- What `ensure_reservations` and `revoke_all_reservation_grants` leave alone: the access to flavors that
-- is not tracked.
use openstack_tenantctl.Base.{
  ℕ, not, List, [], ◌∷◌, map, String, string_eq, keep, pure, each, ◌>>=◌, ◌>>◌,
}
use openstack_tenantctl.Cloud.{Tenacity}
use openstack_tenantctl.Models.{ProjectConfig}
use openstack_tenantctl.Models.Reservations.{
  GrantedFlavorAccessEntry, RevokedFlavorAccessEntry, granted_list_eq, revoked_list_eq,
}
use openstack_tenantctl.Store.Interface.{StateStore}
use openstack_tenantctl.Context.{Action, World, record_action}
use openstack_tenantctl.Reservations.{FlavorCalls, Grants, somes, covered_by, to_revoke, to_grant}
use openstack_tenantctl.Reservations.Granting.{
  clock, grant_one, verify_one, revoke_uncovered, revoke_torn_down, reconcile_revoked,
  persist_grants, persist_new, persist_final,
}
use openstack_tenantctl.Base.Holding.{
  Holds, bind-Holds, if_at-Holds, each-Holds, All-kept, All-every,
}
use openstack_tenantctl.Reservations.Ensure.{
  describe_entry, desired_now, preview_reservations, converge, reconcile_at, reconcile_online,
  ensure_reservations, would_tear_down, write_revoked, revoke_at, revoke_tracked, revoke_some,
  revoke_all_reservation_grants, active_at, nothing_to_do, one_action,
}
use openstack_tenantctl.Reservations.Holding.{
  CallsHold, ids_of, cloud-Holds, grant_one-Holds, verify_one-Holds, revoke_one-Holds,
  desired_now-Holds, persist_grants-Holds, persist_new-Holds, persist_final-Holds,
  reconcile_revoked-Holds, unless_none-Holds, preview_reservations-Holds, clock-Holds,
  dry_run-Holds, revoke_each-Holds, All-tracked,
}

module _ {C S : Type 0} (F : FlavorCalls C) (T : Tenacity) (st : StateStore S) (R : C → Type 0)
    (cfg : ProjectConfig) (K : CallsHold F R cfg.granted_flavor_access) where
  converge-Holds :
      (project_id : String) (now : ℕ) (desired : Grants)
      → Holds (λ (w : World C S). R w.cloud) (converge F T st cfg project_id now desired)
  unfolding converge revoke_uncovered to_revoke
  converge-Holds project_id now desired =
      let tracked = cfg.granted_flavor_access in
      let P : World C S → Type 0 = λ w. R w.cloud in
      bind-Holds P (each (grant_one F T cfg project_id now) (to_grant desired tracked)) _
        (each-Holds P (λ e. Unit) (grant_one F T cfg project_id now)
          (λ e u. grant_one-Holds F T st R tracked K cfg project_id now e) _
          (All-every (λ e. Unit) (λ e. tt) (to_grant desired tracked)))
        (λ granted.
          bind-Holds P (persist_new st cfg (somes (map (λ g. g.0) granted))) _
            (persist_new-Holds F T st R tracked K cfg (somes (map (λ g. g.0) granted)))
            (λ written.
              bind-Holds P (each (verify_one F T project_id) (covered_by desired tracked)) _
                (each-Holds P (λ e. Unit) (verify_one F T project_id)
                  (λ g u. verify_one-Holds F T st R tracked K project_id g) _
                  (All-every (λ e. Unit) (λ e. tt) (covered_by desired tracked)))
                (λ verified.
                  bind-Holds P
                    (each (revoke_uncovered F T cfg project_id now) (to_revoke desired tracked)) _
                    (revoke_each-Holds F T st R tracked K (revoke_uncovered F T cfg project_id now)
                      (to_revoke desired tracked)
                      (λ g h. revoke_one-Holds F T st R tracked K project_id now _ _ _ g h)
                      (All-kept _ _ tracked (All-tracked (ids_of tracked) tracked (λ k e. e))))
                    (λ revoked.
                      bind-Holds P (persist_final st cfg _) _
                        (persist_final-Holds F T st R tracked K cfg _)
                        (λ saved.
                          bind-Holds P (reconcile_revoked st cfg _ (map (λ r. r.0) revoked)) _
                            (reconcile_revoked-Holds F T st R tracked K cfg _
                              (map (λ r. r.0) revoked))
                            (λ settled. unless_none-Holds F T st R tracked K cfg _ _))))))

  reconcile_at-Holds :
      (project_id : String) (now : ℕ)
      → Holds (λ (w : World C S). R w.cloud) (reconcile_at F T st cfg project_id now)
  unfolding reconcile_at describe_entry record_action
  reconcile_at-Holds project_id now =
      let tracked = cfg.granted_flavor_access in
      let P : World C S → Type 0 = λ w. R w.cloud in
      let active = keep (active_at now) cfg.reservations in
      dry_run-Holds F T st R tracked K
        (do
          described ← each (describe_entry F T st now) cfg.reservations
          desired ← desired_now F T st cfg active
          preview_reservations F T st cfg described desired)
        (do desired ← desired_now F T st cfg active; converge F T st cfg project_id now desired)
        (bind-Holds P (each (describe_entry F T st now) cfg.reservations) _
          (each-Holds P (λ e. Unit) (describe_entry F T st now) (λ e u v q. q) _
            (All-every (λ e. Unit) (λ e. tt) cfg.reservations))
          (λ described.
            bind-Holds P (desired_now F T st cfg active) _
              (desired_now-Holds F T st R tracked K cfg active)
              (λ grants. preview_reservations-Holds F T st R tracked K cfg described grants)))
        (bind-Holds P (desired_now F T st cfg active) _
          (desired_now-Holds F T st R tracked K cfg active)
          (λ grants. converge-Holds project_id now grants))

  reconcile_online-Holds :
      (project_id : String)
      → Holds (λ (w : World C S). R w.cloud) (reconcile_online F T st cfg project_id)
  unfolding reconcile_online
  reconcile_online-Holds project_id =
      cloud-Holds F T st R cfg.granted_flavor_access K (clock F)
        (reconcile_at F T st cfg project_id) (clock-Holds F T st R cfg.granted_flavor_access K)
        (reconcile_at-Holds project_id)

  write_revoked-Holds :
      (revoked : List (RevokedFlavorAccessEntry × Action))
      → Holds (λ (w : World C S). R w.cloud) (write_revoked F T st cfg revoked)
  unfolding write_revoked
  write_revoked-Holds revoked =
      let tracked = cfg.granted_flavor_access in
      let P : World C S → Type 0 = λ w. R w.cloud in
      bind-Holds P (persist_grants st cfg [])
        (λ saved. do
          reconcile_revoked st cfg [] (map (λ r. r.0) revoked)
          pure (map (λ r. r.1) revoked))
        (persist_grants-Holds F T st R tracked K cfg [])
        (λ saved.
          bind-Holds P (reconcile_revoked st cfg [] (map (λ r. r.0) revoked))
            (λ settled. pure (map (λ r. r.1) revoked))
            (reconcile_revoked-Holds F T st R tracked K cfg [] (map (λ r. r.0) revoked))
            (λ settled w p. p))

  revoke_tracked-Holds :
      (project_id : String)
      → Holds
          (λ (w : World C S). R w.cloud)
          (revoke_tracked F T st cfg project_id cfg.granted_flavor_access)
  unfolding revoke_tracked revoke_at revoke_torn_down
  revoke_tracked-Holds project_id =
      let tracked = cfg.granted_flavor_access in
      let P : World C S → Type 0 = λ w. R w.cloud in
      cloud-Holds F T st R tracked K (clock F) (revoke_at F T st cfg project_id tracked)
        (clock-Holds F T st R tracked K)
        (λ now.
          bind-Holds P (each (revoke_torn_down F T project_id now) tracked)
            (write_revoked F T st cfg)
            (revoke_each-Holds F T st R tracked K (revoke_torn_down F T project_id now) tracked
              (λ g h. revoke_one-Holds F T st R tracked K project_id now _ _ _ g h)
              (All-tracked (ids_of tracked) tracked (λ k e. e)))
            write_revoked-Holds)

  revoke_some-Holds :
      (project_id : String) (gs : List GrantedFlavorAccessEntry)
      → Holds (λ (w : World C S). R w.cloud) (revoke_tracked F T st cfg project_id gs)
      → Holds (λ (w : World C S). R w.cloud) (revoke_some F T st cfg project_id gs)
  unfolding revoke_some one_action would_tear_down record_action
  revoke_some-Holds project_id [] h w p = p
  revoke_some-Holds project_id (g ∷ gs) h w p =
      let P : World C S → Type 0 = λ w. R w.cloud in
      if_at-Holds P (not w.ctx.online) _ _ p (
        if_at-Holds P w.ctx.dry_run _ _
          (each-Holds P (λ e. Unit) (would_tear_down F T st) (λ e u v q. q) _
            (All-every (λ e. Unit) (λ e. tt) (g ∷ gs)) w p)
          (h w p))

  -- What the calls keep of the cloud, a revocation only if it is of a flavor whose grant is tracked, is
  -- kept by a run over the reservations and by the revocation at a teardown, whether they return or raise.
  pub ensure_reservations-Holds :
      (project_id : String) (w : World C S)
      → R w.cloud
      → R (ensure_reservations F T st cfg project_id w).1.cloud
        × R (revoke_all_reservation_grants F T st cfg project_id w).1.cloud
  unfolding ensure_reservations one_action record_action revoke_all_reservation_grants
  ensure_reservations-Holds project_id w p =
      let P : World C S → Type 0 = λ w. R w.cloud in
      (
        if_at-Holds P (nothing_to_do F T st cfg.reservations cfg.granted_flavor_access) _ _ p
            (if_at-Holds P (not w.ctx.online) _ _ p (reconcile_online-Holds project_id w p)),
        revoke_some-Holds project_id cfg.granted_flavor_access (revoke_tracked-Holds project_id) w
            p,
      )
