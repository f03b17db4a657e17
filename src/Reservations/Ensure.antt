-- ===== src/Reservations/Ensure.antt =====
-- A run over all reservations, and the revocation at a teardown: `ensure_reservations` and
-- `revoke_all_reservation_grants`.
use openstack_tenantctl.Base.{
  ℕ, suc, Bool, true, false, not, Option, none, some, List, [], ◌∷◌, ◌++◌, map, String, string_eq,
  if◌then◌else◌, keep, length, ok, Act, pure, each, ◌>>=◌, ◌>>◌,
}
use openstack_tenantctl.Base.Int.{pos}
use openstack_tenantctl.Cloud.{Tenacity}
use openstack_tenantctl.Models.{ProjectConfig}
use openstack_tenantctl.Models.Reservations.{
  PeriodSpan, spans_active, ReservationConfig, label, GrantedFlavorAccessEntry,
  RevokedFlavorAccessEntry, granted_list_eq, revoked_list_eq,
}
use openstack_tenantctl.Store.Interface.{StateStore}
use openstack_tenantctl.Context.{
  Action, ActionStatus, Details, lit, int, created, skipped, deleted, World, on_cloud,
  record_action,
}
use openstack_tenantctl.Reservations.{
  FlavorCalls, Grants, desired_grants, somes, revocation_reason, name_part, covered_by, to_revoke,
  to_grant,
}
use openstack_tenantctl.Reservations.Granting.{
  clock, get_private_flavors, grant_one, verify_one, revoke_uncovered, revoke_torn_down,
  warn_unmatched_patterns, reconcile_revoked, persist_grants, persist_new, persist_final,
}

module _ {C S : Type 0} where
  unfoldable pub one_action :
      ActionStatus → String → String → Details → Act (World C S) (List Action)
  unfolding record_action
  one_action status resource_type name details = do
    action ← record_action status resource_type name details
    pure (action ∷ [])

-- `start .. end`, with an instant printed as its number.
point : Option ℕ → Details
point none = lit "open" ∷ []
point (some t) = int (pos t) ∷ []

describe_all : List PeriodSpan → Details
unfolding point
describe_all [] = []
describe_all (span ∷ []) = point span.start ++ lit " .. " ∷ point span.stop
describe_all (span ∷ next ∷ spans) =
    (point span.start ++ lit " .. " ∷ point span.stop) ++ lit "; " ∷ describe_all (next ∷ spans)

abbrev pub active_at : ℕ → ReservationConfig → Bool
active_at now entry = spans_active entry.period now

module _ {C S : Type 0} (F : FlavorCalls C) (T : Tenacity) (st : StateStore S) where
  -- The entries of a dry run, each with its periods and whether it is active.
  unfoldable pub describe_entry : ℕ → ReservationConfig → Act (World C S) Action
  unfolding record_action describe_all label spans_active
  describe_entry now entry = record_action skipped "reservation" (label entry) (
      lit "period " ∷ describe_all entry.period
      ++ lit " — currently " ∷ lit (if active_at now entry then "active" else "inactive") ∷ [])

  unfoldable pub would_grant : String × (String × String) → Act (World C S) Action
  unfolding record_action name_part
  would_grant (fid, (flavor_name, reservation)) =
      record_action created "flavor_access" flavor_name (
        lit "would grant via reservation "
        ∷ lit (name_part reservation)
        ∷ lit " (id="
        ∷ lit fid
        ∷ lit ")"
        ∷ [])

  unfoldable pub would_revoke : ProjectConfig → GrantedFlavorAccessEntry → Act (World C S) Action
  unfolding record_action revocation_reason
  would_revoke cfg grant =
      record_action deleted "flavor_access" grant.flavor_name
        (lit "would revoke — " ∷ lit (revocation_reason grant cfg) ∷ [])

  -- What the active entries cover. Without one, no flavor is listed.
  unfoldable pub desired_now : ProjectConfig → List ReservationConfig → Act (World C S) Grants
  unfolding get_private_flavors desired_grants warn_unmatched_patterns
  desired_now cfg [] = pure []
  desired_now cfg (entry ∷ entries) = do
    flavors ← get_private_flavors F T
    warn_unmatched_patterns F st cfg (entry ∷ entries) flavors
    pure (desired_grants F.fnmatchcase (entry ∷ entries) flavors [])

  unfoldable pub preview_reservations :
      ProjectConfig → List Action → Grants → Act (World C S) (List Action)
  unfolding to_grant to_revoke would_grant would_revoke
  preview_reservations cfg described desired = do
    granted ← each would_grant (to_grant desired cfg.granted_flavor_access)
    revoked ← each (would_revoke cfg) (to_revoke desired cfg.granted_flavor_access)
    pure (described ++ granted ++ revoked)

  unfoldable pub unless_none : ProjectConfig → ℕ → List Action → Act (World C S) (List Action)
  unfolding one_action
  unless_none cfg n [] =
      one_action skipped "reservation" cfg.name
        (lit "flavor access converged (" ∷ int (pos n) ∷ lit " tracked grant(s))" ∷ [])
  unless_none cfg n (a ∷ actions) = pure (a ∷ actions)

  -- Grant, write down, verify, revoke and write down again.
  unfoldable pub converge : ProjectConfig → String → ℕ → Grants → Act (World C S) (List Action)
  unfolding grant_one verify_one revoke_uncovered persist_new persist_final reconcile_revoked somes
      covered_by to_revoke to_grant unless_none
  converge cfg project_id now desired =
      let tracked = cfg.granted_flavor_access in
      let covered = covered_by desired tracked in
      do
        granted ← each (grant_one F T cfg project_id now) (to_grant desired tracked)
        let new_grants = somes (map (λ g. g.0) granted)
        persist_new st cfg new_grants
        verified ← each (verify_one F T project_id) covered
        revoked ← each (revoke_uncovered F T cfg project_id now) (to_revoke desired tracked)
        persist_final st cfg (covered ++ new_grants)
        reconcile_revoked st cfg (covered ++ new_grants) (map (λ r. r.0) revoked)
        unless_none cfg (length covered)
            (map (λ g. g.1) granted ++ somes verified ++ map (λ r. r.1) revoked)

  -- The instant of the run is read once.
  unfoldable pub reconcile_at : ProjectConfig → String → ℕ → Act (World C S) (List Action)
  unfolding desired_now converge preview_reservations describe_entry
  reconcile_at cfg project_id now w =
      let active_entries = keep (active_at now) cfg.reservations in
      if w.ctx.dry_run
      then (do
        described ← each (describe_entry now) cfg.reservations
        desired ← desired_now cfg active_entries
        preview_reservations cfg described desired)
          w
      else (do desired ← desired_now cfg active_entries; converge cfg project_id now desired) w

  unfoldable pub reconcile_online : ProjectConfig → String → Act (World C S) (List Action)
  unfolding clock reconcile_at
  reconcile_online cfg project_id = do now ← on_cloud (clock F); reconcile_at cfg project_id now

  unfoldable pub nothing_to_do : List ReservationConfig → List GrantedFlavorAccessEntry → Bool
  nothing_to_do [] [] = true
  nothing_to_do _ _ = false

  unfoldable pub ensure_reservations : ProjectConfig → String → Act (World C S) (List Action)
  unfolding one_action nothing_to_do reconcile_online
  ensure_reservations cfg project_id w =
      if nothing_to_do cfg.reservations cfg.granted_flavor_access
      then one_action skipped "reservation" "all" (lit "no reservations configured" ∷ []) w
      else if not w.ctx.online
      then one_action skipped "reservation" cfg.name
          (lit "would reconcile flavor access (offline)" ∷ []) w
      else reconcile_online cfg project_id w

  unfoldable pub would_tear_down : GrantedFlavorAccessEntry → Act (World C S) Action
  unfolding record_action
  would_tear_down grant =
      record_action deleted "flavor_access" grant.flavor_name
        (lit "would revoke (project teardown)" ∷ [])

  -- What is written down once all are revoked.
  unfoldable pub write_revoked :
      ProjectConfig → List (RevokedFlavorAccessEntry × Action) → Act (World C S) (List Action)
  unfolding persist_grants reconcile_revoked
  write_revoked cfg revoked = do
    persist_grants st cfg []
    reconcile_revoked st cfg [] (map (λ r. r.0) revoked)
    pure (map (λ r. r.1) revoked)

  unfoldable pub revoke_at :
      ProjectConfig → String → List GrantedFlavorAccessEntry → ℕ → Act (World C S) (List Action)
  unfolding revoke_torn_down write_revoked
  revoke_at cfg project_id tracked now = do
    revoked ← each (revoke_torn_down F T project_id now) tracked
    write_revoked cfg revoked

  unfoldable pub revoke_tracked :
      ProjectConfig → String → List GrantedFlavorAccessEntry → Act (World C S) (List Action)
  unfolding clock revoke_at
  revoke_tracked cfg project_id tracked = do
    now ← on_cloud (clock F)
    revoke_at cfg project_id tracked now

  -- The tracked grants, of which there are some.
  unfoldable pub revoke_some :
      ProjectConfig → String → List GrantedFlavorAccessEntry → Act (World C S) (List Action)
  unfolding one_action would_tear_down revoke_tracked
  revoke_some cfg project_id [] w = (ok [], w)
  revoke_some cfg project_id (g ∷ tracked) w =
      if not w.ctx.online
      then one_action skipped "flavor_access" cfg.name
          (lit "would revoke "
            ∷ int (pos (suc (length tracked)))
            ∷ lit " tracked grant(s) (offline)"
            ∷ [])
          w
      else if w.ctx.dry_run
      then each would_tear_down (g ∷ tracked) w
      else revoke_tracked cfg project_id (g ∷ tracked) w

  unfoldable pub revoke_all_reservation_grants :
      ProjectConfig → String → Act (World C S) (List Action)
  unfolding revoke_some
  revoke_all_reservation_grants cfg project_id =
      revoke_some cfg project_id cfg.granted_flavor_access
