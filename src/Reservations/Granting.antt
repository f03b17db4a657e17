-- ===== src/Reservations/Granting.antt =====
-- Granting, verifying and revoking the access to flavors: `ensure_reservations` and
-- `revoke_all_reservation_grants`.
use openstack_tenantctl.Base.{
  ℕ, ◌&&◌, not, Option, none, some, List, [], ◌∷◌, ◌++◌, String, ◌==◌, contains, string_eq,
  if◌then◌else◌, keep, ok, Exc, conflict, not_found, resource_not_found, dry_run_unsupported, Act,
  pure, raise, catch, ◌>>=◌, ◌>>◌,
}
use openstack_tenantctl.Base.Sorting.{sorted_by}
use openstack_tenantctl.Cloud.{Flavor, Tenacity}
use openstack_tenantctl.Models.{ProjectConfig, dict_list}
use openstack_tenantctl.Models.Reservations.{
  ReservationConfig, GrantedFlavorAccessEntry, granted_to_dict, RevokedFlavorAccessEntry,
  revoked_to_dict, granted_list_eq, revoked_list_eq,
}
use openstack_tenantctl.Store.{str, get, plain}
use openstack_tenantctl.Store.Interface.{StateStore}
use openstack_tenantctl.Context.{
  Action, Details, lit, created, updated, skipped, deleted, World, on_cloud, on_store, set_ctx,
  record_action,
}
use openstack_tenantctl.Context.Retry.{retried}
use openstack_tenantctl.ExternalNetwork.{is_empty}
use openstack_tenantctl.Fips.Persist.{save_or_raise}
use openstack_tenantctl.Reservations.{
  FlavorCalls, all_unmatched, distinct, same_texts, previous_of, tenants, revocation_reason,
  name_part, all_revoked,
}

-- A conflict of a grant after a clean check counts as granted.
unfoldable pub unless_conflict : {W : Type 0} → Exc → Act W (Unit {0})
unless_conflict conflict = pure tt
unless_conflict e = raise e

-- `except NotFoundException`
unfoldable pub unless_gone : {W : Type 0} → Details → Exc → Act W Details
unless_gone gone not_found = pure gone
unless_gone gone resource_not_found = pure gone
unless_gone gone e = raise e

module _ {C : Type 0} (F : FlavorCalls C) (T : Tenacity) where
  unfoldable pub list_private_flavors : Act C (List Flavor)
  unfolding retried
  list_private_flavors =
      retried T (do listed ← F.flavors; pure (keep (λ f. not f.is_public) listed))

  unfoldable pub grant_access : String → String → Act C (Unit {0})
  unfolding retried
  grant_access flavor_id project_id = retried T (F.flavor_add_tenant_access flavor_id project_id)

  unfoldable pub revoke_access : String → String → Act C (Unit {0})
  unfolding retried
  revoke_access flavor_id project_id =
      retried T (F.flavor_remove_tenant_access flavor_id project_id)

  unfoldable pub access_project_ids : String → Act C (List String)
  unfolding retried tenants
  access_project_ids flavor_id =
      retried T (do entries ← F.get_flavor_access flavor_id; pure (tenants entries))

module _ {C : Type 0} (F : FlavorCalls C) where
  unfoldable pub clock : Act C ℕ
  clock c = let (t, c') = F.now c in (ok t, c')

module _ {C S : Type 0} (F : FlavorCalls C) (T : Tenacity) where
  -- The list is fetched once in a run.
  unfoldable pub get_private_flavors : Act (World C S) (List Flavor)
  unfolding list_private_flavors
  get_private_flavors w = elim w.ctx.private_flavors [
    | some flavors ↦ (ok flavors, w)
    | none ↦
        if not w.ctx.online
        then raise (dry_run_unsupported "cannot list private flavors without a connection") w
        else (do
          flavors ← on_cloud (list_private_flavors F T)
          set_ctx (λ ctx. record ctx { private_flavors = some flavors })
          pure flavors)
            w
  ]

  -- One flavor that is desired and not tracked: what to track of it, and the action.
  unfoldable pub grant_one :
      ProjectConfig
      → String
      → ℕ
      → String × (String × String)
      → Act (World C S) (Option GrantedFlavorAccessEntry × Action)
  unfolding access_project_ids grant_access unless_conflict record_action name_part
  grant_one cfg project_id now (fid, (flavor_name, reservation)) = do
    ids ← on_cloud (access_project_ids F T fid)
    if contains ids project_id
        then (do
          action ←
              record_action skipped "flavor_access" flavor_name
                (lit "access already exists (manual grant — not tracked)" ∷ [])
          pure (none, action))
        else (do
          catch (on_cloud (grant_access F T fid project_id)) unless_conflict
          action ← record_action created "flavor_access" flavor_name (
              lit "granted via reservation "
              ∷ lit (name_part reservation)
              ∷ lit " (id="
              ∷ lit fid
              ∷ lit ")"
              ∷ [])
          pure (
            some (record {
              flavor_id = fid;
              flavor_name = flavor_name;
              reservation = reservation;
              granted_at = F.isoformat now;
            }),
            action,
          ))

  -- One tracked grant that is still covered.
  unfoldable pub verify_one : String → GrantedFlavorAccessEntry → Act (World C S) (Option Action)
  unfolding access_project_ids grant_access record_action
  verify_one project_id grant = do
    ids ← on_cloud (access_project_ids F T grant.flavor_id)
    if contains ids project_id then pure none else (do
      on_cloud (grant_access F T grant.flavor_id project_id)
      action ←
          record_action updated "flavor_access" grant.flavor_name
            (lit "re-granted (access was removed outside tenantctl)" ∷ [])
      pure (some action))

  -- One tracked grant that is revoked, with the details of its action.
  unfoldable pub revoke_one :
      String
      → ℕ
      → String
      → Details
      → Details
      → GrantedFlavorAccessEntry
      → Act (World C S) (RevokedFlavorAccessEntry × Action)
  unfolding revoke_access unless_gone record_action
  revoke_one project_id now reason revoked gone grant = do
    detail ←
        catch (do on_cloud (revoke_access F T grant.flavor_id project_id); pure revoked)
          (unless_gone gone)
    action ← record_action deleted "flavor_access" grant.flavor_name detail
    pure (
      record {
        flavor_id = grant.flavor_id;
        flavor_name = grant.flavor_name;
        reservation = grant.reservation;
        revoked_at = F.isoformat now;
        reason = reason;
      },
      action,
    )

  unfoldable pub revoke_uncovered :
      ProjectConfig
      → String
      → ℕ
      → GrantedFlavorAccessEntry
      → Act (World C S) (RevokedFlavorAccessEntry × Action)
  unfolding revoke_one revocation_reason
  revoke_uncovered cfg project_id now grant =
      let reason = revocation_reason grant cfg in
      revoke_one project_id now reason (lit "revoked — " ∷ lit reason ∷ [])
        (lit "revoked (already gone) — " ∷ lit reason ∷ []) grant

  unfoldable pub revoke_torn_down :
      String → ℕ → GrantedFlavorAccessEntry → Act (World C S) (RevokedFlavorAccessEntry × Action)
  unfolding revoke_one
  revoke_torn_down project_id now grant =
      revoke_one project_id now "project teardown" (lit "revoked (project teardown)" ∷ [])
        (lit "revoked (already gone, project teardown)" ∷ []) grant

module _ {C S : Type 0} (F : FlavorCalls C) (st : StateStore S) where
  -- Patterns that match no flavor are kept in the metadata.
  unfoldable pub warn_unmatched_patterns :
      ProjectConfig → List ReservationConfig → List Flavor → Act (World C S) (Unit {0})
  unfolding all_unmatched distinct sorted_by same_texts previous_of is_empty get dict_list
  warn_unmatched_patterns cfg active_entries flavors w =
      let unmatched =
        sorted_by (λ x. x) (distinct (all_unmatched F.fnmatchcase active_entries flavors)) in
      if w.ctx.has_store && not (is_empty cfg.state_key)
      then (do
        previous ← (λ v. (previous_of (get "metadata" (st.load cfg.state_key v.store)), v))
        if not w.ctx.dry_run && not (same_texts unmatched previous)
            then on_store (
                st.save cfg.state_key ("metadata" ∷ "unmatched_flavor_patterns" ∷ [])
                  (plain (dict_list str unmatched)))
            else pure tt)
          w
      else (ok tt, w)

module _ {C S : Type 0} (st : StateStore S) where
  unfoldable pub persist_grants :
      ProjectConfig → List GrantedFlavorAccessEntry → Act (World C S) (Unit {0})
  unfolding dict_list granted_to_dict
  persist_grants cfg grants =
      save_or_raise st cfg "granted_flavor_access" (plain (dict_list granted_to_dict grants))

  unfoldable pub reconcile_revoked :
      ProjectConfig
      → List GrantedFlavorAccessEntry
      → List RevokedFlavorAccessEntry
      → Act (World C S) (Unit {0})
  unfolding all_revoked dict_list revoked_to_dict
  reconcile_revoked cfg final_grants newly_revoked =
      let revoked = all_revoked final_grants cfg.revoked_flavor_access newly_revoked in
      if revoked == cfg.revoked_flavor_access
      then pure tt
      else save_or_raise st cfg "revoked_flavor_access" (plain (dict_list revoked_to_dict revoked))

  -- `if new_grants`
  unfoldable pub persist_new :
      ProjectConfig → List GrantedFlavorAccessEntry → Act (World C S) (Unit {0})
  unfolding persist_grants
  persist_new cfg [] = pure tt
  persist_new cfg (g ∷ new_grants) =
      persist_grants cfg (cfg.granted_flavor_access ++ g ∷ new_grants)

  -- `if final_grants != tracked`
  unfoldable pub persist_final :
      ProjectConfig → List GrantedFlavorAccessEntry → Act (World C S) (Unit {0})
  unfolding persist_grants
  persist_final cfg final_grants =
      if final_grants == cfg.granted_flavor_access then pure tt else persist_grants cfg final_grants
