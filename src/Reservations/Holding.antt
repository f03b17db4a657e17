-- ===== src/Reservations/Holding.antt =====
-- What the single steps of `ensure_reservations` and `revoke_all_reservation_grants` keep of the cloud.
use openstack_tenantctl.Base.{
  ℕ, true, ◌&&◌, not, Option, none, some, List, [], ◌∷◌, map, String, ◌==◌, contains, string_eq,
  if◌then◌else◌, Result, ok, Exc, conflict, not_found, resource_not_found, dry_run_unsupported, Act,
  pure, raise, catch, each, ◌>>=◌, ◌>>◌,
}
use openstack_tenantctl.Cloud.{Flavor, Tenacity}
use openstack_tenantctl.Models.{ProjectConfig}
use openstack_tenantctl.Models.Reservations.{
  ReservationConfig, GrantedFlavorAccessEntry, RevokedFlavorAccessEntry, granted_list_eq,
  revoked_list_eq,
}
use openstack_tenantctl.Store.{Value, get, plain}
use openstack_tenantctl.Store.Interface.{StateStore}
use openstack_tenantctl.Context.{Action, Details, World, on_cloud, on_store, set_ctx, record_action}
use openstack_tenantctl.ExternalNetwork.{is_empty}
use openstack_tenantctl.Fips.Persist.{save_or_raise}
use openstack_tenantctl.Reservations.{
  FlavorCalls, Grants, previous_of, all_revoked, to_revoke, to_grant,
}
use openstack_tenantctl.Reservations.Granting.{
  clock, get_private_flavors, grant_one, verify_one, warn_unmatched_patterns, reconcile_revoked,
  persist_grants, persist_new, persist_final,
}
use openstack_tenantctl.Base.Holding.{
  Holds, bind-Holds, catch-Holds, if-Holds, if_at-Holds, each-Holds, All-every,
}
use openstack_tenantctl.Base.{All, ◌≡◌, arith}
use openstack_tenantctl.Context.Retry.{retried-Holds}
use openstack_tenantctl.Reservations.Granting.{
  list_private_flavors, grant_access, revoke_access, access_project_ids, revoke_one,
  unless_conflict, unless_gone,
}
use openstack_tenantctl.Reservations.Ensure.{
  would_grant, would_revoke, desired_now, preview_reservations, unless_none, one_action,
}

abbrev pub ids_of : List GrantedFlavorAccessEntry → List String
ids_of tracked = map (λ g. g.flavor_id) tracked

-- The calls keep the predicate on the cloud, a revocation if it is of a tracked flavor.
pub record CallsHold {C : Type 0} (F : FlavorCalls C) (R : C → Type 0)
    (tracked : List GrantedFlavorAccessEntry) : Type 0 where
  pub flavors-holds : Holds R F.flavors
  pub get_flavor_access-holds : (fid : String) → Holds R (F.get_flavor_access fid)
  pub add-holds : (fid project_id : String) → Holds R (F.flavor_add_tenant_access fid project_id)
  pub remove-holds :
      (fid project_id : String)
      → contains (ids_of tracked) fid ≡ true
      → Holds R (F.flavor_remove_tenant_access fid project_id)
  pub now-holds : (c : C) → R c → R (F.now c).1

pub All-tracked :
    (ids : List String) (xs : List GrantedFlavorAccessEntry)
    → ((k : String) → contains (ids_of xs) k ≡ true → contains ids k ≡ true)
    → All (λ g. contains ids g.flavor_id ≡ true) xs
All-tracked ids [] h = tt
All-tracked ids (x ∷ xs) h =
    (h x.flavor_id (ground arith), All-tracked ids xs (λ k e. h k (ground (arith, e))))

unless_conflict-Holds : {W : Type 0} (P : W → Type 0) (e : Exc) → Holds P (unless_conflict e)
unfolding unless_conflict
unless_conflict-Holds P conflict w p = p
unless_conflict-Holds P e w p = p

unless_gone-Holds :
    {W : Type 0} (P : W → Type 0) (gone : Details) (e : Exc) → Holds P (unless_gone gone e)
unfolding unless_gone
unless_gone-Holds P gone not_found w p = p
unless_gone-Holds P gone resource_not_found w p = p
unless_gone-Holds P gone e w p = p

module _ {C S : Type 0} (F : FlavorCalls C) (T : Tenacity) (st : StateStore S) (R : C → Type 0)
    (tracked : List GrantedFlavorAccessEntry) (K : CallsHold F R tracked) where
  abbrev pub At : World C S → Type 0
  At w = R w.cloud

  abbrev pub IsTracked : GrantedFlavorAccessEntry → Type 0
  IsTracked g = contains (ids_of tracked) g.flavor_id ≡ true

  pub access_project_ids-Holds : (fid : String) → Holds R (access_project_ids F T fid)
  unfolding access_project_ids
  access_project_ids-Holds fid =
      retried-Holds R T _ (
        bind-Holds R (F.get_flavor_access fid) _ (K.get_flavor_access-holds fid) (λ entries w p. p))

  pub grant_access-Holds : (fid project_id : String) → Holds R (grant_access F T fid project_id)
  unfolding grant_access
  grant_access-Holds fid project_id = retried-Holds R T _ (K.add-holds fid project_id)

  pub revoke_access-Holds :
      (fid project_id : String)
      → contains (ids_of tracked) fid ≡ true
      → Holds R (revoke_access F T fid project_id)
  unfolding revoke_access
  revoke_access-Holds fid project_id h = retried-Holds R T _ (K.remove-holds fid project_id h)

  pub list_private_flavors-Holds : Holds R (list_private_flavors F T)
  unfolding list_private_flavors
  list_private_flavors-Holds =
      retried-Holds R T _ (bind-Holds R F.flavors _ K.flavors-holds (λ listed w p. p))

  -- A call on the cloud inside a run.
  pub cloud-Holds :
      {A B : Type 0} (m : Act C A) (f : A → Act (World C S) B)
      → Holds R m
      → ((a : A) → Holds At (f a))
      → Holds At (on_cloud m >>= f)
  cloud-Holds m f h g = bind-Holds At (on_cloud m) f (λ w p. h w.cloud p) g

  pub grant_one-Holds :
      (cfg : ProjectConfig) (project_id : String) (now : ℕ) (e : String × (String × String))
      → Holds At (grant_one F T cfg project_id now e)
  unfolding grant_one record_action
  grant_one-Holds cfg project_id now (fid, (flavor_name, reservation)) =
      cloud-Holds (access_project_ids F T fid) _ (access_project_ids-Holds fid) (λ ids.
        if-Holds At (contains ids project_id) _ _ (λ w p. p)
          (bind-Holds At (catch (on_cloud (grant_access F T fid project_id)) unless_conflict) _
            (catch-Holds At (on_cloud (grant_access F T fid project_id)) unless_conflict
              (λ w p. grant_access-Holds fid project_id w.cloud p) (unless_conflict-Holds At))
            (λ granted w p. p)))

  pub verify_one-Holds :
      (project_id : String) (g : GrantedFlavorAccessEntry) → Holds At (verify_one F T project_id g)
  unfolding verify_one record_action
  verify_one-Holds project_id g =
      cloud-Holds (access_project_ids F T g.flavor_id) _ (access_project_ids-Holds g.flavor_id)
        (λ ids.
          if-Holds At (contains ids project_id) _ _ (λ w p. p)
            (cloud-Holds (grant_access F T g.flavor_id project_id) _
              (grant_access-Holds g.flavor_id project_id) (λ granted w p. p)))

  pub revoke_one-Holds :
      (project_id : String) (now : ℕ) (reason : String) (revoked gone : Details)
      (g : GrantedFlavorAccessEntry)
      → IsTracked g
      → Holds At (revoke_one F T project_id now reason revoked gone g)
  unfolding revoke_one record_action
  revoke_one-Holds project_id now reason revoked gone g h =
      bind-Holds At
        (catch (do on_cloud (revoke_access F T g.flavor_id project_id); pure revoked)
          (unless_gone gone))
        _
        (catch-Holds At (do on_cloud (revoke_access F T g.flavor_id project_id); pure revoked) _
          (cloud-Holds (revoke_access F T g.flavor_id project_id) _
            (revoke_access-Holds g.flavor_id project_id h) (λ done w p. p))
          (unless_gone-Holds At gone))
        (λ detail w p. p)

  pub get_private_flavors-Holds : Holds At (get_private_flavors F T)
  unfolding get_private_flavors
  get_private_flavors-Holds w p = found w.ctx.private_flavors
    where
      found :
          (o : Option (List Flavor))
          → R
              (elim o as (λ o. Result (List Flavor) × World C S) [
                | some flavors ↦ (ok flavors, w)
                | none ↦
                    if not w.ctx.online
                    then raise
                        (dry_run_unsupported "cannot list private flavors without a connection")
                        w
                    else (do
                      flavors ← on_cloud (list_private_flavors F T)
                      set_ctx (λ ctx. record ctx { private_flavors = some flavors })
                      pure flavors)
                        w
              ]).1.cloud
      found (some flavors) = p
      found none = if_at-Holds At (not w.ctx.online) _ _ p (
          cloud-Holds (list_private_flavors F T) _ list_private_flavors-Holds (λ flavors v q. q) w
            p)

  -- What is written to the store leaves the cloud.
  pub store-Holds : {A : Type 0} (m : Act S A) → Holds At (on_store m)
  store-Holds m w p = p

  pub save-Holds :
      (cfg : ProjectConfig) (key : String) (v : Value)
      → Holds At (save_or_raise st cfg key (plain v))
  save-Holds cfg key v w p = if_at-Holds At w.ctx.has_store _ _ p p

  pub warn_unmatched_patterns-Holds :
      (cfg : ProjectConfig) (entries : List ReservationConfig) (flavors : List Flavor)
      → Holds At (warn_unmatched_patterns F st cfg entries flavors)
  unfolding warn_unmatched_patterns
  warn_unmatched_patterns-Holds cfg entries flavors w p =
      if_at-Holds At (w.ctx.has_store && not (is_empty cfg.state_key)) _ _
        (bind-Holds At (λ v. (previous_of (get "metadata" (st.load cfg.state_key v.store)), v)) _
          (λ v q. q) (λ previous. if-Holds At _ _ _ (λ v q. q) (λ v q. q)) w p)
        p

  pub desired_now-Holds :
      (cfg : ProjectConfig) (entries : List ReservationConfig)
      → Holds At (desired_now F T st cfg entries)
  unfolding desired_now
  desired_now-Holds cfg [] w p = p
  desired_now-Holds cfg (entry ∷ entries) w p =
      bind-Holds At (get_private_flavors F T) _ get_private_flavors-Holds
        (λ flavors.
          bind-Holds At (warn_unmatched_patterns F st cfg (entry ∷ entries) flavors) _
            (warn_unmatched_patterns-Holds cfg (entry ∷ entries) flavors) (λ warned v q. q))
        w p

  pub persist_grants-Holds :
      (cfg : ProjectConfig) (grants : List GrantedFlavorAccessEntry)
      → Holds At (persist_grants st cfg grants)
  unfolding persist_grants
  persist_grants-Holds cfg grants = save-Holds cfg "granted_flavor_access" _

  pub persist_new-Holds :
      (cfg : ProjectConfig) (new_grants : List GrantedFlavorAccessEntry)
      → Holds At (persist_new st cfg new_grants)
  unfolding persist_new persist_grants
  persist_new-Holds cfg [] w p = p
  persist_new-Holds cfg (g ∷ new_grants) w p = save-Holds cfg "granted_flavor_access" _ w p

  pub persist_final-Holds :
      (cfg : ProjectConfig) (final_grants : List GrantedFlavorAccessEntry)
      → Holds At (persist_final st cfg final_grants)
  unfolding persist_final persist_grants
  persist_final-Holds cfg final_grants =
      if-Holds At (final_grants == cfg.granted_flavor_access) _ _ (λ w p. p)
        (save-Holds cfg "granted_flavor_access" _)

  pub reconcile_revoked-Holds :
      (cfg : ProjectConfig) (final_grants : List GrantedFlavorAccessEntry)
      (newly_revoked : List RevokedFlavorAccessEntry)
      → Holds At (reconcile_revoked st cfg final_grants newly_revoked)
  unfolding reconcile_revoked
  reconcile_revoked-Holds cfg final_grants newly_revoked =
      if-Holds At
        (all_revoked final_grants cfg.revoked_flavor_access newly_revoked
          == cfg.revoked_flavor_access)
        _ _ (λ w p. p) (save-Holds cfg "revoked_flavor_access" _)

  pub unless_none-Holds :
      (cfg : ProjectConfig) (n : ℕ) (actions : List Action)
      → Holds At (unless_none F T st cfg n actions)
  unfolding unless_none one_action record_action
  unless_none-Holds cfg n [] w p = p
  unless_none-Holds cfg n (a ∷ actions) w p = p

  pub preview_reservations-Holds :
      (cfg : ProjectConfig) (described : List Action) (desired : Grants)
      → Holds At (preview_reservations F T st cfg described desired)
  unfolding preview_reservations would_grant would_revoke record_action
  preview_reservations-Holds cfg described desired =
      bind-Holds At (each (would_grant F T st) (to_grant desired cfg.granted_flavor_access)) _
        (each-Holds At (λ e. Unit) (would_grant F T st) (λ e u w p. p) _
          (All-every (λ e. Unit) (λ e. tt) _))
        (λ granted.
          bind-Holds At
            (each (would_revoke F T st cfg) (to_revoke desired cfg.granted_flavor_access)) _
            (each-Holds At (λ e. Unit) (would_revoke F T st cfg) (λ e u w p. p) _
              (All-every (λ e. Unit) (λ e. tt) _))
            (λ revoked w p. p))

  pub clock-Holds : Holds R (clock F)
  unfolding clock
  clock-Holds c p = K.now-holds c p

  -- What depends on whether the run is dry.
  pub dry_run-Holds :
      {A : Type 0} (m k : Act (World C S) A)
      → Holds At m
      → Holds At k
      → Holds At (λ w. if w.ctx.dry_run then m w else k w)
  dry_run-Holds m k h g w p = if_at-Holds At w.ctx.dry_run (m w) (k w) (h w p) (g w p)

  -- Revoking one after the other of some tracked grants.
  pub revoke_each-Holds :
      {B : Type 0} (f : GrantedFlavorAccessEntry → Act (World C S) B)
      (gs : List GrantedFlavorAccessEntry)
      → ((g : GrantedFlavorAccessEntry) → IsTracked g → Holds At (f g))
      → All IsTracked gs
      → Holds At (each f gs)
  revoke_each-Holds f gs h a = each-Holds At IsTracked f h gs a
