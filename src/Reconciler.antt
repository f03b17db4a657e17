-- ===== src/Reconciler.antt =====
-- The orchestration of a run: src/reconciler.py. The external network, the floating IPs, the servers
-- and the teardown are called as they are; the other handlers are the fields of `Handlers`, which
-- Reconciler/Assembly fills.
pub mod Isolation
pub mod Metadata
pub mod Blocked
pub mod Assembly
use openstack_tenantctl.Base.{
  ℕ, zero, suc, Bool, true, false, ◌&&◌, ◌||◌, not, Option, none, some, List, [], ◌∷◌, ◌++◌, String,
  ◌==◌, contains, string_eq, if◌then◌else◌, Result, ok, raised, Exc, safety_check_failed, other,
  Act, pure, raise, catch, gets, each, ◌>>=◌, ◌>>◌,
}
use openstack_tenantctl.Base.Int.{pos}
use openstack_tenantctl.Cloud.{Neutron, Tenacity}
use openstack_tenantctl.Models.{
  ProjectConfig, ProjectState, present, locked, absent, LifetimeConfig,
}
use openstack_tenantctl.Models.Lifecycle.{effective_state}
use openstack_tenantctl.Store.{Value, null, str, mapping, Fields, get, plain}
use openstack_tenantctl.Store.Interface.{StateStore}
use openstack_tenantctl.Scopes.{
  Scope, Scopes, roles, network, fips, prealloc_network, quotas, security_groups, reservations,
  keystone_groups, federation, scope_eq,
}
use openstack_tenantctl.Context.{
  Context, Action, Details, lit, int, updated, skipped, deleted, failed, World, on_cloud, on_store,
  set_ctx, record_action,
}
use openstack_tenantctl.ExternalNetwork.{is_empty, resolve_project_external_network}
use openstack_tenantctl.Fips.Ensure.{ensure_preallocated_fips}
use openstack_tenantctl.Compute.{Compute, shelve_all_servers, unshelve_all_servers}
use openstack_tenantctl.Teardown.{Inventory, teardown_project}
use openstack_tenantctl.Teardown.Safety.{Blocker, safety_check}

-- The handlers of the other components that a run calls, whatever they are. With them stand the calls
-- of the compute service, and the clock as an instant and as a text.
-- `ensure_group_roles` and `revoke_group_roles` include the federation's own assignments.
pub record Handlers (C S : Type 0) : Type 0 where
  pub ensure_project : ProjectConfig → Act (World C S) (String × Option Bool)
  pub find_existing_project : ProjectConfig → Act (World C S) (Option String)
  pub ensure_group_roles : ProjectConfig → String → Act (World C S) (Unit {0})
  pub revoke_group_roles : ProjectConfig → String → Act (World C S) (Unit {0})
  pub ensure_network_stack : ProjectConfig → String → Act (World C S) (Unit {0})
  pub track_router_ips : ProjectConfig → String → Act (World C S) (Unit {0})
  pub ensure_preallocated_network : ProjectConfig → String → Act (World C S) (Unit {0})
  pub ensure_quotas : ProjectConfig → String → Act (World C S) (Unit {0})
  pub ensure_baseline_sg : ProjectConfig → String → Act (World C S) (Unit {0})
  pub ensure_reservations : ProjectConfig → String → Act (World C S) (Unit {0})
  pub revoke_all_reservation_grants : ProjectConfig → String → Act (World C S) (Unit {0})
  pub compute : Compute C
  pub ensure_keystone_groups : List ProjectConfig → Act (World C S) (Unit {0})
  pub ensure_federation_mapping : List ProjectConfig → Act (World C S) (Unit {0})
  pub now : C → ℕ × C
  pub now_text : C → String × C

-- `str(state)`
unfoldable pub state_text : ProjectState → String
state_text present = "present"
state_text locked = "locked"
state_text absent = "absent"

-- data.get("metadata", {}).get("last_reconciled_state"), where null is None.
unfoldable pub field_of : Option Value → Result (Option Value)
unfolding get
field_of none = ok none
field_of (some (mapping d)) = elim (get "last_reconciled_state" d) [
  | none ↦ ok none
  | some v ↦ elim v [ null ↦ ok none | other_value ↦ ok (some other_value) ]
]
field_of (some v) = raised (other "AttributeError")

-- Whether a state that was read is "locked".
unfoldable pub is_locked : Value → Bool
is_locked (str s) = s == "locked"
is_locked _ = false

in_scope : Option Scopes → Scope → Bool
in_scope none scope = true
in_scope (some scopes) scope = contains scopes scope

abbrev when : {W : Type 0} → Bool → Act W (Unit {0}) → Act W (Unit {0})
when true m = m
when false m = pure tt

-- Whether the run keeps a state for the project.
unfoldable pub keeps_state : ProjectConfig → Context → Bool
unfolding is_empty
keeps_state cfg ctx = not ctx.dry_run && ctx.has_store && not (is_empty cfg.state_key)

-- The state that the store has, or else whether the project was disabled before.
unfoldable pub from_previous : Option Bool → Option Value → Bool
unfolding is_locked
from_previous was_disabled (some v) = is_locked v
from_previous none none = false
from_previous (some b) none = b

module _ {C S : Type 0} (st : StateStore S) where
  save_metadata : ProjectConfig → String → String → Act (World C S) (Unit {0})
  save_metadata cfg key text =
      on_store (st.save cfg.state_key ("metadata" ∷ key ∷ []) (plain (str text)))

  unfoldable pub persist_project_metadata : ProjectConfig → String → Act (World C S) (Unit {0})
  unfolding keeps_state save_metadata
  persist_project_metadata cfg project_id w =
      when (keeps_state cfg w.ctx)
        (do save_metadata cfg "project_id" project_id; save_metadata cfg "domain_id" cfg.domain_id)
        w

  unfoldable pub should_unshelve : ProjectConfig → Option Bool → Act (World C S) Bool
  unfolding from_previous field_of is_empty
  should_unshelve cfg was_disabled w =
      if not cfg.enabled
      then (ok false, w)
      else if w.ctx.has_store && not (is_empty cfg.state_key)
      then (do
        previous ← (λ v. (field_of (get "metadata" (st.load cfg.state_key v.store)), v))
        pure (from_previous was_disabled previous))
          w
      else (ok (from_previous was_disabled none), w)

-- bool(cfg.network)
has_network : ProjectConfig → Bool
has_network cfg = elim cfg.network [ none ↦ false | some n ↦ true ]

module _ {C S : Type 0} (N : Neutron C) (T : Tenacity) (I : Inventory C) (st : StateStore S)
    (H : Handlers C S) where
  set_project_id : String → Act (World C S) (Unit {0})
  set_project_id project_id = set_ctx λ ctx. record ctx { current_project_id = project_id }

  preflight_present : ProjectConfig → Act (World C S) (Unit {0})
  unfolding resolve_project_external_network has_network
  preflight_present cfg w =
      when (has_network cfg && w.ctx.online && not w.ctx.dry_run)
        (do resolve_project_external_network N T cfg; pure tt) w

  unfoldable pub reconcile_present : Option Scopes → ProjectConfig → Act (World C S) (Unit {0})
  unfolding preflight_present set_project_id persist_project_metadata should_unshelve
      ensure_preallocated_fips in_scope unshelve_all_servers
  reconcile_present scopes cfg = do
    preflight_present cfg
    project ← H.ensure_project cfg
    let project_id = project.0
    set_project_id project_id
    persist_project_metadata st cfg project_id
    unshelve ← elim scopes [ none ↦ should_unshelve st cfg project.1 | some s ↦ pure false ]
    when (in_scope scopes roles) (H.ensure_group_roles cfg project_id)
    when (in_scope scopes network)
        (do H.ensure_network_stack cfg project_id; H.track_router_ips cfg project_id)
    when (in_scope scopes fips) (do ensure_preallocated_fips N T st cfg project_id; pure tt)
    when (in_scope scopes prealloc_network) (H.ensure_preallocated_network cfg project_id)
    when (in_scope scopes quotas) (H.ensure_quotas cfg project_id)
    when (in_scope scopes security_groups) (H.ensure_baseline_sg cfg project_id)
    when (in_scope scopes reservations) (H.ensure_reservations cfg project_id)
    when unshelve (do unshelve_all_servers H.compute T project_id; pure tt)

  note : {A : Type 0} → Act (World C S) A → Act (World C S) (Unit {0})
  note m = do m; pure tt

  unfoldable pub reconcile_locked : ProjectConfig → Act (World C S) (Unit {0})
  unfolding set_project_id persist_project_metadata note shelve_all_servers
  reconcile_locked cfg = do
    project ← H.ensure_project (record cfg { enabled = false })
    set_project_id project.0
    persist_project_metadata st cfg project.0
    note (shelve_all_servers H.compute T project.0)

  -- With blockers nothing is deleted: a dry run reports them, a live run raises.
  unfoldable pub tear_down : ProjectConfig → String → List Blocker → Act (World C S) (Unit {0})
  unfolding note record_action teardown_project
  tear_down cfg project_id (b ∷ blockers) w =
      if w.ctx.dry_run
      then note (record_action failed "teardown" cfg.name (lit "safety check would block" ∷ [])) w
      else raise (safety_check_failed cfg.name) w
  tear_down cfg project_id [] w =
      if w.ctx.dry_run
      then (do
        H.revoke_all_reservation_grants cfg project_id
        note (
            record_action deleted "teardown" cfg.name
              (lit "would tear down project (id=" ∷ lit project_id ∷ lit ")" ∷ [])))
          w
      else (do
        H.revoke_all_reservation_grants cfg project_id
        H.revoke_group_roles cfg project_id
        teardown_project I T cfg project_id
        pure tt)
          w

  tear_down_found : ProjectConfig → Option String → Act (World C S) (Unit {0})
  unfolding note record_action set_project_id safety_check tear_down
  tear_down_found cfg none =
      note (record_action skipped "project" cfg.name (lit "already absent" ∷ []))
  tear_down_found cfg (some project_id) = do
    set_project_id project_id
    blockers ← on_cloud (safety_check I T project_id)
    tear_down cfg project_id blockers

  unfoldable pub reconcile_absent : ProjectConfig → Act (World C S) (Unit {0})
  unfolding note record_action tear_down_found
  reconcile_absent cfg w =
      if not w.ctx.online
      then note
          (record_action skipped "teardown" cfg.name (lit "would tear down project (offline)" ∷ []))
          w
      else (do found ← H.find_existing_project cfg; tear_down_found cfg found) w

  -- The state handler of the effective state.
  unfoldable pub dispatch :
      Option Scopes → ProjectConfig → ProjectState → Act (World C S) (Unit {0})
  unfolding reconcile_present reconcile_locked reconcile_absent
  dispatch scopes cfg present = reconcile_present scopes cfg
  dispatch scopes cfg locked = reconcile_locked cfg
  dispatch scopes cfg absent = reconcile_absent cfg

  fail : String → Exc → Act (World C S) Bool
  fail name e = do
    set_ctx (λ ctx. record ctx { failed_projects = ctx.failed_projects ++ name ∷ [] })
    pure false

  -- `try: body` with `except Exception: ctx.failed_projects.append(name)`. Tells if it succeeded.
  unfoldable pub isolated : String → Act (World C S) (Unit {0}) → Act (World C S) Bool
  unfolding fail
  isolated name body = catch (do body; pure true) (fail name)

  -- What a lifetime adds to the record of the run. The deadline is printed as its number.
  unfoldable pub note_lifetime : ProjectConfig → ProjectState → Act (World C S) (Unit {0})
  unfolding note record_action state_text
  note_lifetime cfg state w = elim cfg.lifetime [
    | none ↦ (ok tt, w)
    | some l ↦
        if not (state_text state == state_text cfg.state)
        then note
            (record_action updated "lifetime" cfg.name (
              lit "deadline "
              ∷ int (pos l.until)
              ∷ lit " passed — effective state '"
              ∷ lit (state_text state)
              ∷ lit "' (configured '"
              ∷ lit (state_text cfg.state)
              ∷ lit "')"
              ∷ []))
            w
        else when w.ctx.dry_run
            (note (
              record_action skipped "lifetime" cfg.name (
                lit "deadline "
                ∷ int (pos l.until)
                ∷ lit " — effective state '"
                ∷ lit (state_text state)
                ∷ lit "'"
                ∷ [])))
            w
  ]

  -- The metadata of a project that was reconciled. It stands outside the `try`.
  unfoldable pub persist_reconciled : ProjectConfig → ProjectState → Act (World C S) (Unit {0})
  unfolding keeps_state save_metadata state_text
  persist_reconciled cfg state w =
      when (keeps_state cfg w.ctx)
        (do
          at ← on_cloud (λ c. let (t, c') = H.now_text c in (ok t, c'))
          save_metadata st cfg "last_reconciled_at" at
          save_metadata st cfg "last_reconciled_state" (state_text state))
        w

  after_dispatch : ProjectConfig → ProjectState → Bool → Act (World C S) Bool
  unfolding persist_reconciled
  after_dispatch cfg state false = pure false
  after_dispatch cfg state true = do persist_reconciled cfg state; pure true

  -- One turn of the loop over the projects.
  unfoldable pub reconcile_project : Option Scopes → ℕ → ProjectConfig → Act (World C S) Bool
  unfolding effective_state note_lifetime isolated dispatch after_dispatch
  reconcile_project scopes now cfg =
      let state = effective_state cfg.state cfg.lifetime now in
      do
        set_ctx (λ ctx. record ctx { current_project_name = cfg.name })
        note_lifetime cfg state
        done ← isolated cfg.name (dispatch scopes cfg state)
        after_dispatch cfg state done

  unfoldable pub keystone_phase : Option Scopes → List ProjectConfig → Act (World C S) (Unit {0})
  unfolding in_scope
  keystone_phase scopes all_projects = when (in_scope scopes keystone_groups) (do
    set_ctx (λ ctx. record ctx { current_project_name = "__keystone_groups__" })
    isolated "__keystone_groups__" (H.ensure_keystone_groups all_projects)
    pure tt)

  unfoldable pub federation_phase : Option Scopes → List ProjectConfig → Act (World C S) (Unit {0})
  unfolding in_scope
  federation_phase scopes all_projects = when (in_scope scopes federation) (do
    set_ctx (λ ctx. record ctx { current_project_id = ""; current_project_name = "" })
    isolated "__federation__" (H.ensure_federation_mapping all_projects)
    pure tt)

  -- Returns the actions, and for each project whether it was reconciled.
  unfoldable pub reconcile :
      Option Scopes
      → List ProjectConfig
      → List ProjectConfig
      → Act (World C S) (List Action × List Bool)
  reconcile scopes projects all_projects = do
    keystone_phase scopes all_projects
    now ← on_cloud (λ c. let (t, c') = H.now c in (ok t, c'))
    reconciled ← each (reconcile_project scopes now) projects
    federation_phase scopes all_projects
    actions ← gets (λ w. w.ctx.actions)
    pure (actions, reconciled)
