-- ===== src/Reconciler/Isolation.antt =====
-- How far a failure of one project reaches.
use openstack_tenantctl.Base.{
  ℕ, Bool, true, false, Option, List, [], ◌∷◌, ◌++◌, ◌≡◌, refl, arith, String, length, is_ok,
  ok_witness, bind-is_ok, ok, raised, Exc, Act, each, each-returns, ◌>>=◌,
}
use openstack_tenantctl.Cloud.{Neutron, Tenacity}
use openstack_tenantctl.Models.{ProjectConfig, ProjectState}
use openstack_tenantctl.Models.Lifecycle.{effective_state}
use openstack_tenantctl.Store.{str, plain}
use openstack_tenantctl.Store.Interface.{StateStore}
use openstack_tenantctl.Scopes.{Scopes}
use openstack_tenantctl.Context.{Action, World}
use openstack_tenantctl.Teardown.{Inventory}
use openstack_tenantctl.Reconciler.{
  Handlers, isolated, note_lifetime, dispatch, persist_reconciled, after_dispatch,
  reconcile_project, keystone_phase, federation_phase, reconcile, state_text,
}

-- No save of a text under `metadata` raises, as in the in-memory store.
abbrev pub MetadataSaves : {S : Type 0} → StateStore S → Type 0
MetadataSaves {S} st =
    (state_key key text : String) (s : S)
    → is_ok (st.save state_key ("metadata" ∷ key ∷ []) (plain (str text)) s).0 ≡ true

module _ {C S : Type 0} (N : Neutron C) (T : Tenacity) (I : Inventory C) (st : StateStore S)
    (H : Handlers C S) where
  -- A body that raises counts as a failure of its name, and keeps what it did before.
  pub isolated_raised :
      (name : String) (body : Act (World C S) (Unit {0})) (w v : World C S) (e : Exc)
      → body w ≡ (raised e, v)
      → isolated N T I st H name body w ≡ (
        ok false,
        record v { ctx = record (v.ctx) { failed_projects = v.ctx.failed_projects ++ name ∷ [] } },
      )
  unfolding isolated
  isolated_raised name body w v e h = rw h

  isolated-is_ok :
      (name : String) (body : Act (World C S) (Unit {0})) (w : World C S)
      → is_ok (isolated N T I st H name body w).0 ≡ true
  unfolding isolated
  isolated-is_ok name body w = ground arith

  note_lifetime-is_ok :
      (cfg : ProjectConfig) (state : ProjectState) (w : World C S)
      → is_ok (note_lifetime N T I st H cfg state w).0 ≡ true
  unfolding note_lifetime
  note_lifetime-is_ok cfg state w = ground arith

  abbrev turn : Option Scopes → ProjectConfig → ProjectState → Act (World C S) Bool
  turn scopes cfg state = do
    done ← isolated N T I st H cfg.name (dispatch N T I st H scopes cfg state)
    after_dispatch N T I st H cfg state done

  module _ (saves : MetadataSaves st) where
    persist_reconciled-is_ok :
        (cfg : ProjectConfig) (state : ProjectState) (w : World C S)
        → is_ok (persist_reconciled N T I st H cfg state w).0 ≡ true
    unfolding persist_reconciled
    persist_reconciled-is_ok cfg state w =
        let text = (H.now_text w.cloud).0 in
        let key = cfg.state_key in
        let stamped =
          (st.save key ("metadata" ∷ "last_reconciled_at" ∷ []) (plain (str text)) w.store).1 in
        ground (
          arith,
          saves key "last_reconciled_at" text w.store,
          saves key "last_reconciled_state" (state_text state) stamped,
        )

    after_dispatch-is_ok :
        (cfg : ProjectConfig) (state : ProjectState) (done : Bool) (w : World C S)
        → is_ok (after_dispatch N T I st H cfg state done w).0 ≡ true
    unfolding after_dispatch
    after_dispatch-is_ok cfg state true w = ground (arith, persist_reconciled-is_ok cfg state w)
    after_dispatch-is_ok cfg state false w = refl

    reconcile_project-is_ok :
        (scopes : Option Scopes) (now : ℕ) (cfg : ProjectConfig) (w : World C S)
        → is_ok (reconcile_project N T I st H scopes now cfg w).0 ≡ true
    unfolding reconcile_project
    reconcile_project-is_ok scopes now cfg w =
        let state = effective_state cfg.state cfg.lifetime now in
        let named : World C S = record w {
          ctx = record (w.ctx) { current_project_name = cfg.name };
        } in
        bind-is_ok (note_lifetime N T I st H cfg state) (λ _. turn scopes cfg state) named
          (note_lifetime-is_ok cfg state named)
          λ _ v.
            bind-is_ok (isolated N T I st H cfg.name (dispatch N T I st H scopes cfg state))
              (after_dispatch N T I st H cfg state) v
              (isolated-is_ok cfg.name (dispatch N T I st H scopes cfg state) v)
              (after_dispatch-is_ok cfg state)

    loop-is_ok :
        (scopes : Option Scopes) (now : ℕ) (projects : List ProjectConfig) (w : World C S)
        → (bs : List Bool) × (v : World C S) × (each
              (reconcile_project N T I st H scopes now)
              projects
              w
            ≡ (ok bs, v))
          × (length bs ≡ length projects)
    loop-is_ok scopes now projects w =
        each-returns (reconcile_project N T I st H scopes now)
          (λ cfg v.
            ok_witness (reconcile_project N T I st H scopes now cfg v)
              (reconcile_project-is_ok scopes now cfg v))
          projects w

    keystone_phase-is_ok :
        (scopes : Option Scopes) (all_projects : List ProjectConfig) (w : World C S)
        → is_ok (keystone_phase N T I st H scopes all_projects w).0 ≡ true
    unfolding keystone_phase
    keystone_phase-is_ok scopes all_projects w = ground (
      arith,
      isolated-is_ok "__keystone_groups__" (H.ensure_keystone_groups all_projects)
          (record w { ctx = record (w.ctx) { current_project_name = "__keystone_groups__" } }),
    )

    federation_phase-is_ok :
        (scopes : Option Scopes) (all_projects : List ProjectConfig) (w : World C S)
        → is_ok (federation_phase N T I st H scopes all_projects w).0 ≡ true
    unfolding federation_phase
    federation_phase-is_ok scopes all_projects w = ground (
      arith,
      isolated-is_ok "__federation__" (H.ensure_federation_mapping all_projects) (record w {
        ctx = record (w.ctx) { current_project_id = ""; current_project_name = "" };
      }),
    )

    -- A run whose saves of metadata do not raise always returns, with an outcome for every
    -- project, whatever the handlers of a project, of the groups or of the federation raise.
    pub reconcile_isolates :
        (scopes : Option Scopes) (projects all_projects : List ProjectConfig) (w : World C S)
        → (actions : List Action) × (outcomes : List Bool) × (v : World C S) × (reconcile N T I st H
              scopes projects all_projects w
            ≡ (ok (actions, outcomes), v))
          × (length outcomes ≡ length projects)
    unfolding reconcile
    reconcile_isolates scopes projects all_projects w =
        let (u0, v0, e0) =
          ok_witness (keystone_phase N T I st H scopes all_projects w)
            (keystone_phase-is_ok scopes all_projects w) in
        let (now, c) = H.now v0.cloud in
        let v1 : World C S = record v0 { cloud = c } in
        let (outcomes, v2, e2, n) = loop-is_ok scopes now projects v1 in
        let (u3, v3, e3) =
          ok_witness (federation_phase N T I st H scopes all_projects v2)
            (federation_phase-is_ok scopes all_projects v2) in
        (v3.ctx.actions, outcomes, v3, rw (e0, e2, e3), n)

  -- The metadata of a project is saved outside the `try`: an exception there ends the loop, and no
  -- later project is reconciled.
  pub save_failure_ends_loop :
      (scopes : Option Scopes) (now : ℕ) (cfg : ProjectConfig) (rest : List ProjectConfig)
      (w v0 v1 v2 : World C S) (e : Exc)
      → note_lifetime N T I st H cfg
          (effective_state cfg.state cfg.lifetime now)
          (record w { ctx = record (w.ctx) { current_project_name = cfg.name } })
        ≡ (ok tt, v0)
      → dispatch N T I st H scopes cfg (effective_state cfg.state cfg.lifetime now) v0 ≡ (ok tt, v1)
      → persist_reconciled N T I st H cfg (effective_state cfg.state cfg.lifetime now) v1
        ≡ (raised e, v2)
      → each (reconcile_project N T I st H scopes now) (cfg ∷ rest) w ≡ (raised e, v2)
  unfolding reconcile_project isolated after_dispatch each
  save_failure_ends_loop scopes now cfg rest w v0 v1 v2 e h k p = rw (h, k, p) refl
