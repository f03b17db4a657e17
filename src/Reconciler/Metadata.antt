-- ===== src/Reconciler/Metadata.antt =====
-- The state that a run writes down for the next one, and the decision to unshelve.
use openstack_tenantctl.Base.{
  Bool, true, false, ◌&&◌, not, Option, some, [], ◌∷◌, ◌≡◌, refl, ap, arith, String, string_eq, ok,
  Bool-cases, inl, inr,
}
use openstack_tenantctl.Cloud.{Neutron, Tenacity}
use openstack_tenantctl.Models.{ProjectConfig, ProjectState, present, locked, absent}
use openstack_tenantctl.Store.{str, Fields, get, set_path, serialize_value, plain}
use openstack_tenantctl.Store.Path.{get-put_self}
use openstack_tenantctl.Store.Interface.{StateStore, IsLawful}
use openstack_tenantctl.Context.{World}
use openstack_tenantctl.ExternalNetwork.{is_empty}
use openstack_tenantctl.Teardown.{Inventory}
use openstack_tenantctl.Reconciler.{
  Handlers, state_text, field_of, is_locked, keeps_state, from_previous, should_unshelve,
  save_metadata, persist_reconciled,
}

-- Whether the state is `locked`.
abbrev pub was_locked : ProjectState → Bool
was_locked locked = true
was_locked _ = false

-- The metadata that is read back after a write of the last state.
field_of-set_path :
    (text : String) (d : Fields)
    → field_of (get "metadata" (set_path "metadata" ("last_reconciled_state" ∷ []) (str text) d))
      ≡ ok (some (str text))
unfolding field_of set_path
field_of-set_path text d = rw (get-put_self, field_of) (rw get-put_self)

module _ {C S : Type 0} (N : Neutron C) (T : Tenacity) (I : Inventory C) (st : StateStore S)
    (H : Handlers C S) {Sound : S → Type 0} (L : IsLawful st Sound) where
  persist_reconciled-loads :
      (cfg : ProjectConfig) (state : ProjectState) (w v : World C S)
      → Sound w.store
      → keeps_state cfg w.ctx ≡ true
      → persist_reconciled N T I st H cfg state w ≡ (ok tt, v)
      → (d : Fields) × (st.load cfg.state_key v.store
          ≡ set_path "metadata" ("last_reconciled_state" ∷ []) (str (state_text state)) d)
        × (v.ctx ≡ w.ctx)
  unfolding persist_reconciled save_metadata serialize_value
  persist_reconciled-loads cfg state w v sound on h =
      let text = (H.now_text w.cloud).0 in
      let key = cfg.state_key in
      let at = ("metadata" ∷ "last_reconciled_at" ∷ []) in
      let s = (st.save key at (plain (str text)) w.store).1 in
      let s-sound =
        L.save-Sound key "metadata" ("last_reconciled_at" ∷ []) (plain (str text)) (str text)
          w.store sound refl in
      let s' =
        (st.save key ("metadata" ∷ "last_reconciled_state" ∷ []) (plain (str (state_text state)))
          s).1 in
      let loads =
        L.load-save key key "metadata" ("last_reconciled_state" ∷ [])
          (plain (str (state_text state))) (str (state_text state)) s s-sound refl in
      let r1 =
        L.save-returns key "metadata" ("last_reconciled_at" ∷ []) (plain (str text)) (str text)
          w.store sound refl in
      let r2 =
        L.save-returns key "metadata" ("last_reconciled_state" ∷ [])
          (plain (str (state_text state))) (str (state_text state)) s s-sound refl in
      (st.load key s, ground (arith, loads, r1, r2), ground (arith, r1, r2))

  persist_reconciled-ok :
      (cfg : ProjectConfig) (state : ProjectState) (w : World C S)
      → Sound w.store
      → (persist_reconciled N T I st H cfg state w).0 ≡ ok tt
  unfolding persist_reconciled save_metadata serialize_value
  persist_reconciled-ok cfg state w sound =
      let text = (H.now_text w.cloud).0 in
      let key = cfg.state_key in
      let s = (st.save key ("metadata" ∷ "last_reconciled_at" ∷ []) (plain (str text)) w.store).1 in
      let s-sound =
        L.save-Sound key "metadata" ("last_reconciled_at" ∷ []) (plain (str text)) (str text)
          w.store sound refl in
      let r1 =
        L.save-returns key "metadata" ("last_reconciled_at" ∷ []) (plain (str text)) (str text)
          w.store sound refl in
      let r2 =
        L.save-returns key "metadata" ("last_reconciled_state" ∷ [])
          (plain (str (state_text state))) (str (state_text state)) s s-sound refl in
      ground (arith, r1, r2)

  is_locked-state_text :
      (state : ProjectState) → is_locked (str (state_text state)) ≡ was_locked state
  unfolding is_locked state_text string_eq
  is_locked-state_text present = refl
  is_locked-state_text locked = refl
  is_locked-state_text absent = refl

  has_state :
      (cfg : ProjectConfig) (w : World C S)
      → keeps_state cfg w.ctx ≡ true
      → (w.ctx.has_store && not (is_empty cfg.state_key)) ≡ true
  unfolding keeps_state
  has_state cfg w on = ground arith

  should_unshelve-loads :
      (cfg : ProjectConfig) (state : ProjectState) (was_disabled : Option Bool) (v : World C S)
      (d : Fields)
      → (v.ctx.has_store && not (is_empty cfg.state_key)) ≡ true
      → st.load cfg.state_key v.store
        ≡ set_path "metadata" ("last_reconciled_state" ∷ []) (str (state_text state)) d
      → should_unshelve {C = C} st cfg was_disabled v ≡ (ok (cfg.enabled && was_locked state), v)
  unfolding should_unshelve from_previous
  should_unshelve-loads cfg state was_disabled v d kept loads = elim (Bool-cases cfg.enabled) [
    | inl enabled ↦ rw (enabled, kept, loads, field_of-set_path, is_locked-state_text) refl
    | inr disabled ↦ rw disabled refl
  ]

  -- In a store that keeps what is saved, a live run that keeps a state for a project can write down the
  -- state it reconciled. The next run then decides to unshelve the project's servers exactly if its
  -- configuration is enabled and that state was `locked`, whatever Keystone says of it.
  pub should_unshelve-persist_reconciled :
      (cfg : ProjectConfig) (state : ProjectState) (was_disabled : Option Bool) (w : World C S)
      → Sound w.store
      → keeps_state cfg w.ctx ≡ true
      → (v : World C S) × (persist_reconciled N T I st H cfg state w ≡ (ok tt, v))
        × (should_unshelve st cfg was_disabled v ≡ (ok (cfg.enabled && was_locked state), v))
  should_unshelve-persist_reconciled cfg state was_disabled w sound on =
      let v = (persist_reconciled N T I st H cfg state w).1 in
      let h : persist_reconciled N T I st H cfg state w ≡ (ok tt, v) =
        ap (λ r. (r, v)) (persist_reconciled-ok cfg state w sound) in
      let (d, loads, same) = persist_reconciled-loads cfg state w v sound on h in
      let kept : (v.ctx.has_store && not (is_empty cfg.state_key)) ≡ true =
        rw same (has_state cfg w on) in
      (v, h, should_unshelve-loads cfg state was_disabled v d kept loads)
