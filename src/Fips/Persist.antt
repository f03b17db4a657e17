-- ===== src/Fips/Persist.antt =====
-- What is written to the state store: `_persist_fips`, `_persist_fip_tracking_snapshot`,
-- `_persist_released_fips` and `_reconcile_released_fips`.
use openstack_tenantctl.Base.{
  List, [], ◌∷◌, String, ◌==◌, if◌then◌else◌, ok, dry_run_unsupported, Act, pure, raise, ◌>>=◌,
}
use openstack_tenantctl.Base.Int.{ℤ}
use openstack_tenantctl.Cloud.{Neutron}
use openstack_tenantctl.Models.{
  ProjectConfig, FipEntry, ReleasedFipEntry, fip_to_dict, released_to_dict, dict_list,
  released_list_eq,
}
use openstack_tenantctl.Store.{str, num, mapping, end, field, PyValue, plain}
use openstack_tenantctl.Store.Interface.{StateStore}
use openstack_tenantctl.Context.{World, on_cloud, on_store}
use openstack_tenantctl.Fips.{all_released}

module _ {C S : Type 0} (st : StateStore S) where
  -- `ctx.state_store.save(...)`, after the check that there is a store.
  abbrev pub save_or_raise : ProjectConfig → String → PyValue → Act (World C S) (Unit {0})
  save_or_raise cfg key value w =
      if w.ctx.has_store
      then on_store (st.save cfg.state_key (key ∷ []) value) w
      else raise (dry_run_unsupported "state_store is None") w

  unfoldable pub persist_fips : ProjectConfig → List FipEntry → Act (World C S) (Unit {0})
  unfolding dict_list fip_to_dict
  persist_fips cfg fips = save_or_raise cfg "preallocated_fips" (plain (dict_list fip_to_dict fips))

  unfoldable pub persist_released_fips :
      ProjectConfig → List ReleasedFipEntry → Act (World C S) (Unit {0})
  unfolding dict_list released_to_dict
  persist_released_fips cfg released =
      save_or_raise cfg "released_fips" (plain (dict_list released_to_dict released))

  unfoldable pub persist_fip_tracking_snapshot :
      Neutron C → ProjectConfig → ℤ → ℤ → Act (World C S) (Unit {0})
  persist_fip_tracking_snapshot N cfg quota allocated w =
      if w.ctx.has_store
      then (do
        timestamp ← on_cloud (λ c. let (t, c') = N.now c in (ok t, c'))
        on_store (
            st.save cfg.state_key ("fip_tracking_snapshot" ∷ []) (
              plain (
                mapping (
                  field "timestamp" (str timestamp)
                    (field "quota" (num quota) (field "allocated" (num allocated) end)))))))
          w
      else raise (dry_run_unsupported "state_store is None") w

  unfoldable pub reconcile_released_fips :
      ProjectConfig → List FipEntry → List ReleasedFipEntry → Act (World C S) (Unit {0})
  unfolding all_released persist_released_fips
  reconcile_released_fips cfg active_fips newly_released =
      let released = all_released active_fips cfg.released_fips newly_released in
      if released == cfg.released_fips then pure tt else persist_released_fips cfg released
