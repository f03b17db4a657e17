-- ===== src/Tests/Reconciler.antt =====
-- Runs over the projects of a small cloud.
use openstack_tenantctl.Base.{
  Bool, true, false, none, some, List, [], ◌∷◌, ◌≡◌, refl, arith, string_eq, length, ok, raised,
  other, safety_check_failed, each,
}
use openstack_tenantctl.Models.{ProjectConfig, present, locked, absent}
use openstack_tenantctl.Models.Lifecycle.{effective_state}
use openstack_tenantctl.Store.{serialize_value, end}
use openstack_tenantctl.Store.Interface.{StateStore}
use openstack_tenantctl.Store.Memory
use openstack_tenantctl.Store.Memory.{Memory, memory_store, memory_store-IsLawful}
use openstack_tenantctl.Context.{Action, World}
use openstack_tenantctl.Reconciler.{
  Handlers, reconcile, reconcile_project, note_lifetime, dispatch, reconcile_absent, keeps_state,
  persist_reconciled, should_unshelve,
}
use openstack_tenantctl.Reconciler.Isolation.{reconcile_isolates, save_failure_ends_loop}
use openstack_tenantctl.Reconciler.Blocked.{reconcile_absent_blocked}
use openstack_tenantctl.Teardown.{Inventory}
use openstack_tenantctl.Context.Retry.{retried}
use openstack_tenantctl.Reconciler.Metadata.{should_unshelve-persist_reconciled}
use openstack_tenantctl.Samples.{
  simple_retry, SampleCloud, sample_neutron, sample_inventory, sample_handlers, sample_project,
  sample_world,
}

abbrev projects : List ProjectConfig
projects = sample_project "broken" present ∷ sample_project "dev" locked ∷ []

reconcile_isolates_example :
    (actions : List Action) × (outcomes : List Bool) × (v : World SampleCloud Memory) × (reconcile
        sample_neutron simple_retry sample_inventory memory_store sample_handlers none projects
        projects sample_world
      ≡ (ok (actions, outcomes), v))
    × (length outcomes ≡ length projects)
unfolding memory_store Memory.save serialize_value
reconcile_isolates_example =
    reconcile_isolates sample_neutron simple_retry sample_inventory memory_store sample_handlers
      (λ state_key key text s. refl) none projects projects sample_world

should_unshelve-persist_reconciled_example :
    (v : World SampleCloud Memory) × (persist_reconciled sample_neutron simple_retry
        sample_inventory memory_store sample_handlers
        (sample_project "dev" locked)
        locked
        sample_world
      ≡ (ok tt, v))
    × (should_unshelve memory_store (sample_project "dev" locked) (some false) v ≡ (ok true, v))
unfolding keeps_state string_eq
should_unshelve-persist_reconciled_example =
    should_unshelve-persist_reconciled sample_neutron simple_retry sample_inventory memory_store
      sample_handlers memory_store-IsLawful (sample_project "dev" locked) locked (some false)
      sample_world tt refl

-- A project with a server in it.
abbrev occupied : Inventory SampleCloud
occupied = record sample_inventory {
  servers = λ project_id c. (ok (record { id = "s"; name = ""; address = "" } ∷ []), c);
}

reconcile_absent_blocked_example :
    ((reconcile_absent sample_neutron simple_retry occupied memory_store sample_handlers
        (sample_project "dev" absent)
        sample_world).0
      ≡ raised (safety_check_failed "dev"))
    × ((reconcile_absent sample_neutron simple_retry occupied memory_store sample_handlers
          (sample_project "dev" absent)
          sample_world).1.cloud
        ≡ sample_world.cloud)
    × ((reconcile_absent sample_neutron simple_retry occupied memory_store sample_handlers
          (sample_project "dev" absent)
          sample_world).1.store
        ≡ [])
unfolding retried simple_retry
reconcile_absent_blocked_example =
    reconcile_absent_blocked sample_neutron simple_retry occupied memory_store sample_handlers
      (sample_project "dev" absent) "p1" sample_world sample_world refl refl refl
      (λ clear. ground arith)

-- A store whose lock is never had.
abbrev stuck_store : StateStore Memory
stuck_store = record {
  load = λ state_key s. end;
  save = λ state_key key_path value s. (raised (other "Timeout"), s);
}

abbrev absent_handlers : Handlers SampleCloud Memory
absent_handlers = record sample_handlers { find_existing_project = λ cfg w. (ok none, w) }

abbrev named_world : World SampleCloud Memory
named_world = record sample_world {
  ctx = record (sample_world.ctx) { current_project_name = "dev" };
}

abbrev dispatched : World SampleCloud Memory
dispatched =
    (dispatch sample_neutron simple_retry sample_inventory stuck_store absent_handlers none
      (sample_project "dev" absent) absent named_world).1

save_failure_ends_loop_example :
    each
      (reconcile_project sample_neutron simple_retry sample_inventory stuck_store absent_handlers
        none 5)
      (sample_project "dev" absent ∷ sample_project "prod" present ∷ [])
      sample_world
    ≡ (raised (other "Timeout"), dispatched)
unfolding dispatch note_lifetime persist_reconciled keeps_state string_eq effective_state
save_failure_ends_loop_example =
    save_failure_ends_loop sample_neutron simple_retry sample_inventory stuck_store absent_handlers
      none 5 (sample_project "dev" absent) (sample_project "prod" present ∷ []) sample_world
      named_world dispatched dispatched (other "Timeout") refl refl refl
