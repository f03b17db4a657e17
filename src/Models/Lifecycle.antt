-- ===== src/Models/Lifecycle.antt =====
-- `ProjectConfig.effective_state` of src/models/project.py: a lifetime that has ended tightens
-- the configured state.
use openstack_tenantctl.Base.{ℕ, ◌≤◌, Option, none, some, arith, leb, if◌then◌else◌}
use openstack_tenantctl.Models.{
  ProjectState, present, locked, absent, LifetimeAction, lock, delete, LifetimeConfig,
}

-- `_STATE_ORDER`
unfoldable pub state_order : ProjectState → ℕ
state_order present = 0
state_order locked = 1
state_order absent = 2

unfoldable pub floor_of : LifetimeAction → ProjectState
floor_of lock = locked
floor_of delete = absent

tightened : ProjectState → ProjectState → ProjectState
unfolding state_order
tightened state floor = if leb (state_order floor) (state_order state) then state else floor

-- The method, on the two fields of the configuration that it reads.
unfoldable pub effective_state : ProjectState → Option LifetimeConfig → ℕ → ProjectState
unfolding floor_of tightened
effective_state state none now = state
effective_state state (some l) now =
    if leb now l.until then state else tightened state (floor_of l.action)

-- A lifetime never loosens the state, and as time goes on the state never loosens again.
pub effective_state_monotone :
    (state : ProjectState) (lifetime : Option LifetimeConfig) (now later : ℕ)
    → now ≤ later
    → (state_order state ≤ state_order (effective_state state lifetime now))
      × (state_order (effective_state state lifetime now)
          ≤ state_order (effective_state state lifetime later))
unfolding effective_state
effective_state_monotone state none now later h = omega arith
effective_state_monotone state (some l) now later h = ground arith
