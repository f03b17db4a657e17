-- ===== src/Context.antt =====
-- `SharedContext`, `Action` and `record`, `_is_retryable` and `retry`, and the resolution of a
-- project's external network, of src/utils.py. Log messages are not modelled. An f-string of an
-- action's details is the list of its parts.
pub mod Retry
pub mod Quiet
use openstack_tenantctl.Base.{
  ℕ, Bool, true, false, Option, none, some, List, [], ◌∷◌, ◌++◌, String, Result, ok, raised, Exc,
  Act, ◌==◌, string_eq, if◌then◌else◌,
}
use openstack_tenantctl.Base.Dict.{Dict}
use openstack_tenantctl.Base.Int.{ℤ}
use openstack_tenantctl.Cloud.{Flavor}
use openstack_tenantctl.Store.{Value}

pub data ActionStatus : Type 0 where
  created updated skipped failed deleted : ActionStatus

ActionStatus-discrete : Discrete ActionStatus
ActionStatus-discrete = hlevel

-- A text, or a number that is printed.
pub data Part : Type 0 where
  lit : String → Part
  int : ℤ → Part

abbrev pub Details : Type 0
Details = List Part

pub record Action : Type 0 where
  pub status : ActionStatus
  pub resource_type : String
  pub name : String
  pub details : Details
  pub project_id : String
  pub project_name : String

-- `online` is `conn is not None`, and `has_store` is `state_store is not None`.
pub record Context : Type 0 where
  pub online : Bool
  pub dry_run : Bool
  pub has_store : Bool
  pub external_net_id : String
  pub external_subnet_id : String
  pub external_network_map : Dict String String
  pub resolved_external_networks : Dict (String × String) (String × String)
  pub private_flavors : Option (List Flavor)
  pub static_mapping_rules : List Value
  pub current_mapping_rules : List Value
  pub mapping_exists : Bool
  pub actions : List Action
  pub failed_projects : List String
  pub current_project_id : String
  pub current_project_name : String

-- All that a run changes: the cloud, the state store and the shared context.
pub record World (C S : Type 0) : Type 0 where
  pub cloud : C
  pub store : S
  pub ctx : Context

module _ {C S : Type 0} where
  abbrev pub on_cloud : {A : Type 0} → Act C A → Act (World C S) A
  on_cloud m w = let (r, c) = m w.cloud in (r, record w { cloud = c })

  abbrev pub on_store : {A : Type 0} → Act S A → Act (World C S) A
  on_store m w = let (r, s) = m w.store in (r, record w { store = s })

  abbrev pub set_ctx : (Context → Context) → Act (World C S) (Unit {0})
  set_ctx f w = (ok tt, record w { ctx = f w.ctx })

  -- ctx.record(status, resource_type, name, details)
  unfoldable pub record_action : ActionStatus → String → String → Details → Act (World C S) Action
  record_action status resource_type name details w =
      let action : Action = record {
        status = status;
        resource_type = resource_type;
        name = name;
        details = details;
        project_id = w.ctx.current_project_id;
        project_name = w.ctx.current_project_name;
      } in
      (ok action, record w { ctx = record (w.ctx) { actions = w.ctx.actions ++ action ∷ [] } })
