-- ===== src/Teardown.antt =====
-- Teardown of an absent project: src/resources/teardown.py. The listing and deleting calls of the
-- SDK are a parameter. Each of them is one of the decorated functions of the file.
pub mod Safety
pub mod Outcome
pub mod Endings
pub mod Keeping
pub mod Clearing
pub mod Gone
use openstack_tenantctl.Base.{
  ℕ, zero, suc, Bool, true, false, ◌&&◌, ◌||◌, not, Option, none, some, List, [], ◌∷◌, ◌++◌, map,
  String, ◌==◌, string_eq, if◌then◌else◌, length, keep, ◌<>◌, Result, ok, raised, Exc, not_found,
  resource_not_found, endpoint_not_found, teardown_failed, Act, pure, raise, catch, gets, each,
  ◌>>=◌, ◌>>◌,
}
use mathlib.Core.List.{flatten}
use openstack_tenantctl.Base.Int.{ℤ, pos}
use openstack_tenantctl.Cloud.{Tenacity}
use openstack_tenantctl.Models.{ProjectConfig}
use openstack_tenantctl.Context.{
  Action, Details, lit, int, deleted, failed, skipped, World, on_cloud, record_action,
}
use openstack_tenantctl.Context.Retry.{retried}

-- The resource types of `_TEARDOWN_STEPS`.
pub data Kind : Type 0 where
  floating_ip snapshot router subnet network security_group : Kind

Kind-discrete : Discrete Kind
Kind-discrete = hlevel

-- A listed resource; an attribute that is missing is "". The address is that of a floating IP.
pub record Resource : Type 0 where
  pub id : String
  pub name : String
  pub address : String

-- A port of a router, with the subnets of its fixed IPs ("" where one has none).
pub record Port : Type 0 where
  pub is_router_interface : Bool
  pub subnets : List String

pub record Inventory (C : Type 0) : Type 0 where
  pub servers : String → Act C (List Resource)
  pub volumes : String → Act C (List Resource)
  pub resources : Kind → String → Act C (List Resource)
  pub delete : Kind → String → Act C (Unit {0})
  pub ports : String → Act C (List Port)
  pub remove_interface : String → String → Act C (Unit {0})
  pub clear_gateway : String → Act C (Unit {0})
  pub delete_project : String → Act C (Unit {0})

unfoldable pub type_name : Kind → String
type_name floating_ip = "floating_ip"
type_name snapshot = "snapshot"
type_name router = "router"
type_name subnet = "subnet"
type_name network = "network"
type_name security_group = "security_group"

-- The table, in dependency-safe reverse order.
abbrev pub teardown_steps : List Kind
teardown_steps = floating_ip ∷ snapshot ∷ router ∷ subnet ∷ network ∷ security_group ∷ []

-- `a or b`
or_else : String → String → String
or_else a b = if a == "" then b else a

-- `label_func` and `skip_func` of the steps.
unfoldable pub label : Kind → Resource → String
unfolding or_else
label floating_ip r = or_else r.address r.id
label _ r = or_else r.name r.id

unfoldable pub skipped? : Kind → Resource → Bool
skipped? security_group r = r.name == "default"
skipped? _ r = false

-- `except NotFoundException`, of which ResourceNotFound is one.
unfoldable pub is_not_found : Exc → Bool
is_not_found not_found = true
is_not_found resource_not_found = true
is_not_found _ = false

module _ {C : Type 0} (I : Inventory C) (T : Tenacity) where
  unfoldable pub list_resources : Kind → String → Act C (List Resource)
  unfolding retried
  list_resources kind project_id = retried T (I.resources kind project_id)

  unfoldable pub delete_resource : Kind → String → Act C (Unit {0})
  unfolding retried
  delete_resource kind id = retried T (I.delete kind id)

  detach : String → String → Act C (Unit {0})
  unfolding retried
  detach router_id subnet_id =
      if subnet_id == "" then pure tt else retried T (I.remove_interface router_id subnet_id)

  detach_port : String → Port → Act C (Unit {0})
  unfolding detach each
  detach_port router_id port =
      if port.is_router_interface
      then (do each (detach router_id) port.subnets; pure tt)
      else pure tt

  -- `_prepare_router_deletion`: every interface is detached, and the gateway cleared.
  unfoldable pub prepare_router_deletion : String → Act C (Unit {0})
  unfolding detach_port retried each
  prepare_router_deletion router_id = do
    ports ← retried T (I.ports router_id)
    each (detach_port router_id) ports
    retried T (I.clear_gateway router_id)

  -- The deletion of a resource, after the `pre_delete` that routers have.
  unfoldable pub prepared_delete : Kind → Resource → Act C (Unit {0})
  unfolding delete_resource prepare_router_deletion
  prepared_delete router r = do prepare_router_deletion r.id; delete_resource router r.id
  prepared_delete kind r = delete_resource kind r.id

-- What `_safe_delete` appends: an action, and a failure or none.
abbrev pub Deletion : Type 0
Deletion = Action × List String

module _ {C S : Type 0} where
  unfoldable pub deletion_error : String → String → Exc → Act (World C S) Deletion
  unfolding record_action is_not_found
  deletion_error resource_type name e =
      if is_not_found e
      then (do
        action ← record_action deleted resource_type name (lit "already gone" ∷ [])
        pure (action, []))
      else do
        action ← record_action failed resource_type name (lit "delete failed" ∷ [])
        pure (action, (resource_type <> ":" <> name) ∷ [])

  unfoldable pub safe_delete :
      String → String → Act C (Unit {0}) → Details → Act (World C S) Deletion
  unfolding deletion_error record_action
  safe_delete resource_type name body success_detail =
      catch
        (do
          on_cloud body
          action ← record_action deleted resource_type name success_detail
          pure (action, []))
        (deletion_error resource_type name)

-- The resources of a step that its `skip_func` does not except.
unfoldable pub wanted : Kind → List Resource → List Resource
unfolding skipped?
wanted kind = keep (λ r. not (skipped? kind r))

-- The actions and the failures of some deletions.
unfoldable pub gathered : List (List (Action × List String)) → List Action × List String
gathered [] = ([], [])
gathered ([] ∷ rest) = gathered rest
gathered (((action, failures) ∷ ds) ∷ rest) =
    let (actions, more) = gathered (ds ∷ rest) in (action ∷ actions, failures ++ more)

module _ {C S : Type 0} (I : Inventory C) (T : Tenacity) where
  -- A service that is not there has nothing to list.
  no_service : Exc → Act (World C S) (List Resource)
  no_service endpoint_not_found = pure []
  no_service e = raise e

  unfoldable pub list_or_skip : Kind → String → Act (World C S) (List Resource)
  unfolding list_resources no_service
  list_or_skip kind project_id = catch (on_cloud (list_resources I T kind project_id)) no_service

  unfoldable pub run_step : String → Kind → Act (World C S) (List Deletion)
  unfolding list_or_skip wanted safe_delete prepared_delete label type_name each
  run_step project_id kind = do
    resources ← list_or_skip kind project_id
    each
        (λ r.
          safe_delete (type_name kind) (label kind r) (prepared_delete I T kind r)
            (lit "deleted" ∷ []))
        (wanted kind resources)

  -- The dry run lists what would go.
  unfoldable pub preview_step : String → Kind → Act (World C S) (List Action)
  unfolding list_or_skip wanted label type_name record_action each
  preview_step project_id kind = do
    resources ← list_or_skip kind project_id
    each (λ r. record_action deleted (type_name kind) (label kind r) (lit "would delete" ∷ []))
        (wanted kind resources)

  verdict : String → List Action × List String → Act (World C S) (List Action)
  verdict project_name (actions, []) = pure actions
  verdict project_name (actions, f ∷ failures) = raise (teardown_failed project_name)

  unfoldable pub teardown_online : ProjectConfig → String → Act (World C S) (List Action)
  unfolding run_step safe_delete gathered verdict retried each
  teardown_online cfg project_id = do
    steps ← each (run_step project_id) teardown_steps
    last ←
        safe_delete "project" cfg.name (retried T (I.delete_project project_id))
          (lit "id=" ∷ lit project_id ∷ [])
    verdict cfg.name (gathered (steps ++ (last ∷ []) ∷ []))

  teardown_preview : ProjectConfig → String → Act (World C S) (List Action)
  unfolding preview_step record_action each
  teardown_preview cfg project_id = do
    steps ← each (preview_step project_id) teardown_steps
    action ←
        record_action deleted "project" cfg.name
          (lit "would delete (id=" ∷ lit project_id ∷ lit ")" ∷ [])
    pure (flatten steps ++ action ∷ [])

  unfoldable pub teardown_project : ProjectConfig → String → Act (World C S) (List Action)
  unfolding teardown_online teardown_preview record_action
  teardown_project cfg project_id w =
      if not w.ctx.online
      then (do
        action ←
            record_action skipped "teardown" cfg.name
              (lit "would tear down project resources (offline)" ∷ [])
        pure (action ∷ []))
          w
      else if w.ctx.dry_run
      then teardown_preview cfg project_id w
      else teardown_online cfg project_id w
