-- ===== src/Quotas/Ensure.antt =====
-- All services (`ensure_quotas`): block storage may fail, the others may not.
use openstack_tenantctl.Base.{
  not, none, some, List, [], ◌∷◌, ◌++◌, String, ◌==◌, string_eq, if◌then◌else◌, Act, Exc, pure,
  catch, ◌>>=◌, bad_request, conflict, endpoint_not_found, forbidden, not_found,
  precondition_failed, resource_not_found, http, sdk, requests_connection, connection, provisioner,
  dry_run_unsupported, safety_check_failed, teardown_failed, value_error, type_error, other,
}
use openstack_tenantctl.Cloud.{Tenacity}
use openstack_tenantctl.Models.{ProjectConfig}
use openstack_tenantctl.Context.{
  Action, lit, created, updated, skipped, failed, deleted, World, record_action,
}
use openstack_tenantctl.Context.Retry.{retried}
use openstack_tenantctl.Quotas.{QuotaCalls}
use openstack_tenantctl.Quotas.Sets.{one_action, ensure_compute_quotas, ensure_block_storage_quotas}
use openstack_tenantctl.Quotas.Network.{ensure_network_once}

-- [a for a in actions if a.status != SKIPPED]
unfoldable pub changed_actions : List Action → List Action
changed_actions [] = []
changed_actions (a ∷ actions) = elim a.status [
  | skipped ↦ changed_actions actions
  | created ↦ a ∷ changed_actions actions
  | updated ↦ a ∷ changed_actions actions
  | failed ↦ a ∷ changed_actions actions
  | deleted ↦ a ∷ changed_actions actions
]

-- type(exc).__name__
exception_name : Exc → String
exception_name bad_request = "BadRequestException"
exception_name conflict = "ConflictException"
exception_name endpoint_not_found = "EndpointNotFound"
exception_name forbidden = "ForbiddenException"
exception_name not_found = "NotFoundException"
exception_name precondition_failed = "PreconditionFailedException"
exception_name resource_not_found = "ResourceNotFound"
exception_name (http code) = "HttpException"
exception_name sdk = "SDKException"
exception_name requests_connection = "ConnectionError"
exception_name connection = "ConnectionError"
exception_name (provisioner m) = "ProvisionerError"
exception_name (dry_run_unsupported m) = "DryRunUnsupportedError"
exception_name (safety_check_failed m) = "SafetyCheckError"
exception_name (teardown_failed m) = "TeardownError"
exception_name (value_error m) = "ValueError"
exception_name (type_error m) = "TypeError"
exception_name (other m) = m

module _ {C S : Type 0} where
  -- `if changed`
  unfoldable pub report_changed : List Action → Act (World C S) (List Action)
  unfolding one_action
  report_changed [] = one_action skipped "quotas" (lit "already up to date" ∷ [])
  report_changed (a ∷ changed) = pure (a ∷ changed)

module _ {C S : Type 0} (Q : QuotaCalls C) (T : Tenacity) where
  unfoldable pub ensure_network_quotas : ProjectConfig → String → Act (World C S) (List Action)
  unfolding retried ensure_network_once
  ensure_network_quotas cfg project_id = retried T (ensure_network_once Q cfg project_id)

  -- Block storage may be missing altogether.
  unfoldable pub block_storage_or_skip : ProjectConfig → String → Act (World C S) (List Action)
  unfolding ensure_block_storage_quotas one_action exception_name
  block_storage_or_skip cfg project_id =
      catch (ensure_block_storage_quotas Q T cfg project_id) (λ e.
        one_action skipped "block_storage_quota"
          (lit "skipped (" ∷ lit (exception_name e) ∷ lit ")" ∷ []))

  unfoldable pub ensure_all_services : ProjectConfig → String → Act (World C S) (List Action)
  unfolding ensure_compute_quotas ensure_network_quotas block_storage_or_skip changed_actions
      report_changed
  ensure_all_services cfg project_id = do
    compute ← ensure_compute_quotas Q T cfg project_id
    network ← ensure_network_quotas cfg project_id
    block_storage ← block_storage_or_skip cfg project_id
    report_changed (changed_actions (compute ++ network ++ block_storage))

  unfoldable pub ensure_quotas : ProjectConfig → String → Act (World C S) (List Action)
  unfolding record_action one_action ensure_all_services
  ensure_quotas cfg project_id w = elim cfg.quotas [
    | none ↦
        (do
          action ← record_action skipped "quotas" "all" (lit "no quotas configured" ∷ [])
          pure (action ∷ []))
          w
    | some q ↦
        if project_id == ""
        then one_action created "quotas" (lit "would set quotas (project not yet created)" ∷ []) w
        else if not w.ctx.online
        then one_action skipped "quotas" (lit "would set quotas (offline)" ∷ []) w
        else ensure_all_services cfg project_id w
  ]
