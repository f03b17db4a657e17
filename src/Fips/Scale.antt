-- ===== src/Fips/Scale.antt =====
-- `_scale_down_fips` and `_scale_up_fips`, and the calls `_delete_floating_ip`,
-- `_create_floating_ip` and `_list_floating_ips` that they make.
use openstack_tenantctl.Base.{
  ℕ, zero, suc, ◌+◌, ◌-◌, Option, none, some, List, [], ◌∷◌, ◌++◌, map, String, length, Act, pure,
  each, ◌>>=◌, ◌>>◌,
}
use openstack_tenantctl.Base.Int.{ℤ, pos, pos_part, ◌-ℤ◌}
use openstack_tenantctl.Cloud.{Neutron, Tenacity, FloatingIp}
use openstack_tenantctl.Models.{ProjectConfig, FipEntry, from_sdk}
use openstack_tenantctl.Store.Interface.{StateStore}
use openstack_tenantctl.Context.{
  Action, lit, int, created, updated, failed, World, on_cloud, record_action,
}
use openstack_tenantctl.Context.Retry.{retried}
use openstack_tenantctl.Fips.{to_delete, remaining_fips}
use openstack_tenantctl.Fips.Quota.{raise_fip_quota, set_fip_quota_and_record}
use openstack_tenantctl.Fips.Persist.{persist_fips}
use openstack_tenantctl.Fips.Drift.{given}

module _ {C : Type 0} (N : Neutron C) (T : Tenacity) where
  unfoldable pub list_floating_ips : String → Act C (List FloatingIp)
  unfolding retried
  list_floating_ips project_id = retried T (N.ips project_id)

  unfoldable pub delete_floating_ip : String → Act C (Unit {0})
  unfolding retried
  delete_floating_ip fip_id = retried T (N.delete_ip fip_id)

  unfoldable pub create_floating_ip : String → String → String → Act C FloatingIp
  unfolding given retried
  create_floating_ip external_net_id project_id external_subnet_id = retried T (
      N.create_ip (record {
        floating_network_id = external_net_id;
        project_id = project_id;
        subnet_id = given external_subnet_id;
        floating_ip_address = none;
      }))

-- `if quota_action: actions.append(quota_action)`
unfoldable pub with_action : List Action → Option Action → List Action
with_action actions none = actions
with_action actions (some a) = actions ++ a ∷ []

module _ {C S : Type 0} (N : Neutron C) (T : Tenacity) (st : StateStore S) where
  unfoldable pub release_unused : FloatingIp → Act (World C S) Action
  unfolding delete_floating_ip record_action
  release_unused fip = do
    on_cloud (delete_floating_ip N T fip.id)
    record_action updated "preallocated_fip" fip.floating_ip_address
        (lit "released (unused), id=" ∷ lit fip.id ∷ [])

  -- The FAILED action for floating IPs in use that stay above the wanted number.
  unfoldable pub note_in_use : ℕ → ℤ → ℕ → Act (World C S) (List Action)
  unfolding record_action
  note_in_use zero desired_count left = pure []
  note_in_use (suc n) desired_count left = do
    action ← record_action failed "preallocated_fip" "" (
        lit "cannot release "
        ∷ int (pos (suc n))
        ∷ lit " in-use FIP(s), wanted "
        ∷ int desired_count
        ∷ lit " but "
        ∷ int (pos left)
        ∷ lit " remain"
        ∷ [])
    pure (action ∷ [])

  -- Called with more floating IPs than wanted, so the excess is a positive number.
  unfoldable pub scale_down_fips :
      ProjectConfig → String → List FloatingIp → ℕ → ℤ → Act (World C S) (List Action)
  unfolding release_unused note_in_use to_delete remaining_fips persist_fips from_sdk
      set_fip_quota_and_record with_action each
  scale_down_fips cfg project_id existing_fips existing_count desired_count =
      let excess = pos_part (pos existing_count -ℤ desired_count) in
      let doomed = to_delete existing_fips excess in
      let remaining = remaining_fips existing_fips doomed in
      do
        releases ← each release_unused doomed
        in_use ← note_in_use (excess - length doomed) desired_count (existing_count - length doomed)
        persist_fips st cfg (map from_sdk remaining)
        quota_action ←
            set_fip_quota_and_record N T project_id desired_count (pos (length remaining))
        pure (with_action (releases ++ in_use) quota_action)

  unfoldable pub allocate : String → String → String → Act (World C S) (FipEntry × Action)
  unfolding create_floating_ip record_action from_sdk
  allocate external_net_id project_id external_subnet_id = do
    fip ← on_cloud (create_floating_ip N T external_net_id project_id external_subnet_id)
    action ←
        record_action created "preallocated_fip" fip.floating_ip_address
          (lit "id=" ∷ lit fip.id ∷ lit ", project=" ∷ lit project_id ∷ [])
    pure (from_sdk fip, action)

  -- `for idx in range(n)`
  unfoldable pub repeat : {A : Type 0} → ℕ → Act (World C S) A → Act (World C S) (List A)
  repeat zero m = pure []
  repeat (suc n) m = do a ← m; as' ← repeat n m; pure (a ∷ as')

  -- Called with fewer floating IPs than wanted, so the number to allocate is positive.
  unfoldable pub scale_up_fips :
      ProjectConfig
      → String
      → List FloatingIp
      → ℕ
      → ℤ
      → String
      → String
      → Act (World C S) (List Action)
  unfolding raise_fip_quota allocate repeat persist_fips set_fip_quota_and_record with_action
      from_sdk
  scale_up_fips cfg project_id existing_fips existing_count desired_count external_net_id
        external_subnet_id =
      do
        on_cloud (raise_fip_quota N T project_id desired_count)
        allocations ←
            repeat (pos_part (desired_count -ℤ pos existing_count))
              (allocate external_net_id project_id external_subnet_id)
        persist_fips st cfg (map from_sdk existing_fips ++ map (λ t. t.0) allocations)
        quota_action ←
            set_fip_quota_and_record N T project_id desired_count
              (pos (existing_count + length allocations))
        pure (with_action (map (λ t. t.1) allocations) quota_action)
