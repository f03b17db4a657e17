-- ===== src/Fips/Quota.antt =====
-- The floating-IP quota: `_raise_fip_quota`, `_set_fip_quota` and `_set_fip_quota_and_record`.
use openstack_tenantctl.Base.{
  Option, none, some, [], ◌∷◌, String, if◌then◌else◌, Exc, bad_request, Act, pure, raise, catch,
  ◌>>=◌, ◌>>◌,
}
use openstack_tenantctl.Base.Int.{ℤ, pos, ◌-ℤ◌, ltb_ℤ, max_ℤ}
use openstack_tenantctl.Cloud.{Neutron, Tenacity, QuotaDetail, not_a_dict, usage}
use openstack_tenantctl.Context.{Action, Details, lit, int, failed, World, on_cloud, record_action}
use openstack_tenantctl.Context.Retry.{retried}

-- detail.get("used", 0) if isinstance(detail, dict) else 0
used_of : QuotaDetail → ℤ
used_of not_a_dict = pos 0
used_of (usage none) = pos 0
used_of (usage (some n)) = n

-- (True, None), or (False, used) after the fallback.
pub data QuotaSet : Type 0 where
  as_wanted : QuotaSet
  fell_back : ℤ → QuotaSet

excess_details : ℤ → String → ℤ → Details
excess_details quota reason desired_count =
    lit "quota set to "
    ∷ int quota
    ∷ lit reason
    ∷ int desired_count
    ∷ lit " - project owner must free "
    ∷ int (quota -ℤ desired_count)
    ∷ lit " FIP(s) before quota can be reduced"
    ∷ []

module _ {C : Type 0} (N : Neutron C) (T : Tenacity) where
  unfoldable pub raise_fip_quota : String → ℤ → Act C (Unit {0})
  unfolding retried
  raise_fip_quota project_id count = retried T (N.update_quota project_id count)

  -- Only a BadRequestException is handled.
  unfoldable pub fall_back : String → Exc → Act C QuotaSet
  unfolding used_of
  fall_back project_id bad_request = do
    detail ← N.get_quota_details project_id
    N.update_quota project_id (used_of detail)
    pure (fell_back (used_of detail))
  fall_back project_id e = raise e

  unfoldable pub set_once : String → ℤ → Act C QuotaSet
  unfolding fall_back
  set_once project_id desired_count =
      catch (do N.update_quota project_id desired_count; pure as_wanted) (fall_back project_id)

  -- The decorator retries the whole body.
  unfoldable pub set_fip_quota : String → ℤ → Act C QuotaSet
  unfolding set_once retried
  set_fip_quota project_id desired_count = retried T (set_once project_id desired_count)

module _ {C S : Type 0} (N : Neutron C) (T : Tenacity) where
  unfoldable pub note_quota : ℤ → ℤ → QuotaSet → Act (World C S) (Option Action)
  unfolding excess_details record_action
  note_quota desired_count effective_quota (fell_back quota) = do
    action ←
        record_action failed "preallocated_fip_quota" ""
          (excess_details quota " (current usage) instead of desired " desired_count)
    pure (some action)
  note_quota desired_count effective_quota as_wanted =
      if ltb_ℤ desired_count effective_quota
      then (do
        action ←
            record_action failed "preallocated_fip_quota" ""
              (excess_details effective_quota " (in-use FIPs) instead of desired " desired_count)
        pure (some action))
      else pure none

  unfoldable pub set_fip_quota_and_record : String → ℤ → ℤ → Act (World C S) (Option Action)
  unfolding note_quota set_fip_quota
  set_fip_quota_and_record project_id desired_count actual_count = do
    outcome ← on_cloud (set_fip_quota N T project_id (max_ℤ desired_count actual_count))
    note_quota desired_count (max_ℤ desired_count actual_count) outcome
