-- ===== src/Fips/Drift.antt =====
-- `_reconcile_fip_drift`: adopt what is not tracked, reclaim or release what is gone.
use openstack_tenantctl.Base.{
  ℕ, zero, suc, Option, none, some, List, [], ◌∷◌, ◌++◌, map, String, if◌then◌else◌, length, ◌==◌,
  string_eq, ok, Exc, conflict, Act, pure, raise, catch, each, ◌>>=◌, ◌>>◌,
}
use openstack_tenantctl.Base.Dict
use openstack_tenantctl.Base.Int.{ℤ, pos, ◌+ℤ◌}
use openstack_tenantctl.Cloud.{Neutron, Tenacity, FloatingIp}
use openstack_tenantctl.Models.{ProjectConfig, QuotaConfig, FipEntry, ReleasedFipEntry, from_sdk}
use openstack_tenantctl.Store.Interface.{StateStore}
use openstack_tenantctl.Context.{Action, lit, int, updated, failed, World, on_cloud, record_action}
use openstack_tenantctl.Context.Retry.{retried}
use openstack_tenantctl.Fips.{detect_fip_drift, surviving}
use openstack_tenantctl.Fips.Quota.{raise_fip_quota}
use openstack_tenantctl.Fips.Persist.{persist_fips, reconcile_released_fips}

-- What became of a missing entry, with the action that was recorded.
pub data Fate : Type 0 where
  regained : FipEntry → Action → Fate
  lost : ReleasedFipEntry → Action → Fate

unfoldable pub reclaimed : List Fate → List FipEntry
reclaimed [] = []
reclaimed (regained f a ∷ fates) = f ∷ reclaimed fates
reclaimed (lost r a ∷ fates) = reclaimed fates

unfoldable pub newly_released : List Fate → List ReleasedFipEntry
newly_released [] = []
newly_released (regained f a ∷ fates) = newly_released fates
newly_released (lost r a ∷ fates) = r ∷ newly_released fates

unfoldable pub fate_action : Fate → Action
fate_action (regained f a) = a
fate_action (lost r a) = a

unfoldable pub release_entry : FipEntry → String → String → ReleasedFipEntry
release_entry entry released_at reason = record {
  address = entry.address;
  released_at = released_at;
  reason = reason;
  port_id = entry.port_id;
  device_id = entry.device_id;
  device_owner = entry.device_owner;
}

-- `"..."` if it is not empty: the argument `subnet_id` is only given then.
unfoldable pub given : String → Option String
given s = if s == "" then none else some s

-- cfg.quotas.network.get("floating_ips", 0) if cfg.quotas else 0
unfoldable pub floating_ips_of : Option QuotaConfig → ℤ
unfolding Dict.get
floating_ips_of none = pos 0
floating_ips_of (some q) = elim (Dict.get "floating_ips" q.network) [ none ↦ pos 0 | some n ↦ n ]

module _ {C S : Type 0} where
  -- One action that says how many there are, or none.
  note_count : ProjectConfig → String → String → ℕ → Act (World C S) (List Action)
  unfolding record_action
  note_count cfg before after zero = pure []
  note_count cfg before after (suc n) = do
    action ←
        record_action updated "preallocated_fip" cfg.name
          (lit before ∷ int (pos (suc n)) ∷ lit after ∷ [])
    pure (action ∷ [])

  -- The dry run: the drift is reported, and nothing else is done.
  unfoldable pub report_drift :
      ProjectConfig → List FipEntry → List FloatingIp → Act (World C S) (List Action)
  unfolding note_count
  report_drift cfg missing untracked = do
    adopts ← note_count cfg "would adopt " " untracked FIP(s)" (length untracked)
    rest ←
        note_count cfg (if cfg.reclaim_floating_ips then "would reclaim " else "would release ")
          " missing FIP(s)" (length missing)
    pure (adopts ++ rest)

  adopt : FloatingIp → Act (World C S) (FipEntry × Action)
  unfolding record_action from_sdk
  adopt fip = do
    action ←
        record_action updated "preallocated_fip" fip.floating_ip_address
          (lit "adopted untracked FIP, id=" ∷ lit fip.id ∷ [])
    pure (from_sdk fip, action)

module _ {C : Type 0} (N : Neutron C) (T : Tenacity) where
  unfoldable pub reclaim_floating_ip : String → String → String → String → Act C FloatingIp
  unfolding given retried
  reclaim_floating_ip external_net_id project_id address external_subnet_id = retried T (
      N.create_ip (record {
        floating_network_id = external_net_id;
        project_id = project_id;
        subnet_id = given external_subnet_id;
        floating_ip_address = some address;
      }))

module _ {C S : Type 0} (N : Neutron C) (T : Tenacity) where
  timestamp : Act (World C S) String
  timestamp = on_cloud (λ c. let (t, c') = N.now c in (ok t, c'))

  -- `except ConflictException`; all else is raised on.
  taken : FipEntry → Exc → Act (World C S) Fate
  unfolding timestamp release_entry record_action
  taken entry conflict = do
    at ← timestamp
    action ←
        record_action failed "preallocated_fip" entry.address
          (lit "address taken by another project, moved to released_fips" ∷ [])
    pure (lost (release_entry entry at "address taken by another project") action)
  taken entry e = raise e

  unfoldable pub reclaim_entry : String → String → String → FipEntry → Act (World C S) Fate
  unfolding taken reclaim_floating_ip from_sdk record_action
  reclaim_entry external_net_id project_id external_subnet_id entry =
      catch
        (do
          fip ←
              on_cloud (
                reclaim_floating_ip N T external_net_id project_id entry.address external_subnet_id)
          action ←
              record_action updated "preallocated_fip" entry.address
                (lit "reclaimed with new id=" ∷ lit fip.id ∷ [])
          pure (regained (from_sdk fip) action))
        (taken entry)

  unfoldable pub release_missing : FipEntry → Act (World C S) Fate
  unfolding timestamp release_entry record_action
  release_missing entry = do
    at ← timestamp
    action ←
        record_action updated "preallocated_fip" entry.address
          (lit "FIP deleted externally, moved to released_fips" ∷ [])
    pure (lost (release_entry entry at "FIP deleted externally") action)

  -- The two ways to deal with the missing entries.
  unfoldable pub settle_missing :
      ProjectConfig → String → String → String → List FipEntry → Act (World C S) (List Fate)
  unfolding reclaim_entry release_missing raise_fip_quota floating_ips_of each
  settle_missing cfg project_id external_net_id external_subnet_id missing =
      if cfg.reclaim_floating_ips
      then (do
        on_cloud
            (raise_fip_quota N T project_id (floating_ips_of cfg.quotas +ℤ pos (length missing)))
        each (reclaim_entry external_net_id project_id external_subnet_id) missing)
      else each release_missing missing

module _ {C S : Type 0} (N : Neutron C) (T : Tenacity) (st : StateStore S) where
  persist_adopted : ProjectConfig → List FipEntry → List FipEntry → Act (World C S) (Unit {0})
  unfolding persist_fips
  persist_adopted cfg config_fips [] = pure tt
  persist_adopted cfg config_fips (f ∷ adopted) = persist_fips st cfg (config_fips ++ f ∷ adopted)

  settle :
      ProjectConfig
      → String
      → String
      → String
      → List FipEntry
      → List FipEntry
      → List FipEntry
      → List Action
      → Act (World C S) (List Action)
  unfolding settle_missing persist_fips reconcile_released_fips reclaimed newly_released fate_action
      surviving
  settle cfg project_id external_net_id external_subnet_id config_fips adopted [] actions = do
    reconcile_released_fips st cfg (config_fips ++ adopted) []
    pure actions
  settle cfg project_id external_net_id external_subnet_id config_fips adopted (m ∷ ms) actions = do
    fates ← settle_missing N T cfg project_id external_net_id external_subnet_id (m ∷ ms)
    let updated_locked = surviving config_fips (m ∷ ms) ++ reclaimed fates ++ adopted
    persist_fips st cfg updated_locked
    reconcile_released_fips st cfg updated_locked (newly_released fates)
    pure (actions ++ map fate_action fates)

  unfoldable pub reconcile_fip_drift :
      ProjectConfig
      → String
      → List FipEntry
      → List FloatingIp
      → String
      → String
      → Act (World C S) (List Action)
  unfolding detect_fip_drift report_drift adopt persist_adopted settle each
  reconcile_fip_drift cfg project_id config_fips openstack_fips external_net_id external_subnet_id
        w =
      let (missing, untracked) = detect_fip_drift config_fips openstack_fips in
      if w.ctx.dry_run
      then report_drift cfg missing untracked w
      else (do
        adoptions ← each adopt untracked
        let adopted = map (λ t. t.0) adoptions
        persist_adopted cfg config_fips adopted
        settle cfg project_id external_net_id external_subnet_id config_fips adopted missing
            (map (λ t. t.1) adoptions))
          w
