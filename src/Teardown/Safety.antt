-- ===== src/Teardown/Safety.antt =====
-- `safety_check` of src/resources/teardown.py: what keeps a project from being torn down.
use openstack_tenantctl.Base.{
  List, [], ◌∷◌, ◌++◌, ◌≡◌, refl, arith, String, append-eq-nil_iff, Result, ok, raised,
  endpoint_not_found, Act, pure, ◌>>=◌, ◌↔◌, ◌⊎◌,
}
use openstack_tenantctl.Cloud.{Tenacity}
use openstack_tenantctl.Context.Retry.{retried}
use openstack_tenantctl.Teardown.{Inventory, Resource}

-- An entry of the error list.
pub data Blocker : Type 0 where
  has_servers : List Resource → Blocker
  has_volumes : List Resource → Blocker
  server_check_inconclusive volume_check_inconclusive : Blocker

blockers_of : (List Resource → Blocker) → Blocker → Result (List Resource) → List Blocker
blockers_of found inconclusive (ok []) = []
blockers_of found inconclusive (ok (r ∷ rs)) = found (r ∷ rs) ∷ []
blockers_of found inconclusive (raised endpoint_not_found) = []
blockers_of found inconclusive (raised e) = inconclusive ∷ []

-- One of the two checks: it never raises.
check :
    {C : Type 0}
    → (List Resource → Blocker)
    → Blocker
    → Act C (List Resource)
    → Act C (List Blocker)
unfolding blockers_of
check found inconclusive listing c =
    let (r, c') = listing c in (ok (blockers_of found inconclusive r), c')

blockers_of-nil_iff :
    (found : List Resource → Blocker) (inconclusive : Blocker) (r : Result (List Resource))
    → (blockers_of found inconclusive r ≡ []) ↔ ((r ≡ ok []) ⊎ (r ≡ raised endpoint_not_found))
unfolding blockers_of
blockers_of-nil_iff found inconclusive r = ground arith

module _ {C : Type 0} (I : Inventory C) (T : Tenacity) where
  unfoldable pub safety_check : String → Act C (List Blocker)
  unfolding check retried
  safety_check project_id = do
    a ← check has_servers server_check_inconclusive (retried T (I.servers project_id))
    b ← check has_volumes volume_check_inconclusive (retried T (I.volumes project_id))
    pure (a ++ b)

  -- Nothing was found, or the service is not there.
  abbrev pub IsClear : Result (List Resource) × C → Type 0
  IsClear p = (p.0 ≡ ok []) ⊎ (p.0 ≡ raised endpoint_not_found)

  -- The check always returns, and finds no blocker exactly if the listings of servers and of
  -- volumes each came back empty or met a service that is not there.
  pub safety_check_iff :
      (project_id : String) (c : C)
      → let servers = retried T (I.servers project_id) c in
        let volumes = retried T (I.volumes project_id) servers.1 in
        (blockers : List Blocker) × (safety_check project_id c ≡ (ok blockers, volumes.1))
        × ((blockers ≡ []) ↔ (IsClear servers × IsClear volumes))
  unfolding safety_check
  safety_check_iff project_id c =
      let servers = retried T (I.servers project_id) c in
      let volumes = retried T (I.volumes project_id) servers.1 in
      let a = blockers_of has_servers server_check_inconclusive servers.0 in
      let b = blockers_of has_volumes volume_check_inconclusive volumes.0 in
      let both = append-eq-nil_iff a b in
      let left = blockers_of-nil_iff has_servers server_check_inconclusive servers.0 in
      let right = blockers_of-nil_iff has_volumes volume_check_inconclusive volumes.0 in
      (
        a ++ b,
        refl,
        (λ h. (left.0 (both.0 h).0, right.0 (both.0 h).1), λ h. both.1 (left.1 h.0, right.1 h.1)),
      )
