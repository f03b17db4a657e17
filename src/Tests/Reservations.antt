-- ===== src/Tests/Reservations.antt =====
-- Reservations in a small cloud, whose state is the flavors that the project has access to.
use openstack_tenantctl.Base.{
  Bool, true, false, not, ◌&&◌, ◌||◌, Option, none, some, List, [], ◌∷◌, ◌≡◌, refl, sym, arith,
  String, ◌==◌, contains, string_eq, keep, ok, ==_iff, if◌then◌else◌, subst,
}
use openstack_tenantctl.Models.{ProjectConfig, present}
use openstack_tenantctl.Models.Reservations.{GrantedFlavorAccessEntry}
use openstack_tenantctl.Cloud.{Flavor}
use openstack_tenantctl.Store.Memory.{Memory, memory_store, memory_store-IsLawful}
use openstack_tenantctl.Context.{Action, World}
use openstack_tenantctl.Quotas.Laws.{contains-keep}
use openstack_tenantctl.Reservations.{FlavorCalls, Grants, tenants, is_desired}
use openstack_tenantctl.Reservations.Access.{KeepsAccess}
use openstack_tenantctl.Reservations.Converging.{converge_access}
use openstack_tenantctl.Reservations.Ensure.{
  converge, ensure_reservations, revoke_all_reservation_grants,
}
use openstack_tenantctl.Reservations.Holding.{CallsHold}
use openstack_tenantctl.Reservations.Manual.{ensure_reservations-Holds}
use openstack_tenantctl.Samples.{simple_retry, sample_project, live}

abbrev FlavorCloud : Type 0
FlavorCloud = List String

abbrev flavor : String → Flavor
flavor id = record { id = id; name = id; is_public = false }

abbrev listed : String → FlavorCloud → List (Option String)
listed fid c = if contains c fid then some "p1" ∷ [] else []

abbrev flavor_calls : FlavorCalls FlavorCloud
flavor_calls = record {
  flavors = λ c. (ok (flavor "gpu" ∷ flavor "manual" ∷ []), c);
  flavor_add_tenant_access = λ fid project_id c. (ok tt, fid ∷ c);
  flavor_remove_tenant_access = λ fid project_id c. (ok tt, keep (λ x. not (x == fid)) c);
  get_flavor_access = λ fid c. (ok (listed fid c), c);
  now = λ c. (5, c);
  isoformat = λ t. "2026-01-01";
  fnmatchcase = λ name pattern. pattern == "*";
}

abbrev old_grant : GrantedFlavorAccessEntry
old_grant = record {
  flavor_id = "old";
  flavor_name = "old";
  reservation = "";
  granted_at = "2025-01-01";
}

abbrev reserving : ProjectConfig
reserving = record (sample_project "a" present) {
  reservations =
      record {
        period = record { start = some 1; stop = none } ∷ [];
        flavors = "*" ∷ [];
        name = "lab";
      }
      ∷ [];
  granted_flavor_access = old_grant ∷ [];
}

abbrev world : World FlavorCloud Memory
world = record { cloud = "manual" ∷ "old" ∷ []; store = []; ctx = live }

abbrev HasManual : FlavorCloud → Type 0
HasManual c = contains c "manual" ≡ true

abbrev manual : String
manual = "manual"

abbrev old : String
old = "old"

manual_differs : not (manual == old) ≡ true
unfolding string_eq
manual_differs = refl

differs_from_old : (fid : String) → contains (old ∷ []) fid ≡ true → not (manual == fid) ≡ true
differs_from_old fid h =
    subst (λ x. not (manual == x) ≡ true) (sym ((==_iff fid old).0 (ground (arith, h))))
      manual_differs

removed-HasManual :
    (fid : String) (c : FlavorCloud)
    → contains ("old" ∷ []) fid ≡ true
    → HasManual c
    → HasManual (keep (λ x. not (x == fid)) c)
removed-HasManual fid c h m =
    ground (arith, m, differs_from_old fid h, contains-keep (λ x. not (x == fid)) c "manual")

flavor_calls-CallsHold : CallsHold flavor_calls HasManual (old_grant ∷ [])
flavor_calls-CallsHold = record {
  flavors-holds = λ c h. h;
  get_flavor_access-holds = λ fid c h. h;
  add-holds = λ fid project_id c h. ground (arith, h);
  remove-holds = λ fid project_id h c m. removed-HasManual fid c h m;
  now-holds = λ c h. h;
}

world-HasManual : HasManual world.cloud
unfolding string_eq
world-HasManual = refl

ensure_reservations-Holds_example :
    HasManual
      (ensure_reservations flavor_calls simple_retry memory_store reserving "p1" world).1.cloud
    × HasManual
        (revoke_all_reservation_grants flavor_calls simple_retry memory_store reserving "p1"
          world).1.cloud
ensure_reservations-Holds_example =
    ensure_reservations-Holds flavor_calls simple_retry memory_store HasManual reserving
      flavor_calls-CallsHold "p1" world world-HasManual

abbrev has_access : FlavorCloud → String → Bool
has_access c fid = contains c fid

listed-tenants :
    (fid : String) (c : FlavorCloud) → contains (tenants (listed fid c)) "p1" ≡ has_access c fid
unfolding tenants string_eq
listed-tenants fid c = shown (contains c fid)
  where
    shown : (b : Bool) → contains (tenants (if b then some "p1" ∷ [] else [])) "p1" ≡ b
    shown true = refl
    shown false = refl

flavor_calls-KeepsAccess : KeepsAccess flavor_calls "p1" has_access
flavor_calls-KeepsAccess = record {
  get-ok = λ fid c. (_, refl, listed-tenants fid c);
  add-ok = λ fid c. (_, refl, λ k. refl);
  remove-ok = λ fid c. (_, refl, λ k. ground (arith, contains-keep (λ x. not (x == fid)) c k));
}

abbrev desired : Grants
desired = ("gpu", ("gpu", "lab")) ∷ []

converge_access_example :
    (actions : List Action) × (v : World FlavorCloud Memory) × (converge flavor_calls simple_retry
        memory_store reserving "p1" 5 desired world
      ≡ (ok actions, v))
    × ((k : String)
        → has_access v.cloud k
          ≡ (is_desired desired k || not (contains (old ∷ []) k) && has_access world.cloud k))
converge_access_example =
    converge_access flavor_calls simple_retry memory_store "p1" has_access flavor_calls-KeepsAccess
      memory_store-IsLawful reserving 5 desired world tt refl
