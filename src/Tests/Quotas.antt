-- ===== src/Tests/Quotas.antt =====
-- Quotas of a small cloud, whose state is the quotas of one service. An update resets the other keys.
use openstack_tenantctl.Base.{
  none, some, List, [], ◌∷◌, ◌≡◌, refl, String, ◌==◌, contains, string_eq, if◌then◌else◌, arith, ok,
  All, Bool, Bool-cases, subst, sym, ==_iff, true, inl, inr,
}
use openstack_tenantctl.Base.Dict.{Dict, get}
use openstack_tenantctl.Base.Int.{ℤ, pos, negsuc}
use openstack_tenantctl.Models.{ProjectConfig, QuotaConfig, present}
use openstack_tenantctl.Store.Memory.{Memory}
use openstack_tenantctl.Context.{Action, World}
use openstack_tenantctl.Quotas.{Attr, number, QuotaService, NetworkQuotas, QuotaCalls, keys}
use openstack_tenantctl.Quotas.Sets.{is_meta, ensure_compute_quotas, ensure_block_storage_quotas}
use openstack_tenantctl.Quotas.Sending.{KeepsQuotas, Knows}
use openstack_tenantctl.Quotas.Converging.{
  AllSettled, ensure_compute_quotas_settles, ensure_compute_quotas_idempotent,
  ensure_compute_quotas_unlimited,
}
use openstack_tenantctl.Quotas.Overlay.{ensure_block_storage_quotas_keeps}
use openstack_tenantctl.Quotas.Ensure.{ensure_quotas}
use openstack_tenantctl.Quotas.NetworkKeeping.{CallsKeep}
use openstack_tenantctl.Quotas.Untouched.{ensure_quotas-Keeps}
use openstack_tenantctl.Samples.{simple_retry, sample_project, live}

abbrev QuotaCloud : Type 0
QuotaCloud = Dict String Attr

abbrev in_use : QuotaCloud → Dict String Attr
in_use c = ("cores", number (pos 3)) ∷ []

abbrev written : Dict String ℤ → QuotaCloud → QuotaCloud
written [] c = []
written ((k, n) ∷ sent) c = (k, number n) ∷ written sent c

abbrev service : QuotaService QuotaCloud
service = record {
  get_quota_set = λ project_id usage c.
      (ok (record { attributes = c; usage = if usage then some (in_use c) else none }), c);
  update_quota_set = λ project_id sent c. (ok tt, written sent c);
}

abbrev network_service : NetworkQuotas QuotaCloud
network_service = record {
  get_quota = λ project_id c. (ok c, c);
  get_quota_details = λ project_id c. (ok [], c);
  update_quota = λ project_id sent c. (ok tt, written sent c);
}

abbrev calls : QuotaCalls QuotaCloud
calls = record {
  compute = service;
  block_storage = service;
  network = network_service;
  load_balancer = network_service;
}

get-written :
    (sent : Dict String ℤ) (c : QuotaCloud) (k : String) (n : ℤ)
    → get k sent ≡ some n
    → get k (written sent c) ≡ some (number n)
unfolding get
get-written [] c k n h = cc
get-written ((j, m) ∷ sent) c k n h = ground (arith, get-written sent c k n)

keeps : KeepsQuotas service "p1" (λ c. c) in_use written
keeps = record {
  get_quota_set-ok = λ usage c. refl;
  update_quota_set-ok = λ sent c. refl;
  view-write = get-written;
  used-write = λ sent c. refl;
}

abbrev wanted : QuotaConfig
wanted = record {
  compute = ("cores", pos 2) ∷ ("ram", pos 20) ∷ [];
  network = ("networks", pos 1) ∷ [];
  block_storage = ("volumes", pos 1) ∷ [];
}

abbrev unlimited : QuotaConfig
unlimited = record { compute = ("cores", negsuc 0) ∷ []; network = []; block_storage = [] }

abbrev project : QuotaConfig → ProjectConfig
project q = record (sample_project "a" present) { quotas = some q }

abbrev world : World QuotaCloud Memory
world = record {
  cloud =
      ("cores", number (pos 10))
      ∷ ("ram", number (pos 10))
      ∷ ("volumes", number (pos 4))
      ∷ ("gigabytes", number (pos 7))
      ∷ [];
  store = [];
  ctx = live;
}

-- It is enough that each key is known.
known :
    (c : QuotaCloud) (ks : List String)
    → All (λ k. (a : Attr) × (get k c ≡ some a)) ks
    → (k : String) → contains ks k ≡ true
    → (a : Attr) × (get k c ≡ some a)
known c [] h k e = cc
known c (j ∷ ks) (h, hs) k e = elim (Bool-cases (k == j)) [
  | inl same ↦ subst (λ x. (a : Attr) × (get x c ≡ some a)) (sym ((==_iff k j).0 same)) h
  | inr differ ↦ known c ks hs k (ground (arith, e, differ))
]

Knows-compute : Knows world.cloud wanted.compute
unfolding get keys string_eq
Knows-compute = known world.cloud (keys wanted.compute) ((_, refl), ((_, refl), tt))

Knows-unlimited : Knows world.cloud unlimited.compute
unfolding get keys string_eq
Knows-unlimited = known world.cloud (keys unlimited.compute) ((_, refl), tt)

Knows-volumes : Knows world.cloud wanted.block_storage
unfolding get keys string_eq
Knows-volumes = known world.cloud (keys wanted.block_storage) ((_, refl), tt)

ensure_compute_quotas_settles_example :
    (actions : List Action) × (v : World QuotaCloud Memory) × (ensure_compute_quotas calls
        simple_retry
        (project wanted)
        "p1"
        world
      ≡ (ok actions, v))
    × AllSettled wanted.compute world.cloud (in_use world.cloud) v.cloud
ensure_compute_quotas_settles_example =
    ensure_compute_quotas_settles calls simple_retry "p1" (λ c. c) in_use written keeps
      (project wanted) wanted world refl refl refl Knows-compute

ensure_compute_quotas_idempotent_example :
    (first second : List Action) × (v u : World QuotaCloud Memory) × (ensure_compute_quotas calls
        simple_retry
        (project wanted)
        "p1"
        world
      ≡ (ok first, v))
    × (ensure_compute_quotas calls simple_retry (project wanted) "p1" v ≡ (ok second, u))
    × (u.cloud ≡ v.cloud)
ensure_compute_quotas_idempotent_example =
    ensure_compute_quotas_idempotent calls simple_retry "p1" (λ c. c) in_use written keeps
      (project wanted) wanted world refl refl refl Knows-compute

ensure_compute_quotas_unlimited_example :
    (actions : List Action) × (v : World QuotaCloud Memory) × (ensure_compute_quotas calls
        simple_retry
        (project unlimited)
        "p1"
        world
      ≡ (ok actions, v))
    × (get "cores" v.cloud ≡ some (number (pos 3)))
unfolding get string_eq
ensure_compute_quotas_unlimited_example =
    ensure_compute_quotas_unlimited calls simple_retry "p1" (λ c. c) in_use written keeps
      (project unlimited) unlimited world "cores" 10 3 refl refl refl Knows-unlimited refl refl refl

ensure_block_storage_quotas_keeps_example :
    (actions : List Action) × (v : World QuotaCloud Memory) × (ensure_block_storage_quotas calls
        simple_retry
        (project wanted)
        "p1"
        world
      ≡ (ok actions, v))
    × (get "gigabytes" v.cloud ≡ some (number (pos 7)))
unfolding get string_eq is_meta
ensure_block_storage_quotas_keeps_example =
    ensure_block_storage_quotas_keeps calls simple_retry "p1" (λ c. c) in_use written keeps
      (project wanted) wanted world "gigabytes" (pos 7) refl refl refl Knows-volumes refl refl refl

-- No quota of the floating IPs, while the other services are left alone.
abbrev NoneForFips : QuotaCloud → Bool → Type 0
NoneForFips c dry_run = get "floating_ips" c ≡ none

abbrev reading : QuotaService QuotaCloud
reading = record service { update_quota_set = λ project_id sent c. (ok tt, c) }

abbrev neutron_calls : QuotaCalls QuotaCloud
neutron_calls = record {
  compute = reading;
  block_storage = reading;
  network = network_service;
  load_balancer = record network_service { update_quota = λ project_id sent c. (ok tt, c) };
}

written-NoneForFips :
    (sent : Dict String ℤ) (c : QuotaCloud)
    → get "floating_ips" sent ≡ none
    → get "floating_ips" c ≡ none
    → get "floating_ips" (written sent c) ≡ none
unfolding get
written-NoneForFips [] c h g = refl
written-NoneForFips ((j, m) ∷ sent) c h g = ground (arith, h, g, written-NoneForFips sent c)

neutron_calls_keep : CallsKeep NoneForFips neutron_calls
neutron_calls_keep = record {
  compute-keeps = record {
    get_quota_set-keeps = λ project_id usage c b h. h;
    update_quota_set-keeps = λ project_id sent c h. h;
  };
  block_storage-keeps = record {
    get_quota_set-keeps = λ project_id usage c b h. h;
    update_quota_set-keeps = λ project_id sent c h. h;
  };
  get_quota-keeps = λ project_id c b h. h;
  get_quota_details-keeps = λ project_id c b h. h;
  update_quota-keeps = λ project_id sent c. written-NoneForFips sent c;
  get_lb_quota-keeps = λ project_id c b h. h;
  update_lb_quota-keeps = λ project_id sent c h. h;
}

ensure_quotas-Keeps_example :
    ((ensure_quotas neutron_calls simple_retry (project wanted) "p1" world).1.store ≡ [])
    × (get "floating_ips"
          (ensure_quotas neutron_calls simple_retry (project wanted) "p1" world).1.cloud
        ≡ none)
unfolding get string_eq
ensure_quotas-Keeps_example =
    ensure_quotas-Keeps NoneForFips neutron_calls neutron_calls_keep simple_retry (project wanted)
      "p1" world refl
