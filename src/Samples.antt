-- ===== src/Samples.antt =====
-- Concrete instances of the parameters, for the tests: a retry loop, a small cloud whose state is the
-- list of its floating IPs, and handlers that refuse a project of the name "broken".
use openstack_tenantctl.Base.{
  ℕ, zero, suc, Bool, true, false, Option, none, some, List, [], ◌∷◌, ◌≡◌, refl, inl, inr, String,
  ◌==◌, string_eq, not, if◌then◌else◌, keep, Bool-cases, Result, ok, raised, Exc, conflict,
  endpoint_not_found, other, Act,
}
use openstack_tenantctl.Base.Int.{pos}
use openstack_tenantctl.Cloud.{
  FloatingIp, usage, Neutron, Attempts, returns, gives_up, again, Tenacity,
}
use openstack_tenantctl.Models.{ProjectConfig, ProjectState}
use openstack_tenantctl.Context.{Context, World}
use openstack_tenantctl.Store.Memory.{Memory}
use openstack_tenantctl.Compute.{Compute}
use openstack_tenantctl.Teardown.{Kind, floating_ip, router, Inventory, Resource}
use openstack_tenantctl.Reconciler.{Handlers}

module _ {W A : Type 0} (p : Exc → Bool) where
  -- What follows an attempt, with another one at hand.
  abbrev after : Result A × W → Act W A → Result A × W
  after (ok a, w) again_body = (ok a, w)
  after (raised e, w) again_body = if p e then again_body w else (raised e, w)

  unfoldable pub loop : ℕ → Act W A → Act W A
  loop zero body w = body w
  loop (suc n) body w = after (body w) (loop n body)

  last : (body : Act W A) (w : W) (r : Result A × W) → body w ≡ r → Attempts p body 1 w r
  last body w (ok a, v) h = returns h
  last body w (raised e, v) h = gives_up h (inr refl)

  after-Attempts :
      (n : ℕ) (body more : Act W A) (w : W) (r : Result A × W)
      → ((v : W) → Attempts p body n v (more v))
      → body w ≡ r
      → Attempts p body (suc n) w (after r more)
  after-Attempts n body more w (ok a, v) later h = returns h
  after-Attempts n body more w (raised e, v) later h = elim (Bool-cases (p e)) [
    | inl same ↦ rw same (again h same (later v))
    | inr same ↦ rw same (gives_up h (inl same))
  ]

  pub loop-Attempts : (n : ℕ) (body : Act W A) (w : W) → Attempts p body (suc n) w (loop n body w)
  unfolding loop
  loop-Attempts zero body w = last body w (body w) refl
  loop-Attempts (suc n) body w =
      after-Attempts (suc n) body (loop n body) w (body w) (loop-Attempts n body) refl

retry : (W A : Type 0) → (Exc → Bool) → ℕ → Act W A → Act W A
unfolding loop
retry W A p zero body = body
retry W A p (suc n) body = loop p n body

unfoldable pub simple_retry : Tenacity
unfolding retry
simple_retry = record { retry = retry; retry-Attempts = λ W A p n body w. loop-Attempts p n body w }

abbrev pub sample_ip : String → Option String → FloatingIp
sample_ip id port = record {
  id = id;
  floating_ip_address = id;
  floating_network_id = some "net";
  port_id = port;
  fixed_ip_address = none;
  status = none;
  router_id = none;
  created_at = none;
  port_device_id = none;
  port_device_owner = none;
}

abbrev pub SampleCloud : Type 0
SampleCloud = List FloatingIp

abbrev without : String → SampleCloud → SampleCloud
without id c = keep (λ (f : FloatingIp). not (f.id == id)) c

abbrev pub sample_neutron : Neutron SampleCloud
sample_neutron = record {
  ips = λ project_id c. (ok c, c);
  create_ip = λ args c. (ok (sample_ip "new" none), sample_ip "new" none ∷ c);
  delete_ip = λ id c. (ok tt, without id c);
  update_quota = λ project_id n c. (ok tt, c);
  get_quota_details = λ project_id c. (ok (usage (some (pos 0))), c);
  routers = λ project_id c. (ok [], c);
  find_subnet =
      λ name c. (ok (some (record { id = "sub-1"; network_id = "net-1"; ip_version = 4 })), c);
  subnets = λ net c. (ok [], c);
  now = λ c. ("2026-01-01", c);
}

abbrev resource_of : FloatingIp → Resource
resource_of f = record { id = f.id; name = ""; address = f.floating_ip_address }

abbrev resources_of : SampleCloud → List Resource
resources_of [] = []
resources_of (f ∷ fs) = resource_of f ∷ resources_of fs

abbrev listed : Kind → String → Act SampleCloud (List Resource)
listed floating_ip project_id c = (ok (resources_of c), c)
listed router project_id c = (raised endpoint_not_found, c)
listed kind project_id c = (ok [], c)

-- The deletion of the floating IP "stuck" is refused.
abbrev removed : Kind → String → Act SampleCloud (Unit {0})
removed kind id c = if id == "stuck" then (raised conflict, c) else (ok tt, without id c)

abbrev pub sample_inventory : Inventory SampleCloud
sample_inventory = record {
  servers = λ project_id c. (ok [], c);
  volumes = λ project_id c. (raised endpoint_not_found, c);
  resources = listed;
  delete = removed;
  ports = λ router_id c. (ok [], c);
  remove_interface = λ router_id subnet_id c. (ok tt, c);
  clear_gateway = λ router_id c. (ok tt, c);
  delete_project = λ project_id c. (ok tt, c);
}

abbrev pub sample_compute : Compute SampleCloud
sample_compute = record {
  servers = λ project_id c. (ok [], c);
  shelve_server = λ id c. (ok tt, c);
  unshelve_server = λ id c. (ok tt, c);
}

abbrev nothing : {S : Type 0} → ProjectConfig → String → Act (World SampleCloud S) (Unit {0})
nothing cfg project_id w = (ok tt, w)

abbrev pub sample_handlers : {S : Type 0} → Handlers SampleCloud S
sample_handlers = record {
  ensure_project =
      λ cfg w. if cfg.name == "broken" then (raised conflict, w) else (ok ("p1", none), w);
  find_existing_project = λ cfg w. (ok (some "p1"), w);
  ensure_group_roles = nothing;
  revoke_group_roles = nothing;
  ensure_network_stack = nothing;
  track_router_ips = nothing;
  ensure_preallocated_network = nothing;
  ensure_quotas = nothing;
  ensure_baseline_sg = nothing;
  ensure_reservations = nothing;
  revoke_all_reservation_grants = nothing;
  compute = sample_compute;
  ensure_keystone_groups = λ projects w. (raised (other "keystone"), w);
  ensure_federation_mapping = λ projects w. (ok tt, w);
  now = λ c. (5, c);
  now_text = λ c. ("2026-01-01", c);
}

abbrev pub sample_project : String → ProjectState → ProjectConfig
sample_project name state = record {
  name = name;
  enabled = true;
  state = state;
  domain_id = "default";
  domain = none;
  resource_prefix = "t";
  description = "";
  reclaim_floating_ips = false;
  track_fip_changes = false;
  external_network_name = "";
  external_network_subnet = "";
  network = none;
  quotas = none;
  lifetime = none;
  state_key = name;
  preallocated_fips = [];
  released_fips = [];
  group_role_assignments = [];
  reservations = [];
  granted_flavor_access = [];
  revoked_flavor_access = [];
  security_group = none;
  federation = none;
  reclaim_router_ips = false;
  router_ips = [];
  released_router_ips = [];
}

abbrev pub live : Context
live = record {
  online = true;
  dry_run = false;
  has_store = true;
  external_net_id = "net";
  external_subnet_id = "";
  external_network_map = ("ext", "net-1") ∷ [];
  resolved_external_networks = [];
  private_flavors = none;
  static_mapping_rules = [];
  current_mapping_rules = [];
  mapping_exists = false;
  actions = [];
  failed_projects = [];
  current_project_id = "";
  current_project_name = "";
}

abbrev pub sample_world : World SampleCloud Memory
sample_world = record {
  cloud = sample_ip "a" (some "port") ∷ sample_ip "b" none ∷ sample_ip "c" none ∷ [];
  store = [];
  ctx = live;
}
