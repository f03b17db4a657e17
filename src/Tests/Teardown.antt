-- ===== src/Tests/Teardown.antt =====
-- Teardown of a project of a small cloud.
use openstack_tenantctl.Base.{
  true, Result, ◌⊎◌, sym, subst, ◌∙◌, false, Bool, Eq, not, ◌&&◌, keep, endpoint_not_found,
  Bool-cases, inl, inr, ap, String, raised, conflict, Act, contains, if◌then◌else◌, ◌==◌, ==_iff,
  arith, none, List, [], ◌∷◌, ◌≡◌, refl, ◌↔◌, string_eq, length, All, ok, ok_witness,
}
use openstack_tenantctl.Models.{ProjectConfig, absent}
use openstack_tenantctl.Store.Memory.{Memory}
use openstack_tenantctl.Context.{Action, World}
use openstack_tenantctl.Context.Retry.{retried, retried-result, retried-Holds}
use openstack_tenantctl.Base.Holding.{Holds}
use openstack_tenantctl.Teardown.{
  Kind, floating_ip, snapshot, router, subnet, network, security_group, skipped?, Inventory,
  prepared_delete, delete_resource, Resource, Deletion, list_or_skip, run_step, wanted,
  teardown_online,
}
use openstack_tenantctl.Teardown.Safety.{Blocker, safety_check, IsClear, safety_check_iff}
use openstack_tenantctl.Teardown.Outcome.{run_step_isolates}
use openstack_tenantctl.Teardown.Clearing.{Has, Listing}
use openstack_tenantctl.Teardown.Keeping.{Keeps}
use openstack_tenantctl.Teardown.Endings.{Deleting}
use openstack_tenantctl.Teardown.Gone.{IsTrue, teardown_online-gone}
use openstack_tenantctl.Samples.{
  simple_retry, sample_ip, SampleCloud, sample_inventory, sample_project, sample_world,
}

abbrev cloud : SampleCloud
cloud = sample_ip "stuck" none ∷ sample_ip "b" none ∷ []

abbrev project : ProjectConfig
project = sample_project "dev" absent

safety_check_iff_example :
    (blockers : List Blocker) × (safety_check sample_inventory simple_retry "p1" cloud
      ≡ (ok blockers, cloud))
    × ((blockers ≡ []) ↔ (
        IsClear sample_inventory simple_retry
          (retried simple_retry (sample_inventory.servers "p1") cloud)
        × IsClear sample_inventory simple_retry
            (retried simple_retry (sample_inventory.volumes "p1") cloud)))
unfolding retried simple_retry
safety_check_iff_example = safety_check_iff sample_inventory simple_retry "p1" cloud

-- A cloud that notes the ids whose deletion is asked for, and refuses that of "stuck".
abbrev Asked : Type 0
Asked = List String

abbrev listing : List Resource
listing =
    record { id = "stuck"; name = ""; address = "stuck" }
    ∷ record { id = "b"; name = ""; address = "b" }
    ∷ []

abbrev asked_delete : String → Act Asked (Unit {0})
asked_delete id c = (if id == "stuck" then raised conflict else ok tt, id ∷ c)

abbrev asking : Inventory Asked
asking = record {
  servers = λ project_id c. (ok [], c);
  volumes = λ project_id c. (ok [], c);
  resources = λ kind project_id c. (ok listing, c);
  delete = λ kind id. asked_delete id;
  ports = λ router_id c. (ok [], c);
  remove_interface = λ router_id subnet_id c. (ok tt, c);
  clear_gateway = λ router_id c. (ok tt, c);
  delete_project = λ project_id c. (ok tt, c);
}

abbrev WasAsked : Resource → Asked → Type 0
WasAsked r c = contains c r.id ≡ true

asks :
    (r : Resource) (c : Asked) → WasAsked r (prepared_delete asking simple_retry floating_ip r c).1
unfolding prepared_delete delete_resource
asks r c =
    retried-result (λ x. WasAsked r x.1) simple_retry (asked_delete r.id) c
      (λ v. ground (arith, ==_iff r.id r.id))

noted : (r s : Resource) → Holds (WasAsked r) (prepared_delete asking simple_retry floating_ip s)
unfolding prepared_delete delete_resource
noted r s = retried-Holds (WasAsked r) simple_retry (asked_delete s.id) (λ c p. ground (arith, p))

abbrev asked_world : World Asked Memory
asked_world = record { cloud = []; store = []; ctx = sample_world.ctx }

run_step_isolates_example :
    (ds : List Deletion) × (u : World Asked Memory) × (run_step asking simple_retry "p1" floating_ip
        asked_world
      ≡ (ok ds, u))
    × (length ds ≡ length (wanted floating_ip listing))
    × All (λ r. WasAsked r u.cloud) (wanted floating_ip listing)
unfolding list_or_skip retried simple_retry
run_step_isolates_example =
    run_step_isolates asking simple_retry WasAsked "p1" floating_ip asks noted asked_world
      asked_world listing refl

-- A cloud of floating IPs, and whether the project is there.
abbrev Held : Type 0
Held = List Resource × Bool

string_dec : Discrete String
unfolding string_eq
string_dec = string_eq.dec

Resource-discrete : Discrete Resource
Resource-discrete = hlevel string_dec

instance resource_eq : Eq Resource
unfolding Resource-discrete string_dec
resource_eq = record { dec = Resource-discrete }

abbrev without : String → List Resource → List Resource
without id rs = keep (λ (s : Resource). not (s.id == id)) rs

abbrev held_resources : Kind → String → Act Held (List Resource)
held_resources floating_ip project_id c = (ok c.0, c)
held_resources kind project_id c = (raised endpoint_not_found, c)

abbrev holding : Inventory Held
holding = record {
  servers = λ project_id c. (ok [], c);
  volumes = λ project_id c. (ok [], c);
  resources = held_resources;
  delete = λ kind id c. (ok tt, (without id (c.0), c.1));
  ports = λ router_id c. (ok [], c);
  remove_interface = λ router_id subnet_id c. (ok tt, c);
  clear_gateway = λ router_id c. (ok tt, c);
  delete_project = λ project_id c. (ok tt, (c.0, false));
}

abbrev IsGone : Kind → Resource → Held → Type 0
IsGone floating_ip r c = contains (c.0) r ≡ false
IsGone kind r c = Unit

without-contains :
    (id : String) (r : Resource) (rs : List Resource)
    → contains (without id rs) r ≡ (not (r.id == id) && contains rs r)
without-contains id r [] = ground arith
without-contains id r (s ∷ rs) = elim (Bool-cases (r == s)) [
  | inl same ↦
      let e : r ≡ s = (==_iff r s).0 same in
      let i : (r.id == id) ≡ (s.id == id) = ap (λ (x : Resource). x.id == id) e in
      ground (arith, same, i, without-contains id r rs)
  | inr other ↦ ground (arith, other, without-contains id r rs)
]

contains-Has : (r : Resource) (rs : List Resource) → contains rs r ≡ true → Has r rs
contains-Has r [] h = cc
contains-Has r (s ∷ rs) h = elim (Bool-cases (r == s)) [
  | inl same ↦ inl ((==_iff r s).0 same)
  | inr other ↦ inr (contains-Has r rs (ground (arith, h, other)))
]

found :
    (c : Held) (r : Resource) (rs : List Resource) → c.0 ≡ rs → IsGone floating_ip r c ⊎ Has r rs
found c r rs e = elim (Bool-cases (contains (c.0) r)) [
  | inl there ↦ inr (contains-Has r rs (subst (λ x. contains x r ≡ true) e there))
  | inr other ↦ inl other
]

ip_listing : (r : Resource) → Listing holding floating_ip "p1" r (IsGone floating_ip r)
ip_listing r = record {
  listed =
      λ c c' rs h. found c' r rs (ap (λ x. x.1.0) (sym h) ∙ listed_as (c.0) rs (ap (λ x. x.0) h));
  unlisted = λ c c' h. cc;
}
  where
    listed_as : (xs rs : List Resource) → ◌≡◌ {A = Result (List Resource)} (ok xs) (ok rs) → xs ≡ rs
    listed_as xs rs h = cc

held_listing : (kind : Kind) (r : Resource) → Listing holding kind "p1" r (IsGone kind r)
held_listing floating_ip r = ip_listing r
held_listing snapshot r = record { listed = λ c c' rs h. cc; unlisted = λ c c' h. tt }
held_listing router r = record { listed = λ c c' rs h. cc; unlisted = λ c c' h. tt }
held_listing subnet r = record { listed = λ c c' rs h. cc; unlisted = λ c c' h. tt }
held_listing network r = record { listed = λ c c' rs h. cc; unlisted = λ c c' h. tt }
held_listing security_group r = record { listed = λ c c' rs h. cc; unlisted = λ c c' h. tt }

still_gone :
    (kind : Kind) (r : Resource) (id : String) (c : Held)
    → IsGone kind r c
    → IsGone kind r (without id (c.0), c.1)
still_gone floating_ip r id c p = without-contains id r (c.0) ∙ ground (arith, p)
still_gone snapshot r id c p = tt
still_gone router r id c p = tt
still_gone subnet r id c p = tt
still_gone network r id c p = tt
still_gone security_group r id c p = tt

same_held : (kind : Kind) (r : Resource) (c : Held) → IsGone kind r c → IsGone kind r (c.0, false)
same_held floating_ip r c p = p
same_held snapshot r c p = tt
same_held router r c p = tt
same_held subnet r c p = tt
same_held network r c p = tt
same_held security_group r c p = tt

listing_keeps :
    (kind k : Kind) (r : Resource) (project_id : String)
    → Holds (IsGone kind r) (held_resources k project_id)
listing_keeps kind floating_ip r project_id c p = p
listing_keeps kind snapshot r project_id c p = p
listing_keeps kind router r project_id c p = p
listing_keeps kind subnet r project_id c p = p
listing_keeps kind network r project_id c p = p
listing_keeps kind security_group r project_id c p = p

held_keeps : (kind : Kind) (r : Resource) → Keeps holding (IsGone kind r)
held_keeps kind r = record {
  resources-keeps = λ k project_id c p. listing_keeps kind k r project_id c p;
  delete-keeps = λ k id c p. still_gone kind r id c p;
  ports-keeps = λ id c p. p;
  interface-keeps = λ id subnet_id c p. p;
  gateway-keeps = λ id c p. p;
  project-keeps = λ project_id c p. same_held kind r c p;
}

now_gone : (kind : Kind) (r : Resource) (c : Held) → IsGone kind r (without r.id (c.0), c.1)
now_gone floating_ip r c = without-contains r.id r (c.0) ∙ ground (arith, ==_iff r.id r.id)
now_gone snapshot r c = tt
now_gone router r c = tt
now_gone subnet r c = tt
now_gone network r c = tt
now_gone security_group r c = tt

held_deleting : (kind : Kind) (r : Resource) → Deleting holding kind r.id (IsGone kind r)
held_deleting kind r = record {
  delete-ends = λ c _. now_gone kind r c;
  ports-misses = λ _ c h. cc;
  interface-misses = λ _ subnet_id c h. cc;
  gateway-misses = λ _ c h. cc;
}

holding-IsTrue : IsTrue holding "p1" IsGone (λ c. c.1 ≡ false)
holding-IsTrue = record {
  listing = held_listing;
  keeps = held_keeps;
  deleting = held_deleting;
  project-ends = λ c _. refl;
}

abbrev held_world : World Held Memory
held_world = record { cloud = (listing, true); store = []; ctx = sample_world.ctx }

abbrev torn_down :
    (actions : List Action) × (v : World Held Memory) × (teardown_online holding simple_retry
        project "p1" held_world
      ≡ (ok actions, v))
unfolding teardown_online simple_retry string_eq
torn_down = ok_witness (teardown_online holding simple_retry project "p1" held_world) refl

teardown_online-gone_example :
    ((kind : Kind) (r : Resource) → skipped? kind r ≡ false → IsGone kind r torn_down.1.cloud)
    × (torn_down.1.cloud.1 ≡ false)
teardown_online-gone_example =
    teardown_online-gone holding simple_retry project "p1" IsGone (λ c. c.1 ≡ false) holding-IsTrue
      held_world torn_down.1 torn_down.0 torn_down.2
