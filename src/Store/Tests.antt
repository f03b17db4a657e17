-- ===== src/Store/Tests.antt =====
-- Runs of the stores, and their theorems at concrete data.
use openstack_tenantctl.Base.{
  Option, some, List, [], ◌∷◌, ◌≡◌, refl, arith, string_eq, raised, type_error,
}
use openstack_tenantctl.Base.Dict
use openstack_tenantctl.Base.Int.{pos}
use openstack_tenantctl.Store.{
  Value, str, num, sequence, no_items, item, serialize_value, mapping, Fields, end, field, plain,
  ip_object, dataclass_instance, get,
}
use openstack_tenantctl.Store.Interface.{Write, run_writes}
use openstack_tenantctl.Store.Memory
use openstack_tenantctl.Store.Memory.{Memory, memory_store, save_refused_overwrites}
use openstack_tenantctl.Store.Yaml
use openstack_tenantctl.Store.Yaml.{Pyyaml, Files, Sound, yaml_store, save_refused, save_broken}
use openstack_tenantctl.Store.Agreement.{load-yaml-eq-memory}

-- A pyyaml whose texts are the values themselves; `none` is a corrupt text.
abbrev mirror : Pyyaml
mirror = record {
  Text = Option Value;
  safe_load = λ t. t;
  safe_dump = λ d. some (mapping d);
  safe_load-safe_dump = λ d. refl;
}

abbrev writes : List Write
writes =
    record {
      state_key = "dev";
      first = "metadata";
      rest = "project_id" ∷ [];
      value = plain (str "p1");
    }
    ∷ record { state_key = "dev"; first = "router_ip"; rest = []; value = ip_object "10.0.0.1" }
    ∷ record { state_key = "prod"; first = "metadata"; rest = []; value = plain (num (pos 4)) }
    ∷ []

after_writes :
    Memory.load "dev" (run_writes memory_store writes [])
    ≡ field "metadata"
        (mapping (field "project_id" (str "p1") end))
        (field "router_ip" (str "10.0.0.1") end)
unfolding run_writes memory_store string_eq
after_writes = refl

load-yaml-eq-memory_example :
    Yaml.load mirror "dev" (run_writes (yaml_store mirror) writes [])
    ≡ Memory.load "dev" (run_writes memory_store writes [])
unfolding Yaml.load Yaml.save Memory.load
load-yaml-eq-memory_example =
    load-yaml-eq-memory mirror writes [] []
      ((str "p1", refl), ((str "10.0.0.1", refl), ((num (pos 4), refl), tt))) (λ key. refl)
      (λ i. refl) "dev"

abbrev seeded : Memory
seeded = ("dev", field "a" (num (pos 5)) end) ∷ []

save_refused_overwrites_example :
    ((Memory.save "dev" ("a" ∷ "b" ∷ []) (dataclass_instance "FipEntry") seeded).0
      ≡ raised (type_error "FipEntry"))
    × (get "a" (
          Memory.load "dev"
            (Memory.save "dev" ("a" ∷ "b" ∷ []) (dataclass_instance "FipEntry") seeded).1)
        ≡ some (mapping end))
unfolding Memory.load get string_eq serialize_value Memory.make_parents
save_refused_overwrites_example =
    save_refused_overwrites "dev" "a" "b" [] (dataclass_instance "FipEntry") (type_error "FipEntry")
      (pos 5) seeded refl refl

abbrev nested : Fields
nested = field "metadata" (mapping (field "domain_id" (str "d") end)) end

-- A file that holds a mapping, and a file that holds a list.
abbrev mapped : Files mirror
mapped = ("dev", some (mapping nested)) ∷ []

abbrev broken : Files mirror
broken = ("dev", some (sequence (item (num (pos 1)) no_items))) ∷ []

mapped-Sound : Sound mirror mapped
unfolding Yaml.current Yaml.load string_eq
mapped-Sound key = ground arith

save_broken_example :
    (Yaml.load mirror "dev" broken ≡ end)
    × (Yaml.save mirror "dev" ("a" ∷ []) (plain (str "x")) broken
        ≡ (raised (type_error "item assignment"), broken))
unfolding serialize_value string_eq Dict.get
save_broken_example =
    save_broken mirror "dev" "a" [] (plain (str "x"))
      (some (sequence (item (num (pos 1)) no_items))) (num (pos 1)) no_items (str "x") broken refl
      refl refl
