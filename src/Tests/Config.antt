-- ===== src/Tests/Config.antt =====
-- The resolution of a configuration at concrete data.
use openstack_tenantctl.Base.{[], ◌∷◌, ◌≡◌, refl, string_eq, ok, All}
use openstack_tenantctl.Base.Dict
use openstack_tenantctl.Base.Int.{pos}
use openstack_tenantctl.Store.{
  str, num, sequence, mapping, Items, no_items, item, Fields, end, field, get, put,
}
use openstack_tenantctl.Context.{lit, int}
use openstack_tenantctl.Config.Presets.{Errors, expand_security_group_rules}
use openstack_tenantctl.Config.State.{state_keys, load_state_into_config}
use openstack_tenantctl.Config.Migrated.{first_of, load_state_into_config_again}
use openstack_tenantctl.Store.Memory.{Memory, memory_store, memory_store-IsLawful}
use openstack_tenantctl.Config.Again.{expand_security_group_rules_again}

abbrev with_rules : Items → Fields
with_rules rules = field "name" (str "dev") (
    field "security_group"
      (mapping (field "name" (str "default") (field "rules" (sequence rules) end))) end)

-- A preset, a preset with another port, and a preset that is not there.
abbrev presets : Fields
presets = with_rules (
    item (str "ICMP") (
      item (mapping (field "rule" (str "SSH") (field "port_range_min" (num (pos 20)) end)))
        (item (str "Gopher") no_items)))

abbrev expanded : Fields
expanded = with_rules (
    item
      (mapping (
        field "direction" (str "ingress") (
          field "protocol" (str "icmp") (
            field "remote_ip_prefix" (str "0.0.0.0/0")
              (field "description" (str "Allow ICMP") end)))))
      (item
        (mapping (
          field "direction" (str "ingress") (
            field "protocol" (str "tcp") (
              field "port_range_min" (num (pos 20)) (
                field "port_range_max" (num (pos 22)) (
                  field "remote_ip_prefix" (str "0.0.0.0/0")
                    (field "description" (str "Allow SSH") end)))))))
        no_items))

abbrev unknown : Errors
unknown =
    (lit "dev"
      ∷ lit ": security_group.rules["
      ∷ int (pos 2)
      ∷ lit "] "
      ∷ lit "unknown preset '"
      ∷ lit "Gopher"
      ∷ lit "'"
      ∷ [])
    ∷ []

expanding : expand_security_group_rules presets [] ≡ (ok expanded, unknown)
unfolding expand_security_group_rules string_eq Dict.get
expanding = refl

expand_security_group_rules_again_example :
    expand_security_group_rules expanded [] ≡ (ok expanded, [])
expand_security_group_rules_again_example =
    expand_security_group_rules_again presets expanded [] unknown [] expanding

-- The state file has a list of router addresses, and the project's own file another and released ones.
abbrev observed : Memory
observed = ("dev", field "router_ips" (sequence (item (str "r1") no_items)) end) ∷ []

abbrev own_file : Fields
own_file =
    field "router_ips" (sequence no_items)
      (field "released_router_ips" (sequence (item (str "r0") no_items)) end)

abbrev migrated : Fields
migrated =
    field "router_ips" (sequence (item (str "r1") no_items))
      (field "released_router_ips" (sequence (item (str "r0") no_items)) end)

migrating :
    load_state_into_config memory_store "dev" end own_file observed
    ≡ (ok migrated, ("dev", migrated) ∷ [])
unfolding load_state_into_config memory_store Dict.get Dict.put get put string_eq
migrating = refl

load_state_into_config_again_example :
    (loaded : Fields) × (s' : Memory) × (load_state_into_config memory_store "dev" end own_file
        observed
      ≡ (ok loaded, s'))
    × (load_state_into_config memory_store "dev" end own_file s' ≡ (ok loaded, s'))
    × All
        (λ k.
          get k (memory_store.load "dev" s')
          ≡ first_of (get k (memory_store.load "dev" observed)) (get k own_file))
        state_keys
load_state_into_config_again_example =
    load_state_into_config_again memory_store memory_store-IsLawful "dev" end own_file observed tt
