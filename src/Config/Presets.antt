-- ===== src/Config/Presets.antt =====
-- The presets of security group rules: `PREDEFINED_RULES` and `expand_security_group_rules` of
-- src/config_resolver.py. The list of errors that a function appends to is what it changes.
use openstack_tenantctl.Base.{
  ℕ, suc, Option, none, some, List, [], ◌∷◌, ◌++◌, String, ◌<>◌, ◌==◌, string_eq, if◌then◌else◌,
  type_error, ok, Act, pure, raise, ◌>>=◌,
}
use openstack_tenantctl.Base.Dict
use openstack_tenantctl.Base.Dict.{Dict}
use openstack_tenantctl.Base.Int.{pos}
use openstack_tenantctl.Store.{
  Value, null, boolean, num, str, sequence, mapping, Items, no_items, item, Fields, end, field, get,
  put,
}
use openstack_tenantctl.Context.{Details, lit, int}
use openstack_tenantctl.ExternalNetwork.{is_empty}

rule_tail : String → Fields
rule_tail description =
    field "remote_ip_prefix" (str "0.0.0.0/0") (field "description" (str description) end)

ranged : String → ℕ → ℕ → String → Fields
unfolding rule_tail
ranged protocol low high description = field "direction" (str "ingress") (
    field "protocol" (str protocol) (
      field "port_range_min" (num (pos low))
        (field "port_range_max" (num (pos high)) (rule_tail description))))

icmp_rule : Fields
unfolding rule_tail
icmp_rule =
    field "direction" (str "ingress") (field "protocol" (str "icmp") (rule_tail "Allow ICMP"))

unfoldable pub predefined_rules : Dict String Fields
unfolding ranged icmp_rule
predefined_rules =
    ("SSH", ranged "tcp" 22 22 "Allow SSH")
    ∷ ("HTTP", ranged "tcp" 80 80 "Allow HTTP")
    ∷ ("HTTPS", ranged "tcp" 443 443 "Allow HTTPS")
    ∷ ("ICMP", icmp_rule)
    ∷ ("All ICMP", icmp_rule)
    ∷ ("All TCP", ranged "tcp" 1 65535 "Allow all TCP")
    ∷ ("All UDP", ranged "udp" 1 65535 "Allow all UDP")
    ∷ ("DNS", ranged "udp" 53 53 "Allow DNS")
    ∷ ("RDP", ranged "tcp" 3389 3389 "Allow RDP")
    ∷ []

-- `type(entry).__name__`
entry_type : Value → String
entry_type null = "NoneType"
entry_type (boolean b) = "bool"
entry_type (num n) = "int"
entry_type (str s) = "str"
entry_type (sequence xs) = "list"
entry_type (mapping d) = "dict"

printed_name : Value → Details
printed_name null = lit "None" ∷ []
printed_name (boolean b) = lit (if b then "True" else "False") ∷ []
printed_name (num n) = int n ∷ []
printed_name (str s) = lit s ∷ []
printed_name _ = []

abbrev pub Errors : Type 0
Errors = List Details

unfoldable pub append_error : Details → Act Errors (List Value)
append_error error errors = (ok [], errors ++ error ∷ [])

-- PREDEFINED_RULES.get(name), of a name that may be any value; a list or a dict is no key.
unfoldable pub find_preset : Value → Act Errors (Option Fields)
unfolding predefined_rules
find_preset (str name) = pure (Dict.get name predefined_rules)
find_preset (sequence xs) = raise (type_error "unhashable type: 'list'")
find_preset (mapping d) = raise (type_error "unhashable type: 'dict'")
find_preset _ = pure none

-- The explicit fields override the preset's.
unfoldable pub merge_rule : Fields → Fields → Fields
unfolding put
merge_rule merged end = merged
merge_rule merged (field key value entry) =
    merge_rule (if key == "rule" then merged else put key value merged) entry

error_at : String → ℕ → Details → Details
error_at label idx what =
    lit label ∷ lit ": security_group.rules[" ∷ int (pos idx) ∷ lit "] " ∷ what

unfoldable pub or_unknown : String → ℕ → Value → Fields → Option Fields → Act Errors (List Value)
unfolding append_error error_at printed_name merge_rule
or_unknown label idx name entry none =
    append_error (error_at label idx (lit "unknown preset '" ∷ (printed_name name ++ lit "'" ∷ [])))
or_unknown label idx name entry (some preset) = pure (mapping (merge_rule preset entry) ∷ [])

unfoldable pub expand_named : String → ℕ → Fields → Option Value → Act Errors (List Value)
unfolding find_preset or_unknown
expand_named label idx entry none = pure (mapping entry ∷ [])
expand_named label idx entry (some null) = pure (mapping entry ∷ [])
expand_named label idx entry (some name) = do
  preset ← find_preset name
  or_unknown label idx name entry preset

-- What a rule of the configuration adds to the expanded ones.
unfoldable pub expand_entry : String → ℕ → Value → Act Errors (List Value)
unfolding find_preset or_unknown expand_named get append_error error_at entry_type
expand_entry label idx (str name) = do
  preset ← find_preset (str name)
  or_unknown label idx (str name) end preset
expand_entry label idx (mapping entry) = expand_named label idx entry (get "rule" entry)
expand_entry label idx entry =
    append_error
      (error_at label idx (lit "must be a string or mapping, got " ∷ lit (entry_type entry) ∷ []))

unfoldable pub add_items : List Value → Items → Items
add_items [] items = items
add_items (v ∷ vs) items = item v (add_items vs items)

unfoldable pub expand_rules : String → ℕ → Items → Act Errors Items
unfolding expand_entry add_items
expand_rules label idx no_items = pure no_items
expand_rules label idx (item entry rules) = do
  expanded ← expand_entry label idx entry
  rest ← expand_rules label (suc idx) rules
  pure (add_items expanded rest)

state_key_label : Option Value → String
unfolding is_empty
state_key_label (some (str state_key)) =
    if is_empty state_key then "<unknown>" else state_key <> ".yaml"
state_key_label _ = "<unknown>"

-- `_state_key` is a text, which the loader sets.
project_label : Fields → Option Value → String
unfolding state_key_label get is_empty
project_label project (some (str name)) =
    if is_empty name then state_key_label (get "_state_key" project) else name
project_label project _ = state_key_label (get "_state_key" project)

unfoldable pub expand_rules_of : Fields → Fields → Option Value → Act Errors Fields
unfolding expand_rules project_label get put
expand_rules_of project sg (some (sequence rules)) = do
  expanded ← expand_rules (project_label project (get "name" project)) 0 rules
  pure (put "security_group" (mapping (put "rules" (sequence expanded) sg)) project)
expand_rules_of project sg _ = pure project

unfoldable pub expand_group : Fields → Option Value → Act Errors Fields
unfolding expand_rules_of get
expand_group project (some (mapping sg)) = expand_rules_of project sg (get "rules" sg)
expand_group project _ = pure project

unfoldable pub expand_security_group_rules : Fields → Act Errors Fields
unfolding expand_group get
expand_security_group_rules project = expand_group project (get "security_group" project)
