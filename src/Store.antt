-- ===== src/Store.antt =====
-- The values of a state file, and what `save` does to the dict of one project: `_serialize_value`
-- and the traversal that both stores of src/state_store.py share.
pub mod Path
pub mod Interface
pub mod Memory
pub mod Yaml
pub mod Agreement
mod Tests
use openstack_tenantctl.Base.{
  Bool, Option, none, some, List, [], ◌∷◌, String, ◌==◌, string_eq, if◌then◌else◌, Result, ok,
  raised, type_error,
}
use openstack_tenantctl.Base.Int.{ℤ}

mutual
  -- What yaml can write: null, booleans, numbers, texts, lists and mappings.
  pub data Value : Type 0 where
    null : Value
    boolean : Bool → Value
    num : ℤ → Value
    str : String → Value
    sequence : Items → Value
    mapping : Fields → Value

  pub data Items : Type 0 where
    no_items : Items
    item : Value → Items → Items

  -- A dict in insertion order.
  pub data Fields : Type 0 where
    end : Fields
    field : String → Value → Fields → Fields

-- The argument of `save`: an enum member and an address object stand for a plain value.
pub data PyValue : Type 0 where
  plain : Value → PyValue
  enum_member : Value → PyValue
  ip_object : String → PyValue
  dataclass_instance : String → PyValue

unfoldable pub serialize_value : PyValue → Result Value
serialize_value (plain v) = ok v
serialize_value (enum_member v) = ok v
serialize_value (ip_object text) = ok (str text)
serialize_value (dataclass_instance class_name) = raised (type_error class_name)

-- d.get(k)
unfoldable pub get : String → Fields → Option Value
get k end = none
get k (field j v d) = if k == j then some v else get k d

-- d[k] = v
unfoldable pub put : String → Value → Fields → Fields
put k v end = field k v end
put k v (field j w d) = if k == j then field j v d else field j w (put k v d)

-- The dict at a key on the way, which is a new one if the key is absent or no dict.
unfoldable pub child : Option Value → Fields
child (some (mapping d)) = d
child _ = end

-- current = current[key] for the keys but the last, then current[last] = value. The first key
-- stands apart, since the path is not empty.
unfoldable pub set_path : String → List String → Value → Fields → Fields
unfolding child get put
set_path k [] v d = put k v d
set_path k (j ∷ ks) v d = put k (mapping (set_path j ks v (child (get k d)))) d

-- What a reader finds at a path.
unfoldable pub get_path : String → List String → Fields → Option Value
unfolding child
get_path k [] d = get k d
get_path k (j ∷ ks) d = get_path j ks (child (get k d))
