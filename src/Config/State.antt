-- ===== src/Config/State.antt =====
-- What the state file adds to a configuration, and what it takes from one: `_load_state_into_config` of
-- src/config_loader.py.
use openstack_tenantctl.Base.{
  Option, none, some, List, [], ◌∷◌, String, string_eq, Act, pure, ◌>>=◌, ◌>>◌,
}
use openstack_tenantctl.Store.{Value, Fields, plain, get, put}
use openstack_tenantctl.Store.Interface.{StateStore}

-- A frozenset in the source, which is gone through in this order.
abbrev pub state_keys : List String
state_keys =
    "preallocated_fips" ∷ "released_fips" ∷ "router_ips" ∷ "released_router_ips"
    ∷ "granted_flavor_access" ∷ "revoked_flavor_access" ∷ []

module _ {S : Type 0} (st : StateStore S) where
  -- What the state file and what the project's own file have at a key.
  unfoldable pub merge_key : String → String → Fields → Option Value → Option Value → Act S Fields
  unfolding put
  merge_key state_key key merged (some value) raw = pure (put key value merged)
  merge_key state_key key merged none (some value) = do
    st.save state_key (key ∷ []) (plain value)
    pure (put key value merged)
  merge_key state_key key merged none none = pure merged

  unfoldable pub merge_keys : String → Fields → Fields → List String → Fields → Act S Fields
  unfolding merge_key get
  merge_keys state_key state_data raw [] merged = pure merged
  merge_keys state_key state_data raw (key ∷ keys) merged = do
    merged' ← merge_key state_key key merged (get key state_data) (get key raw)
    merge_keys state_key state_data raw keys merged'

  -- `state_key` is `merged["_state_key"]`.
  unfoldable pub load_state_into_config : String → Fields → Fields → Act S Fields
  unfolding merge_keys
  load_state_into_config state_key merged raw s =
      merge_keys state_key (st.load state_key s) raw state_keys merged s
