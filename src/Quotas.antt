-- ===== src/Quotas.antt =====
-- The quotas of a project: src/resources/quotas.py. The quota calls of the services are a parameter.
-- An attribute of a quota object is None, a number, or anything else.
pub mod Sets
pub mod Network
pub mod Ensure
pub mod Laws
pub mod Sending
pub mod Settling
pub mod Converging
pub mod Overlay
pub mod Keeping
pub mod NetworkKeeping
pub mod Untouched
use openstack_tenantctl.Base.{
  Bool, true, false, not, ◌||◌, ◌&&◌, Option, none, some, List, [], ◌∷◌, ◌++◌, map, String, Eq,
  ◌==◌, string_eq, if◌then◌else◌, keep, Act, raise, pure, other, ◌>>=◌,
}
use openstack_tenantctl.Base.Dict.{Dict, get, put}
use openstack_tenantctl.Base.Sorting.{sorted_by}
use openstack_tenantctl.Base.Int.{ℤ, pos, int_eq, ltb_ℤ}
use openstack_tenantctl.Context.{Details, Part, lit, int}

pub data Attr : Type 0 where
  nothing : Attr
  number : ℤ → Attr
  text : String → Attr

int_dec : Discrete ℤ
unfolding int_eq
int_dec = int_eq.dec

string_dec : Discrete String
unfolding string_eq
string_dec = string_eq.dec

Attr-discrete : Discrete Attr
Attr-discrete = hlevel (int_dec, string_dec)

instance unfoldable pub attr_eq : Eq Attr
unfolding Attr-discrete int_dec string_dec
attr_eq = record { dec = Attr-discrete }

-- A QuotaSet of Nova or Cinder: its attributes, as `to_dict` gives them too, and its usage if that
-- is a dict.
pub record QuotaSet : Type 0 where
  pub attributes : Dict String Attr
  pub usage : Option (Dict String Attr)

-- The calls of `conn.compute` and of `conn.block_storage`. The Boolean is `usage=True`.
pub record QuotaService (C : Type 0) : Type 0 where
  pub get_quota_set : String → Bool → Act C QuotaSet
  pub update_quota_set : String → Dict String ℤ → Act C (Unit {0})

-- The quota calls of `conn.network` and of `conn.load_balancer`. An attribute of the details is a
-- dict or not.
pub record NetworkQuotas (C : Type 0) : Type 0 where
  pub get_quota : String → Act C (Dict String Attr)
  pub get_quota_details : String → Act C (Dict String (Option (Dict String Attr)))
  pub update_quota : String → Dict String ℤ → Act C (Unit {0})

pub record QuotaCalls (C : Type 0) : Type 0 where
  pub compute : QuotaService C
  pub block_storage : QuotaService C
  pub network : NetworkQuotas C
  pub load_balancer : NetworkQuotas C

module _ {V : Type 0} where
  unfoldable pub keys : Dict String V → List String
  keys [] = []
  keys ((k, v) ∷ d) = k ∷ keys d

unfoldable pub sorted : List String → List String
unfolding sorted_by
sorted xs = sorted_by (λ x. x) xs

unfoldable pub any : (String → Bool) → List String → Bool
any p [] = false
any p (x ∷ xs) = p x || any p xs

-- getattr(quota, k, None), and d.get(k)
unfoldable pub attr_of : String → Dict String Attr → Attr
attr_of k d = elim (get k d) [ none ↦ nothing | some a ↦ a ]

-- {k: getattr(quota, k) for k in desired}
unfoldable pub read_current :
    {W : Type 0} → Dict String Attr → List String → Act W (Dict String Attr)
read_current quota [] = pure []
read_current quota (k ∷ ks) = do
  a ← elim (get k quota) [ none ↦ raise (other "AttributeError") | some a ↦ pure a ]
  rest ← read_current quota ks
  pure ((k, a) ∷ rest)

-- desired[k] != current[k]
unfoldable pub differs : Dict String ℤ → Dict String Attr → String → Bool
unfolding attr_of
differs desired current k = elim (get k desired) [
  | none ↦ false
  | some n ↦ not (attr_of k current == number n)
]

-- isinstance(current[k], int) and desired[k] < current[k]
unfoldable pub below : ℤ → Attr → Bool
below n (number c) = ltb_ℤ n c
below n nothing = false
below n (text s) = false

unfoldable pub is_lowered : Dict String ℤ → Dict String Attr → String → Bool
unfolding attr_of below
is_lowered desired current k = elim (get k desired) [
  | none ↦ false
  | some n ↦ below n (attr_of k current)
]

-- Lowering stops at what is in use.
clamp_to : Attr → String → ℤ → Dict String ℤ → Dict String ℤ
clamp_to (number used) k n desired = if ltb_ℤ n used then put k used desired else desired
clamp_to nothing k n desired = desired
clamp_to (text s) k n desired = desired

unfoldable pub clamp_key : (String → Attr) → String → Dict String ℤ → Dict String ℤ
unfolding clamp_to
clamp_key used_of k desired = elim (get k desired) [
  | none ↦ desired
  | some n ↦ clamp_to (used_of k) k n desired
]

-- The loop over the lowered keys.
unfoldable pub clamp : (String → Attr) → List String → Dict String ℤ → Dict String ℤ
clamp used_of [] desired = desired
clamp used_of (k ∷ ks) desired = clamp used_of ks (clamp_key used_of k desired)

-- The parts of an f-string.
attr_part : Attr → Part
attr_part nothing = lit "None"
attr_part (number n) = int n
attr_part (text s) = lit s

desired_part : String → Dict String ℤ → Part
desired_part k desired = elim (get k desired) [ none ↦ lit "" | some n ↦ int n ]

unfoldable pub joined : String → List Details → Details
joined separator [] = []
joined separator (d ∷ []) = d
joined separator (d ∷ e ∷ rest) = d ++ lit separator ∷ joined separator (e ∷ rest)

unfoldable pub changed_keys : Dict String ℤ → Dict String Attr → List String
unfolding sorted keys differs
changed_keys desired current = keep (differs desired current) (sorted (keys desired))

change_details : Dict String ℤ → Dict String Attr → String → Details
unfolding attr_of attr_part desired_part
change_details desired current k =
    lit k ∷ lit ": " ∷ attr_part (attr_of k current) ∷ lit " → " ∷ desired_part k desired ∷ []

-- "k: old → new, …", over the keys that change.
unfoldable pub diff_details : Dict String ℤ → Dict String Attr → Details
unfolding joined changed_keys change_details
diff_details desired current =
    joined ", " (map (change_details desired current) (changed_keys desired current))

-- "k=value, …"
unfoldable pub current_details : List String → Dict String Attr → Details
unfolding joined sorted attr_of attr_part
current_details ks current =
    joined ", " (map (λ k. lit k ∷ lit "=" ∷ attr_part (attr_of k current) ∷ []) (sorted ks))

unfoldable pub desired_details : Dict String ℤ → Details
unfolding joined sorted keys desired_part
desired_details desired =
    joined ", " (map (λ k. lit k ∷ lit "=" ∷ desired_part k desired ∷ []) (sorted (keys desired)))

-- A dict as Python prints it.
unfoldable pub printed : Dict String ℤ → Details
unfolding joined
printed desired =
    lit "{" ∷ joined ", " (map (λ e. lit "'" ∷ lit e.0 ∷ lit "': " ∷ int e.1 ∷ []) desired)
    ++ lit "}" ∷ []
