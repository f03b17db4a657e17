-- ===== src/Store/Memory.antt =====
-- `InMemoryStateStore` of src/state_store.py: the dicts of all projects in one dict.
use openstack_tenantctl.Base.{
  Option, none, some, List, [], ◌∷◌, ◌≡◌, refl, arith, String, ◌==◌, string_eq, if◌then◌else◌,
  Result, ok, raised, Exc, value_error, Act,
}
use openstack_tenantctl.Base.Dict
use openstack_tenantctl.Base.Dict.{Dict}
use openstack_tenantctl.Base.Int.{ℤ}
use openstack_tenantctl.Store.{
  Value, num, mapping, Fields, end, PyValue, serialize_value, get, put, child, set_path,
}
use openstack_tenantctl.Store.Path.{get-put_self}
use openstack_tenantctl.Store.Interface.{StateStore, IsLawful}

abbrev pub Memory : Type 0
Memory = Dict String Fields

or_empty : Option Fields → Fields
or_empty none = end
or_empty (some d) = d

-- A copy, so a caller cannot change the store through it.
unfoldable pub load : String → Memory → Fields
unfolding or_empty Dict.get
load state_key s = or_empty (Dict.get state_key s)

-- The dicts on the way to the last key, which are made before the value is looked at.
unfoldable pub make_parents : String → List String → Fields → Fields
unfolding child
make_parents k [] d = d
make_parents k (j ∷ ks) d = put k (mapping (make_parents j ks (child (get k d)))) d

written : String → List String → Result Value → Fields → Fields
unfolding make_parents set_path
written k ks (ok v) d = set_path k ks v d
written k ks (raised e) d = make_parents k ks d

abbrev pub done : Result Value → Result (Unit {0})
done (ok v) = ok tt
done (raised e) = raised e

unfoldable pub save : String → List String → PyValue → Act Memory (Unit {0})
unfolding written serialize_value load Dict.put
save state_key [] value s = (raised (value_error "key_path must not be empty"), s)
save state_key (k ∷ ks) value s =
    let v = serialize_value value in
    (done v, Dict.put state_key (written k ks v (load state_key s)) s)

load-put :
    (i j : String) (d : Fields) (s : Memory)
    → load i (Dict.put j d s) ≡ (if i == j then d else load i s)
unfolding load
load-put i j d s = rw Dict.get-put (ground arith)

-- A save that returns has written its value at its path, and no save touches another project.
pub load-save :
    (i j k : String) (ks : List String) (value : PyValue) (v : Value) (s : Memory)
    → serialize_value value ≡ ok v
    → ((save j (k ∷ ks) value s).0 ≡ ok tt)
      × (load i (save j (k ∷ ks) value s).1
          ≡ (if i == j then set_path k ks v (load i s) else load i s))
unfolding save
load-save i j k ks value v s e =
    rw e (refl, ground (arith, load-put i j (set_path k ks v (load j s)) s))

unfoldable pub memory_store : StateStore Memory
unfolding load save
memory_store = record { load = load; save = save }

-- Every value of the type is a sound store.
pub memory_store-IsLawful : IsLawful memory_store (λ s. Unit)
unfolding memory_store
memory_store-IsLawful = record {
  save-empty = λ j value s. unfold save in refl;
  save-returns = λ j k ks value v s sound e. (load-save j j k ks value v s e).0;
  load-save = λ i j k ks value v s sound e. (load-save i j k ks value v s e).1;
  save-Sound = λ j k ks value v s sound e. tt;
}

-- A save of a value that is refused, at a path of two keys or more, raises, and has still replaced a number at
-- the first key by a dict that has no more than the other keys of the path but the last.
pub save_refused_overwrites :
    (key k j : String) (ks : List String) (value : PyValue) (e : Exc) (n : ℤ) (s : Memory)
    → serialize_value value ≡ raised e
    → get k (load key s) ≡ some (num n)
    → ((save key (k ∷ j ∷ ks) value s).0 ≡ raised e)
      × (get k (load key (save key (k ∷ j ∷ ks) value s).1)
          ≡ some (mapping (make_parents j ks end)))
unfolding save written make_parents
save_refused_overwrites key k j ks value e n s refused h = rw refused (
  refl,
  rw (load-put, h) (ground (arith, get-put_self k (mapping (make_parents j ks end)) (load key s))),
)
