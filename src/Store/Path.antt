-- ===== src/Store/Path.antt =====
-- Reading at a path after a write at a path.
use openstack_tenantctl.Base.{
  some, List, [], ◌∷◌, ◌≡◌, ◌≢◌, refl, ap, ◌⊎◌, inl, inr, arith, String, ◌==◌, string_eq,
  if◌then◌else◌,
}
use openstack_tenantctl.Store.{Value, Fields, end, field, get, put, child, set_path, get_path}

pub get-put :
    (j k : String) (v : Value) (d : Fields)
    → get j (put k v d) ≡ (if j == k then some v else get j d)
unfolding get put
get-put j k v end = refl
get-put j k v (field i w d) = ground (arith, get-put j k v d)

pub get-put_self : (k : String) (v : Value) (d : Fields) → get k (put k v d) ≡ some v
get-put_self k v d = ground (arith, get-put k k v d)

-- A write is read back at its path.
pub get_path-set_path :
    (k : String) (ks : List String) (v : Value) (d : Fields)
    → get_path k ks (set_path k ks v d) ≡ some v
unfolding get_path set_path
get_path-set_path k [] v d = get-put_self k v d
get_path-set_path k (j ∷ ks) v d =
    rw (get-put_self, child) (get_path-set_path j ks v (child (get k d)))

-- Two paths that part before either ends.
abbrev pub Parts : String → List String → String → List String → Type 0
Parts k [] j js = k ≢ j
Parts k (i ∷ ks) j [] = k ≢ j
Parts k (i ∷ ks) j (i' ∷ js) = (k ≢ j) ⊎ ((k ≡ j) × Parts i ks i' js)

pub get-put_ne : (j k : String) (v : Value) (d : Fields) → k ≢ j → get j (put k v d) ≡ get j d
get-put_ne j k v d n = ground (arith, get-put j k v d)

-- It leaves every path that parts from its own as it was.
pub get_path-set_path_ne :
    (k : String) (ks : List String) (j : String) (js : List String) (v : Value) (d : Fields)
    → Parts k ks j js
    → get_path j js (set_path k ks v d) ≡ get_path j js d
unfolding get_path set_path
get_path-set_path_ne k [] j [] v d p = get-put_ne j k v d p
get_path-set_path_ne k [] j (i' ∷ js) v d p =
    ap (λ o. get_path i' js (child o)) (get-put_ne j k v d p)
get_path-set_path_ne k (i ∷ ks) j [] v d p = get-put_ne j k _ d p
get_path-set_path_ne k (i ∷ ks) j (i' ∷ js) v d (inl p) =
    ap (λ o. get_path i' js (child o)) (get-put_ne j k _ d p)
get_path-set_path_ne k (i ∷ ks) j (i' ∷ js) v d (inr (e, p)) =
    rw (← e) (rw get-put_self (get_path-set_path_ne i ks i' js v (child (get k d)) p))

pub put-put : (k : String) (v w : Value) (d : Fields) → put k v (put k w d) ≡ put k v d
unfolding put
put-put k v w end = ground arith
put-put k v w (field j u d) = ground (arith, put-put k v w d)

-- The last of two writes at one path is the one that counts.
pub set_path-set_path :
    (k : String) (ks : List String) (v w : Value) (d : Fields)
    → set_path k ks v (set_path k ks w d) ≡ set_path k ks v d
unfolding set_path
set_path-set_path k [] v w d = put-put k v w d
set_path-set_path k (j ∷ ks) v w d =
    rw (get-put_self, put-put) (rw (set_path-set_path j ks v w (child (get k d))))
