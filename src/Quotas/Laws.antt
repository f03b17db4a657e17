-- ===== src/Quotas/Laws.antt =====
-- Lemmas on the dicts of quotas: the keys that differ, those that are lowered, and clamping.
use openstack_tenantctl.Base.{
  Bool, true, false, ◌&&◌, ◌||◌, Option, none, some, List, [], ◌∷◌, ◌≡◌, refl, sym, ◌∙◌, ap, arith,
  String, ◌==◌, contains, string_eq, if◌then◌else◌, keep, ok,
}
use openstack_tenantctl.Base.Dict.{Dict, get, get-put}
use openstack_tenantctl.Base.Sorting.{insert_by, sorted_by}
use openstack_tenantctl.Base.Int.{ℤ, int_eq, ltb_ℤ}
use openstack_tenantctl.Quotas.{
  Attr, nothing, number, text, attr_eq, keys, sorted, any, attr_of, read_current, differs, below,
  is_lowered, clamp_to, clamp_key, clamp,
}

any-insert_by :
    (p : String → Bool) (x : String) (ys : List String)
    → any p (insert_by (λ y. y) x ys) ≡ (p x || any p ys)
unfolding any insert_by
any-insert_by p x [] = refl
any-insert_by p x (y ∷ ys) = ground (arith, any-insert_by p x ys)

pub any-sorted : (p : String → Bool) (xs : List String) → any p (sorted xs) ≡ any p xs
unfolding any sorted sorted_by
any-sorted p [] = refl
any-sorted p (x ∷ xs) =
    any-insert_by p x (sorted_by (λ y. y) xs) ∙ ap (λ b. p x || b) (any-sorted p xs)

pub any-keep : (p : String → Bool) (xs : List String) → keep p xs ≡ [] → any p xs ≡ false
unfolding any
any-keep p [] h = refl
any-keep p (x ∷ xs) h = ground (arith, any-keep p xs)

pub keep-any : (p : String → Bool) (xs : List String) → any p xs ≡ false → keep p xs ≡ []
unfolding any
keep-any p [] h = refl
keep-any p (x ∷ xs) h = ground (arith, keep-any p xs)

pub any-false :
    (p : String → Bool) (xs : List String) → ((x : String) → p x ≡ false) → any p xs ≡ false
unfolding any
any-false p [] h = refl
any-false p (x ∷ xs) h = ground (arith, h x, any-false p xs h)

any-contains :
    (p : String → Bool) (xs : List String) (x : String)
    → any p xs ≡ false
    → contains xs x ≡ true
    → p x ≡ false
unfolding any
any-contains p [] x h c = cc
any-contains p (y ∷ ys) x h c = ground (arith, any-contains p ys x)

pub contains-keep :
    (p : String → Bool) (xs : List String) (x : String)
    → contains (keep p xs) x ≡ (contains xs x && p x)
contains-keep p [] x = refl
contains-keep p (y ∷ ys) x = ground (arith, contains-keep p ys x)

module _ {V : Type 0} where
  pub contains-keys :
      (k : String) (v : V) (d : Dict String V) → get k d ≡ some v → contains (keys d) k ≡ true
  unfolding get keys
  contains-keys k v [] h = cc
  contains-keys k v ((j, w) ∷ d) h = ground (arith, contains-keys k v d)

module _ {V : Type 0} where
  pub keys-contains :
      (k : String) (d : Dict String V) → contains (keys d) k ≡ true → (v : V) × (get k d ≡ some v)
  unfolding get keys
  keys-contains k [] h = cc
  keys-contains k ((j, w) ∷ d) h =
      found (k == j) (get k d) (λ c. keys-contains k d (ground (arith, h, c)))
    where
      found :
          (b : Bool) (o : Option V)
          → (b ≡ false → (v : V) × (o ≡ some v))
          → (v : V) × ((if b then some w else o) ≡ some v)
      found true o f = (w, refl)
      found false o f = f refl

-- Without a difference the current values are the desired ones.
pub any-differs_agree :
    (desired : Dict String ℤ) (current : Dict String Attr) (k : String) (n : ℤ)
    → any (differs desired current) (keys desired) ≡ false
    → get k desired ≡ some n
    → attr_of k current ≡ number n
unfolding differs
any-differs_agree desired current k n h g =
    ground (
      arith,
      any-contains (differs desired current) (keys desired) k h (contains-keys k n desired g),
    )

differs-at :
    (desired : Dict String ℤ) (current : Dict String Attr) (k : String) (o : Option ℤ)
    → get k desired ≡ o
    → ((n : ℤ) → get k desired ≡ some n → attr_of k current ≡ number n)
    → differs desired current k ≡ false
unfolding differs
differs-at desired current k none e h = ground (arith, e)
differs-at desired current k (some n) e h = ground (arith, e, h n e)

pub differs-agree :
    (desired : Dict String ℤ) (current : Dict String Attr)
    → ((k : String) (n : ℤ) → get k desired ≡ some n → attr_of k current ≡ number n)
    → any (differs desired current) (keys desired) ≡ false
differs-agree desired current h =
    any-false (differs desired current) (keys desired)
      (λ k. differs-at desired current k (get k desired) refl (h k))

lowered-at :
    (desired : Dict String ℤ) (current : Dict String Attr) (k : String) (o : Option ℤ)
    → get k desired ≡ o
    → ((n : ℤ) → get k desired ≡ some n → attr_of k current ≡ number n)
    → is_lowered desired current k ≡ false
unfolding is_lowered below
lowered-at desired current k none e h = ground (arith, e)
lowered-at desired current k (some n) e h = ground (arith, e, h n e)

-- Without a difference no key is lowered.
pub keep-is_lowered-same :
    (desired : Dict String ℤ) (current : Dict String Attr)
    → any (differs desired current) (keys desired) ≡ false
    → keep (is_lowered desired current) (keys desired) ≡ []
keep-is_lowered-same desired current h = keep-any (is_lowered desired current) (keys desired) (
    any-false (is_lowered desired current) (keys desired) (λ k.
      lowered-at desired current k (get k desired) refl
        (λ n. any-differs_agree desired current k n h)))

-- The value that clamping to `used` gives.
abbrev pub clamped : Attr → ℤ → ℤ
clamped (number used) n = if ltb_ℤ n used then used else n
clamped nothing n = n
clamped (text s) n = n

abbrev pub map_clamped : Attr → Option ℤ → Option ℤ
map_clamped used none = none
map_clamped used (some n) = some (clamped used n)

get-clamp_to :
    (used : Attr) (j k : String) (n : ℤ) (d : Dict String ℤ)
    → get k d ≡ some n
    → get j (clamp_to used k n d) ≡ (if j == k then some (clamped used n) else get j d)
unfolding clamp_to
get-clamp_to (number used) j k n d h = ground (arith, get-put j k used d)
get-clamp_to nothing j k n d h = ground arith
get-clamp_to (text s) j k n d h = ground arith

get-clamp_found :
    (used_of : String → Attr) (j k : String) (d : Dict String ℤ) (o : Option ℤ)
    → get k d ≡ o
    → get j (clamp_key used_of k d) ≡ (if j == k then map_clamped (used_of k) o else get j d)
unfolding clamp_key
get-clamp_found used_of j k d none e = ground (arith, e)
get-clamp_found used_of j k d (some n) e = ground (arith, e, get-clamp_to (used_of k) j k n d e)

clamped_idem : (used : Attr) (n : ℤ) → clamped used (clamped used n) ≡ clamped used n
clamped_idem (number used) n = ground arith
clamped_idem nothing n = refl
clamped_idem (text s) n = refl

map_clamped_idem :
    (used : Attr) (o : Option ℤ) → map_clamped used (map_clamped used o) ≡ map_clamped used o
map_clamped_idem used none = refl
map_clamped_idem used (some n) = ap some (clamped_idem used n)

pub get-clamp :
    (used_of : String → Attr) (ks : List String) (j : String) (d : Dict String ℤ)
    → get j (clamp used_of ks d)
      ≡ (if contains ks j then map_clamped (used_of j) (get j d) else get j d)
unfolding clamp
get-clamp used_of [] j d = refl
get-clamp used_of (k ∷ ks) j d = ground (
  arith,
  get-clamp used_of ks j (clamp_key used_of k d),
  get-clamp_found used_of j k d (get k d) refl,
  map_clamped_idem (used_of j) (get j d),
)

-- The attributes that are read are those of the quota object.
pub read_current_reads :
    {W : Type 0} (quota : Dict String Attr) (ks : List String) (w : W)
    → ((k : String) → contains ks k ≡ true → (a : Attr) × (get k quota ≡ some a))
    → (current : Dict String Attr) × (read_current quota ks w ≡ (ok current, w))
      × ((k : String) → contains ks k ≡ true → get k current ≡ get k quota)
unfolding read_current get
read_current_reads quota [] w h = ([], refl, λ k c. cc)
read_current_reads quota (k ∷ ks) w h =
    let (a, e) = h k (ground arith) in
    let (current, r, same) = read_current_reads quota ks w (λ j c. h j (ground (arith, c))) in
    ((k, a) ∷ current, (rw (e, r)), (λ j c. ground (arith, same j, e, c)))

-- A lowered value is clamped, the others stay.
pub get-clamp-lowered :
    (used_of : String → Attr) (desired : Dict String ℤ) (current : Dict String Attr) (k : String)
    (n : ℤ)
    → get k desired ≡ some n
    → get k (clamp used_of (keep (is_lowered desired current) (keys desired)) desired)
      ≡ some (if below n (attr_of k current) then clamped (used_of k) n else n)
unfolding is_lowered below
get-clamp-lowered used_of desired current k n h = ground (
  arith,
  h,
  get-clamp used_of (keep (is_lowered desired current) (keys desired)) k desired,
  contains-keep (is_lowered desired current) (keys desired) k,
  contains-keys k n desired h,
)

-- Clamping adds no key.
pub clamp-some :
    (used_of : String → Attr) (ks : List String) (desired : Dict String ℤ) (k : String) (m : ℤ)
    → get k (clamp used_of ks desired) ≡ some m
    → (n : ℤ) × (get k desired ≡ some n)
clamp-some used_of ks desired k m h =
    some-before (contains ks k) (used_of k) (get k desired)
      (sym (get-clamp used_of ks k desired) ∙ h)
  where
    some-before :
        (b : Bool) (used : Attr) (o : Option ℤ)
        → (if b then map_clamped used o else o) ≡ some m
        → (n : ℤ) × (o ≡ some n)
    some-before b used (some n) e = (n, refl)
    some-before true used none e = cc
    some-before false used none e = cc
