-- ===== src/Base/Membership.antt =====
-- What `in` says of lists that are joined, filtered or mapped.
use Prim.Native.Nat.{ℕ, zero, suc}
use mathlib.Core.Path.{◌≡◌, refl}
use mathlib.Core.Bool.{Bool, true, ◌||◌, ◌&&◌}
use mathlib.Core.List.{List, [], ◌∷◌, ◌++◌, map}
use native.Mathlib.Omega.{arith}
use openstack_tenantctl.Base.Equality.{Eq, contains}
use openstack_tenantctl.Base.Lists.{keep, take, All}

module _ {ℓ} {A : Type ℓ} ⦃e : Eq A⦄ where
  pub contains-append :
      (d : A) (xs ys : List A) → contains (xs ++ ys) d ≡ (contains xs d || contains ys d)
  contains-append d [] ys = refl
  contains-append d (x ∷ xs) ys = ground (arith, contains-append d xs ys)

module _ {ℓ κ} {A : Type ℓ} {K : Type κ} ⦃e : Eq K⦄ (f : A → K) where
  -- A filter by a test on keys leaves the keys that pass it.
  pub contains-keep :
      (q : K → Bool) (xs : List A) (k : K)
      → contains (map f (keep (λ x. q (f x)) xs)) k ≡ (q k && contains (map f xs) k)
  contains-keep q [] k = ground arith
  contains-keep q (x ∷ xs) k = ground (arith, contains-keep q xs k)

  pub map-append-contains :
      (xs ys : List A) (k : K)
      → contains (map f (xs ++ ys)) k ≡ (contains (map f xs) k || contains (map f ys) k)
  map-append-contains [] ys k = refl
  map-append-contains (x ∷ xs) ys k = ground (arith, map-append-contains xs ys k)

module _ {ℓ} {A : Type ℓ} where
  pub All-keep : (q : A → Bool) (xs : List A) → All (λ x. q x ≡ true) (keep q xs)
  All-keep q [] = tt
  All-keep q (x ∷ xs) = ground (arith, All-keep q xs)

  pub All-take : (P : A → Type 0) (n : ℕ) (xs : List A) → All P xs → All P (take n xs)
  All-take P zero xs h = tt
  All-take P (suc n) [] h = tt
  All-take P (suc n) (x ∷ xs) (p, h) = (p, All-take P n xs h)
