-- ===== src/Base/Sorting.antt =====
-- `sorted` by a text, as an insertion sort.
use Prim.Native.Nat.{Ordering}
use Prim.Native.String.{String}
use Prim.Native.String
use mathlib.Core.Path.{◌≡◌, refl, ap, ◌∙◌}
use mathlib.Core.Bool.{◌||◌}
use mathlib.Core.List.{List, [], ◌∷◌, map}
use native.Mathlib.Omega.{arith}
use openstack_tenantctl.Base.Equality.{◌==◌, string_eq, contains}

module _ {A : Type 0} (key : A → String) where
  unfoldable pub insert_by : A → List A → List A
  insert_by x [] = x ∷ []
  insert_by x (y ∷ ys) = elim (Prim.Native.String.compare (key x) (key y)) [
    | Ordering.gt ↦ y ∷ insert_by x ys
    | _ ↦ x ∷ y ∷ ys
  ]

  unfoldable pub sorted_by : List A → List A
  unfolding insert_by
  sorted_by [] = []
  sorted_by (x ∷ xs) = insert_by x (sorted_by xs)

  insert_by-contains :
      (x : A) (xs : List A) (k : String)
      → contains (map key (insert_by x xs)) k ≡ (k == key x || contains (map key xs) k)
  unfolding insert_by
  insert_by-contains x [] k = refl
  insert_by-contains x (y ∷ ys) k = ground (arith, insert_by-contains x ys k)

  -- Sorting keeps the keys.
  pub sorted_by-contains :
      (xs : List A) (k : String) → contains (map key (sorted_by xs)) k ≡ contains (map key xs) k
  unfolding sorted_by
  sorted_by-contains [] k = refl
  sorted_by-contains (x ∷ xs) k =
      insert_by-contains x (sorted_by xs) k ∙ ap (λ b. k == key x || b) (sorted_by-contains xs k)
