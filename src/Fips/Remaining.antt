-- ===== src/Fips/Remaining.antt =====
-- How many floating IPs `_scale_down_fips` leaves, and which.
use openstack_tenantctl.Base.{
  ℕ, zero, suc, ◌+◌, ◌-◌, ◌≤◌, true, false, not, ◌||◌, List, [], ◌∷◌, ◌≡◌, refl, sym, subst, arith,
  String, ◌==◌, contains, string_eq, length, keep, take, All, ◌⊎◌, inl, inr, Bool-cases,
}
use openstack_tenantctl.Cloud.{FloatingIp}
use openstack_tenantctl.Fips.{openstack_ids, is_unused, to_delete, remaining_fips}

-- The ids of floating IPs differ.
abbrev pub DistinctIds : List FloatingIp → Type 0
DistinctIds [] = Unit
DistinctIds (f ∷ fs) = (contains (openstack_ids fs) f.id ≡ false) × DistinctIds fs

module _ (i : String) where
  pub absent_from_unused :
      (fs : List FloatingIp)
      → contains (openstack_ids fs) i ≡ false
      → contains (openstack_ids (keep is_unused fs)) i ≡ false
  absent_from_unused [] h = h
  absent_from_unused (f ∷ fs) h = ground (arith, absent_from_unused fs)

  pub absent_from_take :
      (n : ℕ) (fs : List FloatingIp)
      → contains (openstack_ids fs) i ≡ false
      → contains (openstack_ids (take n fs)) i ≡ false
  absent_from_take zero fs h = refl
  absent_from_take (suc n) [] h = refl
  absent_from_take (suc n) (f ∷ fs) h = ground (arith, absent_from_take n fs)

keep_cons_absent :
    (i : String) (doomed fs : List FloatingIp)
    → contains (openstack_ids fs) i ≡ false
    → keep (λ f. not (f.id == i || contains (openstack_ids doomed) f.id)) fs
      ≡ keep (λ f. not (contains (openstack_ids doomed) f.id)) fs
keep_cons_absent i doomed [] h = refl
keep_cons_absent i doomed (f ∷ fs) h = ground (arith, keep_cons_absent i doomed fs)

length-keep_all : (fs : List FloatingIp) → length (keep (λ (f : FloatingIp). true) fs) ≡ length fs
length-keep_all [] = refl
length-keep_all (f ∷ fs) = rw (length-keep_all fs)

pub keep-unused :
    (f : FloatingIp) (fs : List FloatingIp)
    → is_unused f ≡ true
    → keep is_unused (f ∷ fs) ≡ f ∷ keep is_unused fs
keep-unused f fs u = rw u

pub keep-used :
    (f : FloatingIp) (fs : List FloatingIp)
    → is_unused f ≡ false
    → keep is_unused (f ∷ fs) ≡ keep is_unused fs
keep-used f fs u = rw u

remaining-doomed :
    (f : FloatingIp) (doomed fs : List FloatingIp)
    → contains (openstack_ids fs) f.id ≡ false
    → remaining_fips (f ∷ fs) (f ∷ doomed) ≡ remaining_fips fs doomed
unfolding remaining_fips
remaining-doomed f doomed fs new = ground (arith, keep_cons_absent f.id doomed fs new)

remaining-spared :
    (f : FloatingIp) (doomed fs : List FloatingIp)
    → contains (openstack_ids doomed) f.id ≡ false
    → remaining_fips (f ∷ fs) doomed ≡ f ∷ remaining_fips fs doomed
unfolding remaining_fips
remaining-spared f doomed fs new = rw new

remaining-nil : (fs : List FloatingIp) → length (remaining_fips fs []) ≡ length fs
unfolding remaining_fips
remaining-nil fs = length-keep_all fs

-- What is deleted and what remains make up what there was.
pub remaining_count :
    (fs : List FloatingIp) (n : ℕ)
    → DistinctIds fs
    → length (remaining_fips fs (take n (keep is_unused fs))) + length (take n (keep is_unused fs))
      ≡ length fs
remaining_count fs zero h = omega (arith, remaining-nil fs)
remaining_count [] (suc n) h = omega (arith, remaining-nil [])
remaining_count (f ∷ fs) (suc m) (new, h) = elim (Bool-cases (is_unused f)) [
  | inl unused ↦ rw (keep-unused f fs unused) (
      rw (remaining-doomed f (take m (keep is_unused fs)) fs new)
        (omega (arith, remaining_count fs m h)))
  | inr used ↦ rw (keep-used f fs used) (
      rw
        (remaining-spared f (take (suc m) (keep is_unused fs)) fs
          (absent_from_take f.id (suc m) (keep is_unused fs) (absent_from_unused f.id fs new)))
        (omega (arith, remaining_count fs (suc m) h)))
]

length-take_cases : (n : ℕ) (fs : List FloatingIp) → (length (take n fs) ≡ n) ⊎ (take n fs ≡ fs)
length-take_cases zero fs = inl refl
length-take_cases (suc n) [] = inr refl
length-take_cases (suc n) (f ∷ fs) = elim (length-take_cases n fs) [
  | inl e ↦ inl (rw e)
  | inr e ↦ inr (rw e)
]

length-take-le : (n : ℕ) (fs : List FloatingIp) → length (take n fs) ≤ n
length-take-le zero fs = omega arith
length-take-le (suc n) [] = omega arith
length-take-le (suc n) (f ∷ fs) = omega (arith, length-take-le n fs)

abbrev pub InUse : FloatingIp → Type 0
InUse f = is_unused f ≡ false

-- With every unused floating IP deleted, those that remain are in use.
pub All-Doomed :
    (doomed fs : List FloatingIp)
    → All (λ (f : FloatingIp). is_unused f ≡ true → contains (openstack_ids doomed) f.id ≡ true) fs
    → All InUse (remaining_fips fs doomed)
unfolding remaining_fips
All-Doomed doomed [] h = tt
All-Doomed doomed (f ∷ fs) (p, h) = elim (Bool-cases (is_unused f)) [
  | inl unused ↦ rw (p unused) (All-Doomed doomed fs h)
  | inr used ↦ ground (arith, All-Doomed doomed fs h)
]

weaken-Doomed :
    (d : FloatingIp) (doomed fs : List FloatingIp)
    → All (λ (f : FloatingIp). is_unused f ≡ true → contains (openstack_ids doomed) f.id ≡ true) fs
    → All
        (λ (f : FloatingIp). is_unused f ≡ true → contains (openstack_ids (d ∷ doomed)) f.id ≡ true)
        fs
weaken-Doomed d doomed [] h = tt
weaken-Doomed d doomed (f ∷ fs) (p, h) = (λ u. ground (arith, p u), weaken-Doomed d doomed fs h)

abbrev Doomed : List FloatingIp → FloatingIp → Type 0
Doomed doomed f = is_unused f ≡ true → contains (openstack_ids doomed) f.id ≡ true

contains_self :
    (f : FloatingIp) (doomed : List FloatingIp) → contains (openstack_ids (f ∷ doomed)) f.id ≡ true
contains_self f doomed = ground arith

pub unused-Doomed : (fs : List FloatingIp) → All (Doomed (keep is_unused fs)) fs
unused-Doomed [] = tt
unused-Doomed (f ∷ fs) = elim (Bool-cases (is_unused f)) [
  | inl unused ↦
      subst (λ doomed. All (Doomed doomed) (f ∷ fs)) (sym (keep-unused f fs unused))
        (
          λ u. contains_self f (keep is_unused fs),
          weaken-Doomed f (keep is_unused fs) fs (unused-Doomed fs),
        )
  | inr used ↦
      subst (λ doomed. All (Doomed doomed) (f ∷ fs)) (sym (keep-used f fs used))
        (λ u. cc, unused-Doomed fs)
]

-- With `desired` floating IPs wanted of those that exist, scaling down leaves exactly that many,
-- or it leaves more and all of those are in use.
pub remaining_fips_desired :
    (fs : List FloatingIp) (desired : ℕ)
    → DistinctIds fs
    → desired ≤ length fs
    → (desired ≤ length (remaining_fips fs (to_delete fs (length fs - desired))))
      × ((length (remaining_fips fs (to_delete fs (length fs - desired))) ≡ desired)
          ⊎ All InUse (remaining_fips fs (to_delete fs (length fs - desired))))
unfolding to_delete
remaining_fips_desired fs desired distinct h =
    let unused = keep is_unused fs in
    let count = remaining_count fs (length fs - desired) distinct in
    (
      omega (arith, count, length-take-le (length fs - desired) unused),
      elim (length-take_cases (length fs - desired) unused) [
        | inl e ↦ inl (omega (arith, count, e))
        | inr e ↦ inr (rw e (All-Doomed unused fs (unused-Doomed fs)))
      ],
    )
