-- ===== src/KeystoneGroups/Domains.antt =====
-- A group name that two domains need, to `ensure_keystone_groups` of src/resources/keystone_groups.py.
use openstack_tenantctl.Base.{
  ℕ, refl, if◌then◌else◌, true, false, List, [], ◌∷◌, ◌++◌, ◌≡◌, ◌≢◌, sym, ap, ◌∙◌, arith, String,
  ◌==◌, ==_iff, contains, contains-append, string_eq, pair_eq, map-append-contains, Bool-cases, inl,
  inr,
}
use mathlib.Core.Bool.{false≢true}
use openstack_tenantctl.Base.Dict.{Dict}
use openstack_tenantctl.Models.{ProjectConfig}
use openstack_tenantctl.KeystoneGroups.{all_needed, add_needed}
use openstack_tenantctl.KeystoneGroups.OneDomain.{names_of}

pair_differs : (p q : String × String) → p ≢ q → (p == q) ≡ false
pair_differs p q h = elim (Bool-cases (p == q)) [
  | inl same ↦ absurd (h ((==_iff p q).0 same))
  | inr other ↦ other
]

other_name :
    (needed : Dict String String) (name n : String)
    → contains (names_of needed) name ≡ true
    → contains (names_of needed) n ≡ false
    → name ≢ n
other_name needed name n there new same =
    false≢true (sym new ∙ ap (contains (names_of needed)) (sym same) ∙ there)

-- Once a name is needed, nothing more is needed of that name.
settled :
    (xs : List (String × String)) (needed : Dict String String) (name domain : String)
    → contains (names_of needed) name ≡ true
    → contains needed (name, domain) ≡ false
    → contains (add_needed needed xs) (name, domain) ≡ false
unfolding add_needed
settled [] needed name domain there h = h
settled ((n, d) ∷ xs) needed name domain there h =
    elim (Bool-cases (contains (names_of needed) n)) [
      | inl old ↦ rw old (settled xs needed name domain there h)
      | inr new ↦ rw new (
          settled xs (needed ++ (n, d) ∷ []) name domain
            (ground (arith, there, map-append-contains (λ m. m.0) needed ((n, d) ∷ []) name))
            (contains-append (name, domain) needed ((n, d) ∷ [])
              ∙ rw (
                h,
                pair_differs (name, domain) (n, d)
                    (λ same. other_name needed name n there new (ap (λ p. p.0) same)),
              )))
    ]

kept_pair :
    (xs : List (String × String)) (needed : Dict String String) (pair : String × String)
    → contains needed pair ≡ true
    → contains (add_needed needed xs) pair ≡ true
unfolding add_needed
kept_pair [] needed pair h = h
kept_pair ((n, d) ∷ xs) needed pair h =
    kept_pair xs (if contains (names_of needed) n then needed else needed ++ (n, d) ∷ []) pair
      (ground (arith, h, contains-append pair needed ((n, d) ∷ [])))

-- The pair that is needed, and no other of its name.
abbrev Only : Dict String String → String → String → String → Type 0
Only needed name first other =
    (contains needed (name, first) ≡ true) × (contains needed (name, other) ≡ false)

no_pair :
    (needed : Dict String String) (name other : String)
    → contains (names_of needed) name ≡ false
    → contains needed (name, other) ≡ false
no_pair [] name other h = refl
no_pair ((n, d) ∷ needed) name other h =
    rw
      (
        pair_differs (name, other) (n, d) (λ same. first_differs (ap (λ p. p.0) same)),
        no_pair needed name other (ground (arith, h)),
      )
      refl
  where
    first_differs : name ≢ n
    first_differs same = ground (arith, h, (==_iff name n).1 same)

first_needed :
    (xs ys : List (String × String)) (needed : Dict String String) (name first other : String)
    → first ≢ other
    → contains (names_of needed) name ≡ false
    → contains (names_of xs) name ≡ false
    → Only (add_needed needed (xs ++ (name, first) ∷ ys)) name first other
unfolding add_needed
first_needed [] ys needed name first other differ new none_yet =
    let more = needed ++ (name, first) ∷ [] in
    rw (new, add_needed)
      (
        kept_pair ys more (name, first)
            (ground (arith, contains-append (name, first) needed ((name, first) ∷ []))),
        settled ys more name other
            (ground (arith, map-append-contains (λ m. m.0) needed ((name, first) ∷ []) name))
            (contains-append (name, other) needed ((name, first) ∷ [])
              ∙ rw
                  (
                    no_pair needed name other new,
                    pair_differs (name, other) (name, first)
                        (λ same. differ (sym (ap (λ p. p.1) same))),
                  )
                  refl),
      )
first_needed ((n, d) ∷ xs) ys needed name first other differ new none_yet =
    first_needed xs ys (if contains (names_of needed) n then needed else needed ++ (n, d) ∷ []) name
      first other differ
      (ground (arith, new, none_yet, map-append-contains (λ m. m.0) needed ((n, d) ∷ []) name))
      (ground (arith, none_yet))

-- If the projects that a run meets need a group of one name, the first of them in one domain, the name is
-- needed in this domain and in no other, whatever domains the later projects need it in and whatever
-- else is needed before or after.
pub add_needed_first_domain :
    (now : ℕ) (all_projects : List ProjectConfig) (name first other : String)
    (xs ys : List (String × String))
    → all_needed now all_projects ≡ xs ++ (name, first) ∷ ys
    → contains (names_of xs) name ≡ false
    → first ≢ other
    → (contains (add_needed [] (all_needed now all_projects)) (name, first) ≡ true)
      × (contains (add_needed [] (all_needed now all_projects)) (name, other) ≡ false)
add_needed_first_domain now all_projects name first other xs ys e before differ =
    rw e (first_needed xs ys [] name first other differ refl before)
