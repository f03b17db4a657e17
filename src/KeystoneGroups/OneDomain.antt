-- ===== src/KeystoneGroups/OneDomain.antt =====
-- What a run of `ensure_keystone_groups` of src/resources/keystone_groups.py needs for projects of one
-- domain.
use openstack_tenantctl.Base.{
  ℕ, true, Option, none, some, List, [], ◌∷◌, ◌++◌, map, ◌≡◌, sym, ◌==◌, pair_eq, arith, String,
  ==_iff, contains, string_eq, All, All-append, Bool-cases, inl, inr,
}
use openstack_tenantctl.Base.Dict.{Dict}
use openstack_tenantctl.Models.{ProjectConfig}
use openstack_tenantctl.Models.Federation.{FederationRoleAssignment, FederationConfig, has_mode}
use openstack_tenantctl.Federation.Rules.{is_present}
use openstack_tenantctl.KeystoneGroups.{groups_needed, federation_needs, all_needed, add_needed}

abbrev pub names_of : List (String × String) → List String
names_of = map (λ n. n.0)

abbrev pub Inherits : Option FederationConfig → Type 0
Inherits none = Unit
Inherits (some federation) = federation.domain ≡ some ""

-- The project is of the domain with this name and id, which its federation inherits.
abbrev pub InDomain : String → String → ProjectConfig → Type 0
InDomain name id cfg = (cfg.domain ≡ some name) × (cfg.domain_id ≡ id) × Inherits cfg.federation

same_pair : (g n id d : String) → g ≡ n → d ≡ id → ◌==◌ {A = String × String} (g, id) (n, d) ≡ true
same_pair g n id d p q = (==_iff {A = String × String} (g, id) (n, d)).1 (λ i. (p i, sym q i))

-- What is needed, all of it in the domain with this id.
module _ (id : String) where
  abbrev pub OfDomain : List (String × String) → Type 0
  OfDomain needed = All (λ (p : String × String). p.1 ≡ id) needed

  groups_needed-OfDomain :
      (cfg : ProjectConfig) (federation : FederationConfig) (rest : List FederationRoleAssignment)
      → cfg.domain_id ≡ id
      → OfDomain (groups_needed cfg federation rest)
  unfolding groups_needed
  groups_needed-OfDomain cfg federation [] e = tt
  groups_needed-OfDomain cfg federation (a ∷ rest) e = elim (Bool-cases (has_mode "group" a.mode)) [
    | inl on ↦ rw on (e, groups_needed-OfDomain cfg federation rest e)
    | inr off ↦ rw off (groups_needed-OfDomain cfg federation rest e)
  ]

  federation_needs-OfDomain :
      (cfg : ProjectConfig) (o : Option FederationConfig)
      → cfg.domain_id ≡ id
      → OfDomain (federation_needs cfg o)
  unfolding federation_needs
  federation_needs-OfDomain cfg none e = tt
  federation_needs-OfDomain cfg (some federation) e =
      groups_needed-OfDomain cfg federation federation.role_assignments e

  pub all_needed-OfDomain :
      (now : ℕ) (name : String) (ps : List ProjectConfig)
      → All (InDomain name id) ps
      → OfDomain (all_needed now ps)
  unfolding all_needed
  all_needed-OfDomain now name [] all = tt
  all_needed-OfDomain now name (cfg ∷ ps) ((_, e, _), all) =
      elim (Bool-cases (is_present now cfg)) [
        | inl on ↦ rw on (
            All-append _ (federation_needs cfg cfg.federation) (all_needed now ps)
              (federation_needs-OfDomain cfg cfg.federation e)
              (all_needed-OfDomain now name ps all))
        | inr off ↦ rw off (all_needed-OfDomain now name ps all)
      ]

  pub add_needed-OfDomain :
      (xs : List (String × String)) (needed : Dict String String)
      → OfDomain needed
      → OfDomain xs
      → OfDomain (add_needed needed xs)
  unfolding add_needed
  add_needed-OfDomain [] needed h _ = h
  add_needed-OfDomain ((n, d) ∷ xs) needed h (e, all) =
      elim (Bool-cases (contains (names_of needed) n)) [
        | inl old ↦ rw (old, add_needed) (add_needed-OfDomain xs needed h all)
        | inr new ↦
            rw (new, add_needed)
              (add_needed-OfDomain xs (needed ++ (n, d) ∷ [])
                (All-append _ needed ((n, d) ∷ []) h (e, tt)) all)
      ]

  pub pair_there :
      (needed : Dict String String) (g : String)
      → OfDomain needed
      → contains (names_of needed) g ≡ true
      → contains needed (g, id) ≡ true
  pair_there [] g h there = there
  pair_there ((n, d) ∷ needed) g (e, h) there = elim (Bool-cases (g == n)) [
    | inl same ↦ ground (arith, same_pair g n id d ((==_iff g n).0 same) e)
    | inr other ↦ ground (arith, pair_there needed g h (ground (arith, there, other)))
  ]
