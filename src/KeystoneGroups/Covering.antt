-- ===== src/KeystoneGroups/Covering.antt =====
-- The groups of the mapping's rules are among those that are ensured: `_build_generated_rules` of
-- src/resources/federation.py and `ensure_keystone_groups` of src/resources/keystone_groups.py.
use openstack_tenantctl.Base.{
  ℕ, true, ◌||◌, Option, none, some, List, [], ◌∷◌, ◌++◌, map, ◌≡◌, refl, sym, subst, ◌∙◌, pair_eq,
  false, arith, String, ==_iff, contains, string_eq, if◌then◌else◌, All, All-append,
  map-append-contains, Bool-cases, inl, inr,
}
use openstack_tenantctl.Base.Dict.{Dict}
use openstack_tenantctl.Models.{ProjectConfig}
use openstack_tenantctl.Models.Federation.{FederationRoleAssignment, FederationConfig, has_mode}
use openstack_tenantctl.ExternalNetwork.{is_empty}
use openstack_tenantctl.Federation.{derive_group_name}
use openstack_tenantctl.Federation.Rules.{
  LocalElement, user, group, projects, MappingRule, Keyed, keyed, rule_of, group_element,
  project_element, rules_of, federation_rules, unsorted_rules, insert_rule, sort_rules, comes_after,
  build_generated_rules, is_present, domain_name, or_default,
}
use openstack_tenantctl.KeystoneGroups.OneDomain.{
  names_of, Inherits, InDomain, add_needed-OfDomain, all_needed-OfDomain, pair_there,
}
use openstack_tenantctl.KeystoneGroups.{groups_needed, federation_needs, all_needed, add_needed}

-- A group that an element names, with its domain, is such a one.
abbrev pub Named : (String → String → Type 0) → LocalElement → Type 0
Named P (user user_type) = Unit
Named P (group name domain) = P name domain
Named P (projects name roles domain) = Unit

abbrev pub Covered : (String → String → Type 0) → MappingRule → Type 0
Covered P rule = All (Named P) rule.local

-- The group is needed in the domain with this id, and is named with this domain name.
abbrev pub NeededIn : Dict String String → String → String → String → String → Type 0
NeededIn needed name id g domain = (contains needed (g, id) ≡ true) × (domain ≡ name)

inherited :
    (name : String) (cfg : ProjectConfig) (o : Option String)
    → is_empty name ≡ false
    → cfg.domain ≡ some name
    → o ≡ some ""
    → or_default (domain_name cfg o) ≡ name
unfolding domain_name or_default is_empty string_eq
inherited name cfg o full e e' = rw (e', domain_name) (rw (e, or_default) (rw full refl))

module _ (P : Keyed → Type 0) where
  insert_rule-All :
      (r : Keyed) (rules : List Keyed) → P r → All P rules → All P (insert_rule r rules)
  unfolding insert_rule
  insert_rule-All r [] p h = (p, tt)
  insert_rule-All r (s ∷ rules) p (q, h) = elim (Bool-cases (comes_after r s)) [
    | inl after ↦ rw after (q, insert_rule-All r rules p h)
    | inr before ↦ rw before (p, (q, h))
  ]

  sort_rules-All : (rules : List Keyed) → All P rules → All P (sort_rules rules)
  unfolding sort_rules
  sort_rules-All [] h = tt
  sort_rules-All (r ∷ rules) (p, h) =
      insert_rule-All r (sort_rules rules) p (sort_rules-All rules h)

map-All :
    (P : MappingRule → Type 0) (rules : List Keyed)
    → All (λ r. P r.2) rules
    → All P (map (λ r. r.2) rules)
map-All P [] h = tt
map-All P (r ∷ rules) (p, h) = (p, map-All P rules h)

module _ (P : String → String → Type 0) (named : String) where
  -- The groups of a list have it.
  abbrev Among : List (String × String) → Type 0
  Among needed = (g : String) → contains (names_of needed) g ≡ true → P g named

  Among-left : (xs ys : List (String × String)) → Among (xs ++ ys) → Among xs
  Among-left xs ys h g there = h g (ground (arith, map-append-contains (λ n. n.0) xs ys g))

  Among-right : (xs ys : List (String × String)) → Among (xs ++ ys) → Among ys
  Among-right xs ys h g there = h g (ground (arith, map-append-contains (λ n. n.0) xs ys g))

  project_element-Named :
      (cfg : ProjectConfig) (federation : FederationConfig) (a : FederationRoleAssignment)
      → All (Named P) (project_element cfg federation a)
  unfolding project_element
  project_element-Named cfg federation a = elim (Bool-cases (has_mode "project" a.mode)) [
    | inl on ↦ rw on (tt, tt)
    | inr off ↦ rw off tt
  ]

  rules_of-Covered :
      (cfg : ProjectConfig) (federation : FederationConfig) (rest : List FederationRoleAssignment)
      → or_default (domain_name cfg federation.domain) ≡ named
      → Among (groups_needed cfg federation rest)
      → All (λ r. Covered P r.2) (rules_of cfg federation rest)
  unfolding rules_of groups_needed keyed rule_of group_element
  rules_of-Covered cfg federation [] e h = tt
  rules_of-Covered cfg federation (a ∷ rest) e h = elim (Bool-cases (has_mode "group" a.mode)) [
    | inl on ↦ rw on (
      (
        tt,
        (
          subst (P (derive_group_name cfg.name a federation.group_name_separator)) (sym e) (
              rw on at h (derive_group_name cfg.name a federation.group_name_separator)
                (ground arith)),
          project_element-Named cfg federation a,
        ),
      ),
      rules_of-Covered cfg federation rest e (
          Among-right
            ((derive_group_name cfg.name a federation.group_name_separator, cfg.domain_id) ∷ [])
            (groups_needed cfg federation rest) (rw on at h)),
    )
    | inr off ↦ rw off (
      (tt, project_element-Named cfg federation a),
      rules_of-Covered cfg federation rest e (rw off at h),
    )
  ]

  federation_rules-Covered :
      (cfg : ProjectConfig) (o : Option FederationConfig)
      → is_empty named ≡ false
      → cfg.domain ≡ some named
      → Inherits o
      → Among (federation_needs cfg o)
      → All (λ r. Covered P r.2) (federation_rules cfg o)
  unfolding federation_rules federation_needs
  federation_rules-Covered cfg none full e i h = tt
  federation_rules-Covered cfg (some federation) full e i h =
      rules_of-Covered cfg federation federation.role_assignments
        (inherited named cfg federation.domain full e i) h

  unsorted_rules-Covered :
      (now : ℕ) (id : String) (ps : List ProjectConfig)
      → is_empty named ≡ false
      → All (InDomain named id) ps
      → Among (all_needed now ps)
      → All (λ r. Covered P r.2) (unsorted_rules now ps)
  unfolding unsorted_rules all_needed
  unsorted_rules-Covered now id [] full all h = tt
  unsorted_rules-Covered now id (cfg ∷ ps) full ((e, _, i), all) h =
      elim (Bool-cases (is_present now cfg)) [
        | inl on ↦ rw on (
            All-append _ (federation_rules cfg cfg.federation) (unsorted_rules now ps)
              (federation_rules-Covered cfg cfg.federation full e i
                (Among-left (federation_needs cfg cfg.federation) (all_needed now ps) (rw on at h)))
              (unsorted_rules-Covered now id ps full all (
                Among-right (federation_needs cfg cfg.federation) (all_needed now ps)
                  (rw on at h))))
        | inr off ↦ rw off (unsorted_rules-Covered now id ps full all (rw off at h))
      ]

add_needed-contains :
    (xs : List (String × String)) (needed : Dict String String) (k : String)
    → contains (names_of (add_needed needed xs)) k
      ≡ (contains (names_of needed) k || contains (names_of xs) k)
unfolding add_needed
add_needed-contains [] needed k = ground arith
add_needed-contains ((name, domain) ∷ xs) needed k =
    add_needed-contains xs
      (if contains (names_of needed) name then needed else needed ++ (name, domain) ∷ []) k
    ∙ ground (arith, map-append-contains (λ n. n.0) needed ((name, domain) ∷ []) k, ==_iff k name)

-- If all projects are of one domain, which their federations inherit, every group that a generated rule
-- names is among those that a run of `ensure_keystone_groups` at the same instant ensures, in the domain's
-- id, and the rule names it with the domain's name.
pub build_generated_rules-Covered :
    (now : ℕ) (all_projects : List ProjectConfig) (name id : String)
    → is_empty name ≡ false
    → All (InDomain name id) all_projects
    → All
        (Covered (NeededIn (add_needed [] (all_needed now all_projects)) name id))
        (build_generated_rules now all_projects)
unfolding build_generated_rules
build_generated_rules-Covered now all_projects name id full all =
    let needed = add_needed [] (all_needed now all_projects) in
    let of_domain =
      add_needed-OfDomain id (all_needed now all_projects) [] tt
        (all_needed-OfDomain id now name all_projects all) in
    map-All (Covered _) (sort_rules (unsorted_rules now all_projects)) (
      sort_rules-All (λ r. Covered _ r.2) (unsorted_rules now all_projects)
        (unsorted_rules-Covered (NeededIn needed name id) name now id all_projects full all (λ g h.
          (
            pair_there id needed g of_domain
                (add_needed-contains (all_needed now all_projects) [] g ∙ h),
            refl,
          ))))
