-- ===== src/SecurityGroups/Seeding.antt =====
-- What a live run of `ensure_baseline_sg` of src/resources/security_group.py leaves of the default
-- security group.
use openstack_tenantctl.Base.{
  ℕ, ◌≤◌, true, false, not, some, List, [], ◌∷◌, ◌++◌, map, ◌≡◌, refl, ◌∙◌, ap, arith, String, ◌==◌,
  contains, string_eq, keep, ltb, if_true, if_false, ==_iff, length, All, Bool-cases, inl, inr, ◌⊎◌,
  contains-append, Result, ok, raised, conflict, each,
}
use openstack_tenantctl.Base.Holding.{All-kept}
use openstack_tenantctl.Base.Dict.{Dict}
use openstack_tenantctl.Cloud.{Tenacity}
use openstack_tenantctl.Models.{ProjectConfig}
use openstack_tenantctl.Models.Security.{SecurityGroupRule, SecurityGroupConfig}
use openstack_tenantctl.Context.{Action, Details, World, record_action, updated}
use openstack_tenantctl.Context.Retry.{retried-ok, retried-conflict}
use openstack_tenantctl.SecurityGroups.{
  ApiValue, to_api_dict, SecurityGroup, SecurityCalls, Fingerprint, fingerprint_eq, sdk_fingerprint,
  rule_fingerprint, find_missing_rules, added_part, sg_action, create_security_group_rule,
  rule_refused, create_counted, add_rule, add_missing, on_default, on_existing, sg_online,
  if_security_group, ensure_baseline_sg,
}
use openstack_tenantctl.SecurityGroups.Fingerprints.{
  dict_fingerprint, IsPlain, dict_fingerprint-to_api_dict,
}

-- A group whose rules `fps` shows by their fingerprints: a creation adds the rule that it is told of, or
-- is refused since there is one.
module _ {C : Type 0} (K : SecurityCalls C) (project_id sg_id : String)
    (fps : C → List Fingerprint) where
  abbrev Answer : Dict String ApiValue → C → C → Type 0
  Answer d c c' =
      ((K.create_security_group_rule sg_id project_id d c ≡ (ok tt, c'))
        × (fps c' ≡ fps c ++ dict_fingerprint d ∷ []))
      ⊎ ((K.create_security_group_rule sg_id project_id d c ≡ (raised conflict, c'))
          × (fps c' ≡ fps c)
          × (contains (fps c) (dict_fingerprint d) ≡ true))

  abbrev pub AddsRules : Type 0
  AddsRules = (d : Dict String ApiValue) (c : C) → (c' : C) × Answer d c c'

module _ {C S : Type 0} (K : SecurityCalls C) (T : Tenacity) (project_id sg_id : String)
    (fps : C → List Fingerprint) where
  abbrev There : World C S → Fingerprint → Type 0
  There w f = contains (fps w.cloud) f ≡ true

  -- The statement returns; the rule is then there, and those that were are still.
  abbrev Adds : Fingerprint → World C S → Result ℕ × World C S → Type 0
  Adds f w r =
      (n : ℕ) × (u : World C S) × (r ≡ (ok n, u))
      × There u f
      × ((g : Fingerprint) → There w g → There u g)

  add_rule-ok :
      (rule : SecurityGroupRule) (w : World C S) (c : C)
      → K.create_security_group_rule sg_id project_id (to_api_dict rule) w.cloud ≡ (ok tt, c)
      → add_rule K T project_id sg_id rule w ≡ (ok 1, record w { cloud = c })
  unfolding add_rule create_counted create_security_group_rule
  add_rule-ok rule w c h = rw (retried-ok T _ w.cloud c tt h)

  add_rule-conflict :
      (rule : SecurityGroupRule) (w : World C S) (c : C)
      → K.create_security_group_rule sg_id project_id (to_api_dict rule) w.cloud
        ≡ (raised conflict, c)
      → add_rule K T project_id sg_id rule w ≡ (ok 0, record w { cloud = c })
  unfolding add_rule create_counted create_security_group_rule rule_refused
  add_rule-conflict rule w c h = rw (retried-conflict T _ w.cloud c h)

  answered-Adds :
      (rule : SecurityGroupRule) (w : World C S) (c : C)
      → dict_fingerprint (to_api_dict rule) ≡ rule_fingerprint rule
      → Answer K project_id sg_id fps (to_api_dict rule) w.cloud c
      → Adds (rule_fingerprint rule) w (add_rule K T project_id sg_id rule w)
  answered-Adds rule w c same (inl (h, e)) = (
    1,
    record w { cloud = c },
    add_rule-ok rule w c h,
    ground (
      arith,
      e,
      same,
      contains-append (rule_fingerprint rule) (fps w.cloud) (rule_fingerprint rule ∷ []),
    ),
    λ g there.
        ground (arith, e, same, contains-append g (fps w.cloud) (rule_fingerprint rule ∷ [])),
  )
  answered-Adds rule w c same (inr (h, e, there)) = (
    0,
    record w { cloud = c },
    add_rule-conflict rule w c h,
    ground (arith, e, same, there),
    λ g before. ground (arith, e),
  )

module _ {C S : Type 0} (K : SecurityCalls C) (T : Tenacity) (project_id sg_id : String)
    (fps : C → List Fingerprint) (A : AddsRules K project_id sg_id fps) where
  add_rules :
      (rules : List SecurityGroupRule) (w : World C S)
      → All IsPlain rules
      → (ns : List ℕ) × (u : World C S) × (each (add_rule K T project_id sg_id) rules w
          ≡ (ok ns, u))
        × All (λ r. There K T project_id sg_id fps u (rule_fingerprint r)) rules
        × ((g : Fingerprint)
            → There K T project_id sg_id fps w g
            → There K T project_id sg_id fps u g)
  unfolding each
  add_rules [] w plain = ([], w, refl, tt, λ g h. h)
  add_rules (r ∷ rules) w (plain, more) =
      let (c, answer) = A (to_api_dict r) w.cloud in
      let (n, v, e, there, kept) =
        answered-Adds K T project_id sg_id fps r w c (dict_fingerprint-to_api_dict r plain)
          answer in
      let (ns, u, e', all, kept') = add_rules rules v more in
      (n ∷ ns, u, rw (e, e'), (kept' (rule_fingerprint r) there, all), λ g h. kept' g (kept g h))

-- What the missing rules and the present ones have, all configured rules have.
from_missing :
    (P : Fingerprint → Type 0) (present : List Fingerprint)
    → ((g : Fingerprint) → contains present g ≡ true → P g)
    → (rules : List SecurityGroupRule)
    → All
        (λ r. P (rule_fingerprint r))
        (keep (λ r. not (contains present (rule_fingerprint r))) rules)
    → All (λ r. P (rule_fingerprint r)) rules
from_missing P present h [] all = tt
from_missing P present h (r ∷ rules) all =
    elim (Bool-cases (contains present (rule_fingerprint r))) [
      | inl there ↦ (h (rule_fingerprint r) there, from_missing P present h rules (rw there at all))
      | inr absent ↦ let (p, more) = split absent in (p, from_missing P present h rules more)
    ]
  where
    missing : List SecurityGroupRule
    missing = keep (λ r. not (contains present (rule_fingerprint r))) rules

    split :
        contains present (rule_fingerprint r) ≡ false
        → P (rule_fingerprint r) × All (λ r. P (rule_fingerprint r)) missing
    split absent = rw absent at all

module _ {C S : Type 0} (K : SecurityCalls C) (T : Tenacity) (project_id : String)
    (sg_cfg : SecurityGroupConfig) (sg : SecurityGroup) where
  -- What the run finds leads to the rules that are missing.
  pub ensure_baseline_sg-eq :
      (cfg : ProjectConfig) (w : World C S) (c : C)
      → cfg.security_group ≡ some sg_cfg
      → sg_cfg.name ≡ "default"
      → w.ctx.online ≡ true
      → K.find_security_group sg_cfg.name project_id w.cloud ≡ (ok (some sg), c)
      → length sg.security_group_rules ≤ 4
      → ensure_baseline_sg K T cfg project_id w
        ≡ add_missing K T project_id sg_cfg.name sg
            (find_missing_rules sg_cfg.rules sg.security_group_rules)
            (record w { cloud = c })
  unfolding ensure_baseline_sg if_security_group sg_online on_existing on_default
  ensure_baseline_sg-eq cfg w c configured named online finds few =
      let found : sg_online K T project_id sg_cfg w
          ≡ on_existing K T project_id sg_cfg (some sg) (record w { cloud = c }) =
        rw
          (retried-ok T (K.find_security_group sg_cfg.name project_id) w.cloud c (some sg) finds) in
      ap (λ o. if_security_group K T project_id o w) configured
      ∙ if_true w.ctx.online _ _ online
      ∙ found
      ∙ if_true (sg_cfg.name == "default") _ _ ((==_iff sg_cfg.name "default").1 named)
      ∙ if_false (ltb 4 (length sg.security_group_rules)) _ _ (ground arith)

module _ {C S : Type 0} (K : SecurityCalls C) (T : Tenacity) (project_id : String)
    (sg_cfg : SecurityGroupConfig) (sg : SecurityGroup) (fps : C → List Fingerprint)
    (A : AddsRules K project_id sg.id fps) where
  add_missing-adds :
      (missing : List SecurityGroupRule) (w : World C S)
      → w.ctx.dry_run ≡ false
      → All IsPlain missing
      → (a : Action) × (u : World C S) × (add_missing K T project_id sg_cfg.name sg missing w
          ≡ (ok a, u))
        × All (λ r. There K T project_id sg.id fps u (rule_fingerprint r)) missing
        × ((g : Fingerprint)
            → There K T project_id sg.id fps w g
            → There K T project_id sg.id fps u g)
  unfolding add_missing sg_action record_action
  add_missing-adds [] w live plain = (_, _, refl, tt, λ g h. h)
  add_missing-adds (r ∷ missing) w live plain =
      let (ns, u, e, all, kept) = add_rules K T project_id sg.id fps A (r ∷ missing) w plain in
      let (a, v, e', same) = reports u (added_part sg ns) in
      (a, v, if_false w.ctx.dry_run _ _ live ∙ rw e e', rw same all, rw same kept)
    where
      reports :
          (u : World C S) (details : Details)
          → (a : Action) × (v : World C S) × (sg_action updated sg_cfg.name details u ≡ (ok a, v))
            × (v.cloud ≡ u.cloud)
      reports u details = (_, _, refl, refl)

  -- Of a default group with at most four rules, which are shown by their fingerprints, and to which a
  -- creation adds the rule that it is told of unless there is one of its fingerprint, a live run returns.
  -- It leaves the group with a rule of the fingerprint of every configured rule, that is of its direction,
  -- protocol, ports and remote prefix, if none of them has an empty text for its protocol or prefix.
  pub ensure_baseline_sg_seeds :
      (cfg : ProjectConfig) (w : World C S) (c : C)
      → cfg.security_group ≡ some sg_cfg
      → sg_cfg.name ≡ "default"
      → All IsPlain sg_cfg.rules
      → w.ctx.online ≡ true
      → w.ctx.dry_run ≡ false
      → K.find_security_group sg_cfg.name project_id w.cloud ≡ (ok (some sg), c)
      → fps c ≡ map sdk_fingerprint sg.security_group_rules
      → length sg.security_group_rules ≤ 4
      → (a : Action) × (u : World C S) × (ensure_baseline_sg K T cfg project_id w ≡ (ok a, u))
        × All (λ r. contains (fps u.cloud) (rule_fingerprint r) ≡ true) sg_cfg.rules
  unfolding find_missing_rules
  ensure_baseline_sg_seeds cfg w c configured named plain online live finds shown few =
      let v : World C S = record w { cloud = c } in
      let missing = find_missing_rules sg_cfg.rules sg.security_group_rules in
      let (a, u, e, all, kept) =
        add_missing-adds missing v live (All-kept IsPlain _ sg_cfg.rules plain) in
      (
        a,
        u,
        ensure_baseline_sg-eq K T project_id sg_cfg sg cfg w c configured named online finds few
            ∙ e,
        from_missing _ (fps c) (λ g h. kept g h) sg_cfg.rules (rw shown all),
      )
