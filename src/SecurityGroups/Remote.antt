-- ===== src/SecurityGroups/Remote.antt =====
-- Rules that differ in their remote group alone, to `_find_missing_rules` of
-- src/resources/security_group.py.
use openstack_tenantctl.Base.{
  ◌≤◌, true, none, some, List, [], ◌∷◌, ◌++◌, map, ◌≡◌, refl, ◌∙◌, ap, arith, String, contains,
  length, ok, map-append-contains,
}
use openstack_tenantctl.Cloud.{Tenacity}
use openstack_tenantctl.Models.{ProjectConfig}
use openstack_tenantctl.Models.Security.{SecurityGroupRule, SecurityGroupConfig}
use openstack_tenantctl.Context.{Action, World, skipped, record_action}
use openstack_tenantctl.SecurityGroups.{
  SdkRule, SecurityGroup, SecurityCalls, fingerprint_eq, sdk_fingerprint, rule_fingerprint,
  find_missing_rules, sg_action, add_missing, ensure_baseline_sg,
}
use openstack_tenantctl.SecurityGroups.Seeding.{ensure_baseline_sg-eq}

in_the_middle :
    (existing : SdkRule) (xs ys : List SdkRule)
    → contains (map sdk_fingerprint (xs ++ existing ∷ ys)) (sdk_fingerprint existing) ≡ true
in_the_middle existing xs ys =
    ground
      (arith, map-append-contains sdk_fingerprint xs (existing ∷ ys) (sdk_fingerprint existing))

find_missing_rules-nil :
    (rule : SecurityGroupRule) (existing : SdkRule) (xs ys : List SdkRule)
    → rule_fingerprint rule ≡ sdk_fingerprint existing
    → find_missing_rules (rule ∷ []) (xs ++ existing ∷ ys) ≡ []
unfolding find_missing_rules
find_missing_rules-nil rule existing xs ys same = rw (same, in_the_middle existing xs ys)

module _ {C S : Type 0} (K : SecurityCalls C) (T : Tenacity) (project_id : String)
    (sg_cfg : SecurityGroupConfig) (sg : SecurityGroup) where
  -- A default group with at most four rules, one of which lets in the members of one group only, is
  -- taken to have a configured rule that names no group and is otherwise the same: if that is the only
  -- rule that is configured, a run skips and creates nothing.
  pub ensure_baseline_sg_ignores_group :
      (cfg : ProjectConfig) (w : World C S) (c : C) (rule : SecurityGroupRule) (existing : SdkRule)
      (g : String) (xs ys : List SdkRule)
      → cfg.security_group ≡ some sg_cfg
      → sg_cfg.name ≡ "default"
      → sg_cfg.rules ≡ rule ∷ []
      → w.ctx.online ≡ true
      → K.find_security_group sg_cfg.name project_id w.cloud ≡ (ok (some sg), c)
      → sg.security_group_rules ≡ xs ++ existing ∷ ys
      → length sg.security_group_rules ≤ 4
      → existing.remote_group_id ≡ some g
      → rule.remote_group_id ≡ none
      → rule_fingerprint rule ≡ sdk_fingerprint existing
      → (a : Action) × (u : World C S) × (ensure_baseline_sg K T cfg project_id w ≡ (ok a, u))
        × (a.status ≡ skipped)
        × (u.cloud ≡ c)
  unfolding add_missing sg_action record_action
  ensure_baseline_sg_ignores_group cfg w c rule existing g xs ys configured named one online finds
        has few closed open_rule same =
      let v : World C S = record w { cloud = c } in
      let none_missing : find_missing_rules sg_cfg.rules sg.security_group_rules ≡ [] =
        rw (one, has) (find_missing_rules-nil rule existing xs ys same) in
      (
        _,
        _,
        ensure_baseline_sg-eq K T project_id sg_cfg sg cfg w c configured named online finds few
            ∙ ap (λ rs. add_missing K T project_id sg_cfg.name sg rs v) none_missing,
        refl,
        refl,
      )
