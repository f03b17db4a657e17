-- ===== src/SecurityGroups.antt =====
-- The baseline security group of a project: src/resources/security_group.py, and `to_api_dict` of
-- src/models/security.py. The calls of `conn.network` are parameters.
pub mod Seeding
pub mod Remote
pub mod Fingerprints
use openstack_tenantctl.Base.{
  ℕ, ◌+◌, Bool, true, false, not, Option, none, some, List, [], ◌∷◌, ◌++◌, map, String, ◌==◌,
  contains, string_eq, if◌then◌else◌, keep, ltb, length, Eq, Exc, conflict, Act, pure, raise, catch,
  each, ◌>>=◌, ◌>>◌,
}
use openstack_tenantctl.Base.Dict.{Dict}
use openstack_tenantctl.Base.Int.{ℤ, pos, int_eq}
use openstack_tenantctl.Cloud.{Tenacity}
use openstack_tenantctl.Models.{ProjectConfig}
use openstack_tenantctl.Models.Security.{SecurityGroupRule, SecurityGroupConfig}
use openstack_tenantctl.Context.{
  Action, ActionStatus, Details, lit, int, created, updated, skipped, World, on_cloud,
  record_action,
}
use openstack_tenantctl.Context.Retry.{retried}
use openstack_tenantctl.ExternalNetwork.{is_empty}
use openstack_tenantctl.Networks.Stack.{is_conflict}

pub data ApiValue : Type 0 where
  text : String → ApiValue
  number : ℤ → ApiValue

unfoldable pub text_arg : String → Option String → Dict String ApiValue
unfolding is_empty
text_arg key none = []
text_arg key (some s) = if is_empty s then [] else (key, text s) ∷ []

unfoldable pub number_arg : String → Option ℤ → Dict String ApiValue
number_arg key none = []
number_arg key (some n) = (key, number n) ∷ []

-- The fields that are neither None nor "".
unfoldable pub to_api_dict : SecurityGroupRule → Dict String ApiValue
unfolding text_arg number_arg
to_api_dict rule =
    text_arg "direction" (some rule.direction)
    ++ (text_arg "protocol" rule.protocol
        ++ (number_arg "port_range_min" rule.port_range_min
            ++ (number_arg "port_range_max" rule.port_range_max
                ++ (text_arg "remote_ip_prefix" rule.remote_ip_prefix
                    ++ (text_arg "remote_group_id" rule.remote_group_id
                        ++ (text_arg "ethertype" rule.ethertype
                            ++ text_arg "description" (some rule.description)))))))

-- A rule of the SDK, a dict whose keys may be missing.
pub record SdkRule : Type 0 where
  pub direction : Option String
  pub protocol : Option String
  pub port_range_min : Option ℤ
  pub port_range_max : Option ℤ
  pub remote_ip_prefix : Option String
  pub remote_group_id : Option String
  pub ethertype : Option String

-- A security group of the SDK; no rules stand for None and for [].
pub record SecurityGroup : Type 0 where
  pub id : String
  pub security_group_rules : List SdkRule

pub record SecurityCalls (C : Type 0) : Type 0 where
  pub find_security_group : String → String → Act C (Option SecurityGroup)
  pub create_security_group : String → String → Act C String
  pub create_security_group_rule : String → String → Dict String ApiValue → Act C (Unit {0})

pub record Fingerprint : Type 0 where
  pub direction : Option String
  pub protocol : Option String
  pub port_range_min : Option ℤ
  pub port_range_max : Option ℤ
  pub remote_ip_prefix : Option String

string_dec : Discrete String
unfolding string_eq
string_dec = string_eq.dec

int_dec : Discrete ℤ
unfolding int_eq
int_dec = int_eq.dec

Fingerprint-discrete : Discrete Fingerprint
Fingerprint-discrete = hlevel (string_dec, int_dec)

instance unfoldable pub fingerprint_eq : Eq Fingerprint
unfolding Fingerprint-discrete string_dec int_dec
fingerprint_eq = record { dec = Fingerprint-discrete }

-- `_rule_fingerprint` of a rule of the SDK, and of a configured one.
unfoldable pub sdk_fingerprint : SdkRule → Fingerprint
sdk_fingerprint rule = record {
  direction = rule.direction;
  protocol = rule.protocol;
  port_range_min = rule.port_range_min;
  port_range_max = rule.port_range_max;
  remote_ip_prefix = rule.remote_ip_prefix;
}

unfoldable pub rule_fingerprint : SecurityGroupRule → Fingerprint
unfolding is_empty
rule_fingerprint rule = record {
  direction = if is_empty rule.direction then none else some rule.direction;
  protocol = rule.protocol;
  port_range_min = rule.port_range_min;
  port_range_max = rule.port_range_max;
  remote_ip_prefix = rule.remote_ip_prefix;
}

unfoldable pub find_missing_rules : List SecurityGroupRule → List SdkRule → List SecurityGroupRule
unfolding rule_fingerprint sdk_fingerprint
find_missing_rules configured existing =
    keep (λ r. not (contains (map sdk_fingerprint existing) (rule_fingerprint r))) configured

total : List ℕ → ℕ
total [] = 0
total (n ∷ ns) = n + total ns

count_part : List ℕ → Details
unfolding total
count_part ns = int (pos (total ns)) ∷ []

unfoldable pub added_part : SecurityGroup → List ℕ → Details
unfolding count_part
added_part sg rules_added =
    lit "id=" ∷ lit sg.id ∷ lit ", added " ∷ (count_part rules_added ++ lit " rule(s)" ∷ [])

module _ {C S : Type 0} where
  unfoldable pub sg_action : ActionStatus → String → Details → Act (World C S) Action
  unfolding record_action
  sg_action status name details = record_action status "security_group" name details

module _ {C S : Type 0} where
  -- One rule more, or none if there is one already.
  unfoldable pub rule_refused : Exc → Act (World C S) ℕ
  unfolding is_conflict
  rule_refused e = if is_conflict e then pure 0 else raise e

module _ {C : Type 0} (K : SecurityCalls C) (T : Tenacity) (project_id : String) where
  unfoldable pub create_security_group_rule : String → SecurityGroupRule → Act C (Unit {0})
  unfolding retried to_api_dict
  create_security_group_rule security_group_id rule =
      retried T (K.create_security_group_rule security_group_id project_id (to_api_dict rule))

module _ {C S : Type 0} (K : SecurityCalls C) (T : Tenacity) (project_id : String) where
  unfoldable pub create_counted : String → SecurityGroupRule → Act (World C S) ℕ
  unfolding create_security_group_rule
  create_counted security_group_id rule = do
    on_cloud (create_security_group_rule K T project_id security_group_id rule)
    pure 1

  unfoldable pub add_rule : String → SecurityGroupRule → Act (World C S) ℕ
  unfolding create_counted rule_refused
  add_rule security_group_id rule = catch (create_counted security_group_id rule) rule_refused

  unfoldable pub add_missing :
      String → SecurityGroup → List SecurityGroupRule → Act (World C S) Action
  unfolding sg_action add_rule added_part
  add_missing sg_name sg [] w =
      sg_action skipped sg_name (lit "all configured rules present" ∷ []) w
  add_missing sg_name sg (r ∷ missing) w =
      if w.ctx.dry_run
      then sg_action updated sg_name
          (lit "would add "
            ∷ int (pos (length (r ∷ missing)))
            ∷ lit " rule(s) to default SG (id="
            ∷ lit sg.id
            ∷ lit ")"
            ∷ [])
          w
      else (do
        rules_added ← each (add_rule sg.id) (r ∷ missing)
        sg_action updated sg_name (added_part sg rules_added))
          w

  unfoldable pub on_default : SecurityGroupConfig → SecurityGroup → Act (World C S) Action
  unfolding sg_action find_missing_rules add_missing
  on_default sg_cfg sg w =
      if ltb 4 (length sg.security_group_rules)
      then sg_action skipped sg_cfg.name
          (lit "already configured ("
            ∷ int (pos (length sg.security_group_rules))
            ∷ lit " rules)"
            ∷ [])
          w
      else add_missing sg_cfg.name sg (find_missing_rules sg_cfg.rules sg.security_group_rules) w

  unfoldable pub create_sg : SecurityGroupConfig → Act (World C S) Action
  unfolding sg_action create_counted count_part retried
  create_sg sg_cfg = do
    sg_id ← on_cloud (retried T (K.create_security_group sg_cfg.name project_id))
    rules_added ← each (create_counted sg_id) sg_cfg.rules
    sg_action created sg_cfg.name (lit "id=" ∷ lit sg_id ∷ lit ", rules=" ∷ count_part rules_added)

  unfoldable pub on_existing : SecurityGroupConfig → Option SecurityGroup → Act (World C S) Action
  unfolding sg_action on_default create_sg
  on_existing sg_cfg (some sg) w =
      if sg_cfg.name == "default"
      then on_default sg_cfg sg w
      else sg_action skipped sg_cfg.name (lit "already exists" ∷ []) w
  on_existing sg_cfg none w =
      if w.ctx.dry_run
      then sg_action created sg_cfg.name
          (lit "would create with " ∷ int (pos (length sg_cfg.rules)) ∷ lit " rule(s)" ∷ []) w
      else create_sg sg_cfg w

  unfoldable pub sg_online : SecurityGroupConfig → Act (World C S) Action
  unfolding retried on_existing
  sg_online sg_cfg = do
    existing ← on_cloud (retried T (K.find_security_group sg_cfg.name project_id))
    on_existing sg_cfg existing

  unfoldable pub if_security_group : Option SecurityGroupConfig → Act (World C S) Action
  unfolding sg_action sg_online
  if_security_group none w = sg_action skipped "all" (lit "no security_group configured" ∷ []) w
  if_security_group (some sg_cfg) w =
      if w.ctx.online
      then sg_online sg_cfg w
      else sg_action skipped sg_cfg.name
          (lit "would ensure SG with "
            ∷ int (pos (length sg_cfg.rules))
            ∷ lit " rules (offline)"
            ∷ [])
          w

module _ {C S : Type 0} (K : SecurityCalls C) (T : Tenacity) where
  unfoldable pub ensure_baseline_sg : ProjectConfig → String → Act (World C S) Action
  unfolding if_security_group
  ensure_baseline_sg cfg project_id = if_security_group K T project_id cfg.security_group
