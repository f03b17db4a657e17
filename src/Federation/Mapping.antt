-- ===== src/Federation/Mapping.antt =====
-- `ensure_federation_mapping` of src/resources/federation.py. The calls that read the clock and push the
-- mapping are parameters.
use openstack_tenantctl.Base.{
  ℕ, ◌+◌, Bool, true, false, ◌&&◌, not, Option, none, some, List, [], ◌∷◌, ◌++◌, map, String, ◌==◌,
  string_eq, nat_eq, if◌then◌else◌, length, Act, ok, ◌>>=◌, ◌>>◌,
}
use openstack_tenantctl.Base.Int.{pos, int_eq}
use openstack_tenantctl.Cloud.{Tenacity}
use openstack_tenantctl.Models.{ProjectConfig}
use openstack_tenantctl.Projects.{same_bool}
use openstack_tenantctl.Store.{
  Value, null, boolean, num, str, sequence, mapping, Items, no_items, item, Fields, end, field, get,
}
use openstack_tenantctl.Context.{
  Context, Action, lit, int, created, updated, skipped, World, on_cloud, record_action,
}
use openstack_tenantctl.Context.Retry.{retried}
use openstack_tenantctl.ExternalNetwork.{is_empty}
use openstack_tenantctl.Federation.Rules.{build_generated_rules, rule_to_dict}

size : Fields → ℕ
size end = 0
size (field k v d) = 1 + size d

unfoldable pub holds_of : (Value → Bool) → Option Value → Bool
holds_of p none = false
holds_of p (some v) = p v

-- `a == b`, for which the order of a dict's keys does not count.
unfoldable mutual
  unfolding same_bool size holds_of

  pub same : Value → Value → Bool
  same null null = true
  same (boolean b) (boolean b') = same_bool b b'
  same (num n) (num n') = n == n'
  same (str s) (str s') = s == s'
  same (sequence xs) (sequence ys) = same_items xs ys
  same (mapping d) (mapping e) = size d == size e && within d e
  same _ _ = false

  pub same_items : Items → Items → Bool
  same_items no_items no_items = true
  same_items (item x xs) (item y ys) = same x y && same_items xs ys
  same_items _ _ = false

  -- Every key of the first dict is in the second, with the same value.
  pub within : Fields → Fields → Bool
  within end e = true
  within (field k v d) e = holds_of (same v) (get k e) && within d e

unfoldable pub same_rules : List Value → List Value → Bool
unfolding same
same_rules [] [] = true
same_rules (x ∷ xs) (y ∷ ys) = same x y && same_rules xs ys
same_rules _ _ = false

-- `datetime.now(UTC)` as an instant, and the calls of `identity_v3(conn)`.
pub record MappingCalls (C : Type 0) : Type 0 where
  pub now : C → ℕ × C
  pub create_mapping : String → List Value → Act C (Unit {0})
  pub update_mapping : String → List Value → Act C (Unit {0})

-- The id that the first project with one names.
unfoldable pub mapping_id_of : List ProjectConfig → String
unfolding is_empty
mapping_id_of [] = "federated_mapping"
mapping_id_of (cfg ∷ all_projects) =
    let rest = mapping_id_of all_projects in
    elim cfg.federation [
      | none ↦ rest
      | some federation ↦ if is_empty federation.mapping_id then rest else federation.mapping_id
    ]

unfoldable pub combined_rules : ℕ → List ProjectConfig → Context → List Value
unfolding build_generated_rules rule_to_dict
combined_rules now all_projects ctx =
    ctx.static_mapping_rules ++ map rule_to_dict (build_generated_rules now all_projects)

module _ {C S : Type 0} (I : MappingCalls C) (T : Tenacity) where
  push_mapping : String → List Value → Bool → Act (World C S) (Unit {0})
  unfolding retried
  push_mapping mapping_id rules create = on_cloud (
      retried T
        (if create then I.create_mapping mapping_id rules else I.update_mapping mapping_id rules))

  -- The rules differ from the current ones.
  change_mapping : List ProjectConfig → List Value → Act (World C S) Action
  unfolding push_mapping mapping_id_of record_action
  change_mapping all_projects combined w =
      if w.ctx.dry_run
      then record_action updated "federation_mapping" "mapping"
          (lit "would update ("
            ∷ int (pos (length w.ctx.current_mapping_rules))
            ∷ lit " → "
            ∷ int (pos (length combined))
            ∷ lit " rules)"
            ∷ [])
          w
      else (do
        push_mapping (mapping_id_of all_projects) combined (not w.ctx.mapping_exists)
        record_action (if not w.ctx.mapping_exists then created else updated) "federation_mapping"
            (mapping_id_of all_projects) (lit "rules=" ∷ int (pos (length combined)) ∷ []))
          w

  push_unless_same : List ProjectConfig → List Value → Act (World C S) Action
  unfolding change_mapping same_rules record_action
  push_unless_same all_projects combined w =
      if same_rules combined w.ctx.current_mapping_rules
      then record_action skipped "federation_mapping" "mapping"
          (lit "already up to date, rules=" ∷ int (pos (length combined)) ∷ []) w
      else change_mapping all_projects combined w

  unfoldable pub ensure_federation_mapping : List ProjectConfig → Act (World C S) Action
  unfolding push_unless_same combined_rules
  ensure_federation_mapping all_projects = do
    now ← on_cloud (λ c. let (t, c') = I.now c in (ok t, c'))
    λ w. push_unless_same all_projects (combined_rules now all_projects w.ctx) w
