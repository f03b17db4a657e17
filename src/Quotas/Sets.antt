-- ===== src/Quotas/Sets.antt =====
-- The quota sets of Nova and Cinder: `_ensure_compute_quotas`, `_ensure_block_storage_quotas`.
use openstack_tenantctl.Base.{
  Bool, true, false, not, Option, none, some, List, [], ◌∷◌, ◌++◌, String, ◌==◌, contains,
  string_eq, if◌then◌else◌, keep, ok, Act, raise, pure, provisioner, dry_run_unsupported, ◌>>=◌,
  ◌>>◌,
}
use openstack_tenantctl.Base.Dict.{Dict, get, put}
use openstack_tenantctl.Base.Int.{ℤ, pos}
use openstack_tenantctl.Cloud.{Tenacity}
use openstack_tenantctl.Models.{ProjectConfig, QuotaConfig}
use openstack_tenantctl.Context.{
  Action, ActionStatus, Details, lit, updated, skipped, World, on_cloud, record_action,
}
use openstack_tenantctl.Context.Retry.{retried}
use openstack_tenantctl.Quotas.{
  Attr, nothing, number, text, QuotaSet, QuotaService, QuotaCalls, keys, any, read_current, differs,
  is_lowered, clamp, changed_keys, diff_details, current_details, desired_details,
}

-- What the two functions differ in: the section of the configuration that is wanted, the calls, and
-- the keys that an update sends.
pub record QuotaKind (C : Type 0) : Type 0 where
  pub resource_type : String
  pub calls : QuotaService C
  pub wanted : QuotaConfig → Dict String ℤ
  pub sent : QuotaSet → Dict String ℤ → Dict String ℤ

-- usage.get(k, 0), where no dict counts as an empty one.
unfoldable pub usage_of : Option (Dict String Attr) → String → Attr
usage_of none k = number (pos 0)
usage_of (some usage) k = elim (get k usage) [ none ↦ number (pos 0) | some a ↦ a ]

-- _QUOTA_SET_META_KEYS
unfoldable pub is_meta : String → Bool
is_meta k = contains ("id" ∷ "name" ∷ "project_id" ∷ "location" ∷ "reservation" ∷ "usage" ∷ []) k

-- The numbers of a quota set under no meta key.
unfoldable pub limits : Dict String Attr → Dict String ℤ
unfolding is_meta
limits [] = []
limits ((k, number n) ∷ raw) = if is_meta k then limits raw else (k, n) ∷ limits raw
limits ((k, nothing) ∷ raw) = limits raw
limits ((k, text s) ∷ raw) = limits raw

-- merged.update(desired)
unfoldable pub update : Dict String ℤ → Dict String ℤ → Dict String ℤ
update merged [] = merged
update merged ((k, n) ∷ desired) = update (put k n merged) desired

-- d.pop(k, None)
unfoldable pub pop : String → Dict String ℤ → Dict String ℤ
pop k [] = []
pop k ((j, n) ∷ d) = if k == j then pop k d else (j, n) ∷ pop k d

unfoldable pub merged : QuotaSet → Dict String ℤ → Dict String ℤ
unfolding limits update pop
merged quota desired = pop "project_id" (update (limits quota.attributes) desired)

module _ {C S : Type 0} where
  unfoldable pub one_action : ActionStatus → String → Details → Act (World C S) (List Action)
  unfolding record_action
  one_action status resource_type details = do
    action ← record_action status resource_type "" details
    pure (action ∷ [])

  unfoldable pub up_to_date :
      QuotaKind C → List String → Dict String Attr → Act (World C S) (List Action)
  unfolding one_action current_details
  up_to_date t ks current =
      one_action skipped t.resource_type (lit "already up to date, " ∷ current_details ks current)

  -- The desired quotas with the lowered ones clamped, in a run that is not dry.
  unfoldable pub settle :
      QuotaKind C → String → List String → Dict String ℤ → Act (World C S) (Dict String ℤ)
  unfolding usage_of clamp
  settle t project_id [] desired w = (ok desired, w)
  settle t project_id (k ∷ lowered) desired w =
      if w.ctx.dry_run
      then (ok desired, w)
      else (do
        quota ← on_cloud (t.calls.get_quota_set project_id true)
        pure (clamp (usage_of quota.usage) (k ∷ lowered) desired))
          w

  -- `if diff`
  unfoldable pub send :
      QuotaKind C
      → String
      → QuotaSet
      → Dict String Attr
      → Dict String ℤ
      → List String
      → Act (World C S) (List Action)
  unfolding up_to_date one_action desired_details
  send t project_id quota current desired [] = up_to_date t (keys desired) current
  send t project_id quota current desired (k ∷ changed) = do
    on_cloud (t.calls.update_quota_set project_id (t.sent quota desired))
    one_action updated t.resource_type (desired_details desired)

  unfoldable pub change :
      QuotaKind C
      → String
      → QuotaSet
      → Dict String Attr
      → Dict String ℤ
      → Act (World C S) (List Action)
  unfolding one_action diff_details send changed_keys
  change t project_id quota current desired w =
      if w.ctx.dry_run
      then one_action updated t.resource_type
          (lit "would update (" ∷ diff_details desired current ++ lit ")" ∷ []) w
      else send t project_id quota current desired (changed_keys desired current) w

  unfoldable pub ensure_set : QuotaKind C → String → Dict String ℤ → Act (World C S) (List Action)
  unfolding read_current any keys differs is_lowered settle change up_to_date
  ensure_set t project_id desired = do
    quota ← on_cloud (t.calls.get_quota_set project_id false)
    current ← read_current quota.attributes (keys desired)
    if any (differs desired current) (keys desired)
        then (do
          settled ← settle t project_id (keep (is_lowered desired current) (keys desired)) desired
          change t project_id quota current settled)
        else up_to_date t (keys desired) current

  unfoldable pub ensure_configured :
      QuotaKind C → ProjectConfig → String → Act (World C S) (List Action)
  unfolding ensure_set
  ensure_configured t cfg project_id w =
      if not w.ctx.online
      then raise (dry_run_unsupported "ctx.conn is None — not available in offline mode") w
      else elim cfg.quotas [
        | none ↦ raise (provisioner "cfg.quotas is None — should have been checked by caller") w
        | some q ↦ ensure_set t project_id (t.wanted q) w
      ]

module _ {C : Type 0} (Q : QuotaCalls C) where
  unfoldable pub compute_kind : QuotaKind C
  compute_kind = record {
    resource_type = "compute_quota";
    calls = Q.compute;
    wanted = λ q. q.compute;
    sent = λ quota desired. desired;
  }

  -- Cinder resets the keys that an update leaves out.
  unfoldable pub block_storage_kind : QuotaKind C
  unfolding merged
  block_storage_kind = record {
    resource_type = "block_storage_quota";
    calls = Q.block_storage;
    wanted = λ q. q.block_storage;
    sent = merged;
  }

module _ {C S : Type 0} (Q : QuotaCalls C) (T : Tenacity) where
  unfoldable pub ensure_compute_quotas : ProjectConfig → String → Act (World C S) (List Action)
  unfolding retried ensure_configured compute_kind
  ensure_compute_quotas cfg project_id =
      retried T (ensure_configured (compute_kind Q) cfg project_id)

  unfoldable pub ensure_block_storage_quotas :
      ProjectConfig → String → Act (World C S) (List Action)
  unfolding retried ensure_configured block_storage_kind
  ensure_block_storage_quotas cfg project_id =
      retried T (ensure_configured (block_storage_kind Q) cfg project_id)
