-- ===== src/Quotas/Overlay.antt =====
-- The keys that `_ensure_block_storage_quotas` sends to Cinder, which resets those that it is not
-- sent: the quotas that are not configured stay.
use openstack_tenantctl.Base.{
  true, false, none, some, List, [], ◌∷◌, ◌≡◌, ◌≢◌, refl, ◌∙◌, inl, inr, arith, String, string_eq,
  keep, ok, Bool-cases,
}
use openstack_tenantctl.Base.Dict.{Dict, get, put, get-put}
use openstack_tenantctl.Base.Int.{ℤ}
use openstack_tenantctl.Cloud.{Tenacity, Attempts-ok}
use openstack_tenantctl.Models.{ProjectConfig, QuotaConfig}
use openstack_tenantctl.Context.{Action, World}
use openstack_tenantctl.Context.Retry.{retried, is_retryable}
use openstack_tenantctl.Quotas.{Attr, nothing, number, text, QuotaSet, QuotaCalls, keys, is_lowered}
use openstack_tenantctl.Quotas.Sets.{
  usage_of, is_meta, limits, update, pop, merged, ensure_configured, block_storage_kind,
  ensure_block_storage_quotas,
}
use openstack_tenantctl.Quotas.Sending.{
  KeepsQuotas, Knows, target, is_different, quota_of, ensure_set-Sends,
}
use openstack_tenantctl.Quotas.Laws.{get-clamp}

get-limits :
    (raw : Dict String Attr) (k : String) (n : ℤ)
    → is_meta k ≡ false
    → get k raw ≡ some (number n)
    → get k (limits raw) ≡ some n
unfolding limits get
get-limits [] k n m h = cc
get-limits ((j, number i) ∷ raw) k n m h = ground (arith, get-limits raw k n m)
get-limits ((j, nothing) ∷ raw) k n m h = ground (arith, get-limits raw k n m)
get-limits ((j, text s) ∷ raw) k n m h = ground (arith, get-limits raw k n m)

get-update :
    (kept wanted : Dict String ℤ) (k : String)
    → get k wanted ≡ none
    → get k (update kept wanted) ≡ get k kept
unfolding update get
get-update kept [] k h = refl
get-update kept ((j, n) ∷ wanted) k h =
    ground (arith, get-update (put j n kept) wanted k, get-put k j n kept)

get-pop : (j k : String) (d : Dict String ℤ) → k ≢ j → get k (pop j d) ≡ get k d
unfolding pop get
get-pop j k [] h = refl
get-pop j k ((i, n) ∷ d) h = ground (arith, get-pop j k d h)

meta_project_id : (k : String) → is_meta k ≡ false → k ≢ "project_id"
unfolding is_meta
meta_project_id k h e = ground (arith, h, e)

get-merged :
    (quota : QuotaSet) (wanted : Dict String ℤ) (k : String) (n : ℤ)
    → is_meta k ≡ false
    → get k quota.attributes ≡ some (number n)
    → get k wanted ≡ none
    → get k (merged quota wanted) ≡ some n
unfolding merged
get-merged quota wanted k n m h e =
    get-pop "project_id" k (update (limits quota.attributes) wanted) (meta_project_id k m)
    ∙ get-update (limits quota.attributes) wanted k e
    ∙ get-limits quota.attributes k n m h

get-target :
    (desired : Dict String ℤ) (current used : Dict String Attr) (k : String)
    → get k desired ≡ none
    → get k (target desired current used) ≡ none
get-target desired current used k h = ground (
  arith,
  h,
  get-clamp (usage_of (some used)) (keep (is_lowered desired current) (keys desired)) k desired,
)

module _ {C S : Type 0} (Q : QuotaCalls C) (T : Tenacity) (project_id : String)
    (view used : C → Dict String Attr) (write : Dict String ℤ → C → C)
    (K : KeepsQuotas Q.block_storage project_id view used write) where
  -- Of a Cinder that knows the configured keys, and of whose other keys an update says nothing, a live
  -- run returns and keeps the number of every key that is not configured and is no key of the
  -- object itself, such as its id.
  pub ensure_block_storage_quotas_keeps :
      (cfg : ProjectConfig) (q : QuotaConfig) (w : World C S) (k : String) (n : ℤ)
      → cfg.quotas ≡ some q
      → w.ctx.online ≡ true
      → w.ctx.dry_run ≡ false
      → Knows (view w.cloud) q.block_storage
      → get k q.block_storage ≡ none
      → is_meta k ≡ false
      → get k (view w.cloud) ≡ some (number n)
      → (actions : List Action) × (v : World C S) × (ensure_block_storage_quotas Q T cfg project_id
            w
          ≡ (ok actions, v))
        × (get k (view v.cloud) ≡ some (number n))
  unfolding ensure_block_storage_quotas block_storage_kind retried ensure_configured
  ensure_block_storage_quotas_keeps cfg q w k n e o d known g m b =
      let (current, same, (actions, v, h, _, _, c)) =
        ensure_set-Sends (block_storage_kind Q) project_id view used write K q.block_storage w d
          known in
      let body : ensure_configured (block_storage_kind Q) cfg project_id w ≡ (ok actions, v) =
        ground (arith, e, o, h) in
      let kept =
        K.view-write
          (merged (quota_of (view w.cloud)) (target q.block_storage current (used w.cloud))) w.cloud
          k n
          (get-merged (quota_of (view w.cloud)) (target q.block_storage current (used w.cloud)) k n
            m b (get-target q.block_storage current (used w.cloud) k g)) in
      (
        actions,
        v,
        Attempts-ok actions v
            (T.retry-Attempts (World C S) (List Action) is_retryable 4
              (ensure_configured (block_storage_kind Q) cfg project_id) w)
            body,
        elim (Bool-cases (is_different (target q.block_storage current (used w.cloud)) current)) [
          | inl t ↦ ground (arith, c, t, kept)
          | inr f ↦ ground (arith, c, f, b)
        ],
      )
