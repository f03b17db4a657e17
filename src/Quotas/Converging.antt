-- ===== src/Quotas/Converging.antt =====
-- What a run of `_ensure_compute_quotas` makes of Nova's quotas, and what a second one does.
use openstack_tenantctl.Base.{
  ℕ, true, false, some, List, ◌≡◌, refl, ◌∙◌, ◌⊎◌, arith, String, string_eq, if◌then◌else◌, ok,
}
use openstack_tenantctl.Base.Dict.{Dict, get}
use openstack_tenantctl.Base.Int.{ℤ, pos, negsuc, ◌≤ℤ◌, ◌<ℤ◌}
use openstack_tenantctl.Cloud.{Tenacity, Attempts-ok}
use openstack_tenantctl.Models.{ProjectConfig, QuotaConfig}
use openstack_tenantctl.Context.{Action, World}
use openstack_tenantctl.Context.Retry.{retried, is_retryable}
use openstack_tenantctl.Quotas.{Attr, nothing, number, text, QuotaCalls, attr_of, below}
use openstack_tenantctl.Quotas.Sets.{
  usage_of, ensure_set, ensure_configured, compute_kind, ensure_compute_quotas,
}
use openstack_tenantctl.Quotas.Sending.{KeepsQuotas, Knows}
use openstack_tenantctl.Quotas.Settling.{ensure_set_settles, ensure_set_settled, value_at}
use openstack_tenantctl.Quotas.Laws.{keys-contains, clamped}

-- What becomes of a quota: at least what is wanted, more only as far as it was lowered below what
-- is used, and a lowered one not below what is used.
abbrev pub IsSettled : Attr → Attr → ℤ → ℤ → Type 0
IsSettled (number current) (number used) n m =
    (n ≤ℤ m) × ((m ≡ n) ⊎ ((m ≡ used) × (n <ℤ current))) × ((n <ℤ current) → used ≤ℤ m)
IsSettled nothing used n m = m ≡ n
IsSettled (text s) used n m = m ≡ n
IsSettled (number current) nothing n m = m ≡ n
IsSettled (number current) (text s) n m = m ≡ n

-- The configured quotas are settled against the quotas and the usage from before.
abbrev pub AllSettled :
    Dict String ℤ → Dict String Attr → Dict String Attr → Dict String Attr → Type 0
AllSettled desired before used after =
    (k : String) (n : ℤ)
    → get k desired ≡ some n
    → (m : ℤ) × (get k after ≡ some (number m))
      × IsSettled (attr_of k before) (usage_of (some used) k) n m

lowered-IsSettled :
    (current used : Attr) (n : ℤ)
    → IsSettled current used n (if below n current then clamped used n else n)
unfolding below
lowered-IsSettled (number (pos c)) (number u) n = ground arith
lowered-IsSettled (number (negsuc c)) (number u) n = ground arith
lowered-IsSettled (number c) nothing n = ground arith
lowered-IsSettled (number c) (text s) n = ground arith
lowered-IsSettled nothing used n = refl
lowered-IsSettled (text s) used n = refl

clamped_unlimited :
    (before used : Dict String Attr) (k : String) (current in_use : ℕ)
    → get k before ≡ some (number (pos current))
    → get k used ≡ some (number (pos in_use))
    → some (number (value_at before used k (negsuc 0))) ≡ some (number (pos in_use))
unfolding attr_of usage_of below
clamped_unlimited before used k current in_use b u = ground (arith, b, u)

module _ {C S : Type 0} (Q : QuotaCalls C) (T : Tenacity) where
  -- The body that the decorator retries.
  configured :
      (cfg : ProjectConfig) (q : QuotaConfig) (project_id : String) (w : World C S)
      → cfg.quotas ≡ some q
      → w.ctx.online ≡ true
      → ensure_configured (compute_kind Q) cfg project_id w
        ≡ ensure_set (compute_kind Q) project_id q.compute w
  unfolding ensure_configured compute_kind
  configured cfg q project_id w e o = ground (arith, e, o)

  retried_once :
      (cfg : ProjectConfig) (q : QuotaConfig) (project_id : String) (w : World C S)
      (actions : List Action) (v : World C S)
      → cfg.quotas ≡ some q
      → w.ctx.online ≡ true
      → ensure_set (compute_kind Q) project_id q.compute w ≡ (ok actions, v)
      → ensure_compute_quotas Q T cfg project_id w ≡ (ok actions, v)
  unfolding ensure_compute_quotas retried
  retried_once cfg q project_id w actions v e o h =
      Attempts-ok actions v
        (T.retry-Attempts (World C S) (List Action) is_retryable 4
          (ensure_configured (compute_kind Q) cfg project_id) w)
        (configured cfg q project_id w e o ∙ h)

module _ {C S : Type 0} (Q : QuotaCalls C) (T : Tenacity) (project_id : String)
    (view used : C → Dict String Attr) (write : Dict String ℤ → C → C)
    (K : KeepsQuotas Q.compute project_id view used write) where
  -- Of a Nova that knows the configured keys and keeps what it is sent, a live run returns with every
  -- configured quota at least what is wanted, and more only where it was lowered below what is used,
  -- to what is used; a quota that was lowered is not below what is used.
  pub ensure_compute_quotas_settles :
      (cfg : ProjectConfig) (q : QuotaConfig) (w : World C S)
      → cfg.quotas ≡ some q
      → w.ctx.online ≡ true
      → w.ctx.dry_run ≡ false
      → Knows (view w.cloud) q.compute
      → (actions : List Action) × (v : World C S) × (ensure_compute_quotas Q T cfg project_id w
          ≡ (ok actions, v))
        × AllSettled q.compute (view w.cloud) (used w.cloud) (view v.cloud)
  unfolding compute_kind
  ensure_compute_quotas_settles cfg q w e o d known =
      let (actions, v, h, _, _, _, at) =
        ensure_set_settles (compute_kind Q) project_id view used write K q.compute w d known in
      (
        actions,
        v,
        retried_once Q T cfg q project_id w actions v e o h,
        λ k n g. (
          _,
          at k n (λ quota wanted m x. x) g,
          lowered-IsSettled (attr_of k (view w.cloud)) (usage_of (some (used w.cloud)) k) n,
        ),
      )

  -- In a Nova that knows the configured keys and keeps what it is sent, a live run and a second
  -- one directly after it both return, and the second leaves the cloud as it is.
  pub ensure_compute_quotas_idempotent :
      (cfg : ProjectConfig) (q : QuotaConfig) (w : World C S)
      → cfg.quotas ≡ some q
      → w.ctx.online ≡ true
      → w.ctx.dry_run ≡ false
      → Knows (view w.cloud) q.compute
      → (first second : List Action) × (v u : World C S) × (ensure_compute_quotas Q T cfg project_id
            w
          ≡ (ok first, v))
        × (ensure_compute_quotas Q T cfg project_id v ≡ (ok second, u))
        × (u.cloud ≡ v.cloud)
  unfolding compute_kind
  ensure_compute_quotas_idempotent cfg q w e o d known =
      let (first, v, h, d', o', kept, at) =
        ensure_set_settles (compute_kind Q) project_id view used write K q.compute w d known in
      let settled =
        λ (k : String) (n : ℤ) (g : get k q.compute ≡ some n). at k n (λ quota wanted m x. x) g in
      let (second, u, h', same) =
        ensure_set_settled (compute_kind Q) project_id view used write K q.compute (used w.cloud)
          (view w.cloud) v (d' ∙ d)
          (λ k c. let (n, g) = keys-contains k q.compute c in (_, settled k n g)) kept settled in
      (
        first,
        second,
        v,
        u,
        retried_once Q T cfg q project_id w first v e o h,
        retried_once Q T cfg q project_id v second u e (o' ∙ o) h',
        same,
      )

  -- In a Nova that knows the configured keys and keeps what it is sent, a live run returns, and
  -- a quota that is configured as -1, which stands for no limit, but had a limit before is then
  -- what was used before the run.
  pub ensure_compute_quotas_unlimited :
      (cfg : ProjectConfig) (q : QuotaConfig) (w : World C S) (k : String) (current in_use : ℕ)
      → cfg.quotas ≡ some q
      → w.ctx.online ≡ true
      → w.ctx.dry_run ≡ false
      → Knows (view w.cloud) q.compute
      → get k q.compute ≡ some (negsuc 0)
      → get k (view w.cloud) ≡ some (number (pos current))
      → get k (used w.cloud) ≡ some (number (pos in_use))
      → (actions : List Action) × (v : World C S) × (ensure_compute_quotas Q T cfg project_id w
          ≡ (ok actions, v))
        × (get k (view v.cloud) ≡ some (number (pos in_use)))
  unfolding compute_kind
  ensure_compute_quotas_unlimited cfg q w k current in_use e o d known g b u =
      let (actions, v, h, _, _, _, at) =
        ensure_set_settles (compute_kind Q) project_id view used write K q.compute w d known in
      (
        actions,
        v,
        retried_once Q T cfg q project_id w actions v e o h,
        at k (negsuc 0) (λ quota wanted m x. x) g
            ∙ clamped_unlimited (view w.cloud) (used w.cloud) k current in_use b u,
      )
