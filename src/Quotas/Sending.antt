-- ===== src/Quotas/Sending.antt =====
-- What a live run of `_ensure_compute_quotas` or `_ensure_block_storage_quotas` sends to a service
-- that keeps what it is sent.
use openstack_tenantctl.Base.{
  Bool, true, false, none, some, List, [], ◌∷◌, ◌≡◌, refl, sym, ◌∙◌, arith, String, contains,
  string_eq, if◌then◌else◌, keep, ok, Act, ◌>>=◌,
}
use openstack_tenantctl.Base.Dict.{Dict, get}
use openstack_tenantctl.Base.Int.{ℤ}
use openstack_tenantctl.Context.{Action, World, record_action}
use openstack_tenantctl.Quotas.{
  Attr, number, QuotaSet, QuotaService, keys, any, read_current, differs, is_lowered, clamp,
  changed_keys, sorted,
}
use openstack_tenantctl.Quotas.Sets.{
  QuotaKind, usage_of, one_action, up_to_date, settle, send, change, ensure_set,
}
use openstack_tenantctl.Quotas.Laws.{
  any-sorted, any-keep, keep-any, keep-is_lowered-same, read_current_reads,
}

-- A service that shows the quotas `view` of the project with what is `used`, and whose update
-- gives each key that it is sent its value.
pub record KeepsQuotas {C : Type 0} (calls : QuotaService C) (project_id : String)
    (view used : C → Dict String Attr) (write : Dict String ℤ → C → C) : Type 0 where
  pub get_quota_set-ok :
      (usage : Bool) (c : C)
      → calls.get_quota_set project_id usage c
        ≡ (ok (record { attributes = view c; usage = if usage then some (used c) else none }), c)
  pub update_quota_set-ok :
      (sent : Dict String ℤ) (c : C)
      → calls.update_quota_set project_id sent c ≡ (ok tt, write sent c)
  pub view-write :
      (sent : Dict String ℤ) (c : C) (k : String) (n : ℤ)
      → get k sent ≡ some n
      → get k (view (write sent c)) ≡ some (number n)
  pub used-write : (sent : Dict String ℤ) (c : C) → used (write sent c) ≡ used c

-- The service knows every configured key.
abbrev pub Knows : Dict String Attr → Dict String ℤ → Type 0
Knows quota desired =
    (k : String) → contains (keys desired) k ≡ true → (a : Attr) × (get k quota ≡ some a)

-- The desired quotas with the lowered ones clamped to what is used.
abbrev pub target : Dict String ℤ → Dict String Attr → Dict String Attr → Dict String ℤ
target desired current used =
    clamp (usage_of (some used)) (keep (is_lowered desired current) (keys desired)) desired

abbrev pub is_different : Dict String ℤ → Dict String Attr → Bool
is_different desired current = any (differs desired current) (keys desired)

changed_keys-nil :
    (desired : Dict String ℤ) (current : Dict String Attr)
    → changed_keys desired current ≡ []
    → is_different desired current ≡ false
unfolding changed_keys
changed_keys-nil desired current h =
    sym (any-sorted (differs desired current) (keys desired))
    ∙ any-keep (differs desired current) (sorted (keys desired)) h

nil-changed_keys :
    (desired : Dict String ℤ) (current : Dict String Attr)
    → is_different desired current ≡ false
    → changed_keys desired current ≡ []
unfolding changed_keys
nil-changed_keys desired current h =
    keep-any (differs desired current) (sorted (keys desired))
      (any-sorted (differs desired current) (keys desired) ∙ h)

abbrev pub quota_of : Dict String Attr → QuotaSet
quota_of attributes = record { attributes = attributes; usage = none }

-- A list of changes that is not empty has a difference.
changed_keys-cons :
    (desired : Dict String ℤ) (current : Dict String Attr) (k : String) (ks : List String)
    → changed_keys desired current ≡ k ∷ ks
    → is_different desired current ≡ true
changed_keys-cons desired current k ks h = ground (arith, h, nil-changed_keys desired current)

module _ {C S : Type 0} (t : QuotaKind C) (project_id : String) (view used : C → Dict String Attr)
    (write : Dict String ℤ → C → C) (K : KeepsQuotas t.calls project_id view used write) where
  -- The run returns: it sends `wanted` if that differs from `current`, and else leaves the cloud.
  abbrev pub Sends :
      Dict String ℤ
      → Dict String Attr
      → Dict String Attr
      → World C S
      → Act (World C S) (List Action)
      → Type 0
  Sends wanted current quota w m =
      (actions : List Action) × (v : World C S) × (m w ≡ (ok actions, v))
      × (v.ctx.dry_run ≡ w.ctx.dry_run)
      × (v.ctx.online ≡ w.ctx.online)
      × (v.cloud ≡ (
          if is_different wanted current
          then write (t.sent (quota_of quota) wanted) w.cloud
          else w.cloud))

  settle_target :
      (lowered : List String) (desired : Dict String ℤ) (w : World C S)
      → w.ctx.dry_run ≡ false
      → settle t project_id lowered desired w
        ≡ (ok (clamp (usage_of (some (used w.cloud))) lowered desired), w)
  unfolding settle clamp
  settle_target [] desired w d = refl
  settle_target (k ∷ lowered) desired w d = ground (arith, d, K.get_quota_set-ok true w.cloud)

  Sends-same :
      (wanted : Dict String ℤ) (current quota : Dict String Attr) (w : World C S)
      (m k : Act (World C S) (List Action))
      → m w ≡ k w
      → Sends wanted current quota w k
      → Sends wanted current quota w m
  Sends-same wanted current quota w m k e (actions, v, h, d, o, c) = (actions, v, e ∙ h, d, o, c)

  send-Sends :
      (wanted : Dict String ℤ) (current quota : Dict String Attr) (changed : List String)
      (w : World C S)
      → changed_keys wanted current ≡ changed
      → Sends wanted current quota w (send t project_id (quota_of quota) current wanted changed)
  unfolding send up_to_date one_action record_action
  send-Sends wanted current quota [] w e =
      (_, _, refl, refl, refl, ground (arith, changed_keys-nil wanted current e))
  send-Sends wanted current quota (k ∷ changed) w e =
      rw (K.update_quota_set-ok (t.sent (quota_of quota) wanted) w.cloud)
        (_, _, refl, refl, refl, ground (arith, changed_keys-cons wanted current k changed e))

  change-Sends :
      (wanted : Dict String ℤ) (current quota : Dict String Attr) (w : World C S)
      → w.ctx.dry_run ≡ false
      → Sends wanted current quota w (change t project_id (quota_of quota) current wanted)
  unfolding change
  change-Sends wanted current quota w d =
      Sends-same wanted current quota w (change t project_id (quota_of quota) current wanted)
        (send t project_id (quota_of quota) current wanted (changed_keys wanted current))
        (ground (arith, d)) (send-Sends wanted current quota (changed_keys wanted current) w refl)

  -- What `ensure_set` does with the values that it read.
  compared : Dict String ℤ → Dict String Attr → Dict String Attr → Act (World C S) (List Action)
  unfolding settle change up_to_date
  compared desired current quota =
      if is_different desired current
      then (do
        wanted ← settle t project_id (keep (is_lowered desired current) (keys desired)) desired
        change t project_id (quota_of quota) current wanted)
      else up_to_date t (keys desired) current

  ensure_set_reads :
      (desired : Dict String ℤ) (current : Dict String Attr) (w : World C S)
      → read_current (view w.cloud) (keys desired) w ≡ (ok current, w)
      → ensure_set t project_id desired w ≡ compared desired current (view w.cloud) w
  unfolding ensure_set compared
  ensure_set_reads desired current w r = rw (K.get_quota_set-ok false w.cloud, r) refl

  compared-Sends :
      (desired : Dict String ℤ) (current : Dict String Attr) (w : World C S) (b : Bool)
      → w.ctx.dry_run ≡ false
      → is_different desired current ≡ b
      → Sends
          (target desired current (used w.cloud))
          current
          (view w.cloud)
          w
          (compared desired current (view w.cloud))
  unfolding compared up_to_date clamp one_action record_action
  compared-Sends desired current w true d e =
      Sends-same (target desired current (used w.cloud)) current (view w.cloud) w
        (compared desired current (view w.cloud))
        (change t project_id (quota_of (view w.cloud)) current
          (target desired current (used w.cloud)))
        (rw (e, settle_target (keep (is_lowered desired current) (keys desired)) desired w d) refl)
        (change-Sends (target desired current (used w.cloud)) current (view w.cloud) w d)
  compared-Sends desired current w false d e =
      Sends-same (target desired current (used w.cloud)) current (view w.cloud) w
        (compared desired current (view w.cloud)) (up_to_date t (keys desired) current) (rw e refl)
        (up_to_date-Sends desired current (view w.cloud) w e)
    where
      up_to_date-Sends :
          (desired : Dict String ℤ) (current quota : Dict String Attr) (w : World C S)
          → is_different desired current ≡ false
          → Sends
              (target desired current (used w.cloud))
              current
              quota
              w
              (up_to_date t (keys desired) current)
      up_to_date-Sends desired current quota w e =
          rw (keep-is_lowered-same desired current e, e) (_, _, refl, refl, refl, refl)

  -- A live run reads the quotas, and sends the target if that differs from them.
  pub ensure_set-Sends :
      (desired : Dict String ℤ) (w : World C S)
      → w.ctx.dry_run ≡ false
      → Knows (view w.cloud) desired
      → (current : Dict String Attr) × ((k : String)
          → contains (keys desired) k ≡ true
          → get k current ≡ get k (view w.cloud))
        × Sends
            (target desired current (used w.cloud))
            current
            (view w.cloud)
            w
            (ensure_set t project_id desired)
  ensure_set-Sends desired w d known =
      let (current, r, same) = read_current_reads (view w.cloud) (keys desired) w known in
      (
        current,
        same,
        Sends-same (target desired current (used w.cloud)) current (view w.cloud) w
            (ensure_set t project_id desired) (compared desired current (view w.cloud))
            (ensure_set_reads desired current w r)
            (compared-Sends desired current w (is_different desired current) d refl),
      )
