-- ===== src/Quotas/Settling.antt =====
-- What `_ensure_compute_quotas` and `_ensure_block_storage_quotas` make of the quotas of a service
-- that keeps what it is sent.
use mathlib.Core.Option.{some-injective}
use openstack_tenantctl.Base.{
  Bool, true, false, Option, some, List, ◌≡◌, refl, sym, ◌∙◌, ap, inl, inr, arith, String, contains,
  string_eq, if◌then◌else◌, keep, ok, Bool-cases,
}
use openstack_tenantctl.Base.Dict.{Dict, get}
use openstack_tenantctl.Base.Int.{ℤ}
use openstack_tenantctl.Context.{Action, World}
use openstack_tenantctl.Quotas.{
  Attr, nothing, number, text, QuotaSet, keys, attr_of, is_lowered, below,
}
use openstack_tenantctl.Quotas.Sets.{QuotaKind, usage_of, ensure_set}
use openstack_tenantctl.Quotas.Sending.{
  KeepsQuotas, Knows, target, is_different, quota_of, ensure_set-Sends,
}
use openstack_tenantctl.Quotas.Laws.{
  contains-keys, any-differs_agree, differs-agree, clamped, get-clamp-lowered, clamp-some,
}

-- What clamping gives stays as it is in the next run.
value_idem :
    (current used : Attr) (n m : ℤ)
    → m ≡ (if below n current then clamped used n else n)
    → (if below n (number m) then clamped used n else n) ≡ m
unfolding below
value_idem (number c) (number u) n m h = ground (arith, h)
value_idem (number c) nothing n m h = ground (arith, h)
value_idem (number c) (text s) n m h = ground (arith, h)
value_idem nothing used n m h = ground (arith, h)
value_idem (text s) used n m h = ground (arith, h)

same_target :
    (o : Option ℤ) (current used_now used_before : Attr) (value n m : ℤ)
    → o ≡ some (if below n current then clamped used_now n else n)
    → o ≡ some m
    → current ≡ number value
    → used_now ≡ used_before
    → (if below n (number value) then clamped used_before n else n) ≡ value
    → number value ≡ number m
same_target o current used_now used_before value n m h g a u i =
    ap number (sym i ∙ some-injective _ _ (rw (a, u) at (sym h ∙ g)))

attr_of-get :
    (k : String) (d : Dict String Attr) (n : ℤ) → attr_of k d ≡ number n → get k d ≡ some (number n)
unfolding attr_of
attr_of-get k d n h = ground (arith, h)

attr_of-some : (k : String) (d : Dict String Attr) (a : Attr) → get k d ≡ some a → attr_of k d ≡ a
unfolding attr_of
attr_of-some k d a h = ground (arith, h)

get-attr_of : (k : String) (d e : Dict String Attr) → get k d ≡ get k e → attr_of k d ≡ attr_of k e
unfolding attr_of
get-attr_of k d e h = ground (arith, h)

-- What the kind sends has the wanted value of the key.
abbrev pub Sent : {C : Type 0} → QuotaKind C → String → Type 0
Sent t k =
    (quota : QuotaSet) (wanted : Dict String ℤ) (n : ℤ)
    → get k wanted ≡ some n
    → get k (t.sent quota wanted) ≡ some n

-- The value that a configured key has after a run.
abbrev pub value_at : Dict String Attr → Dict String Attr → String → ℤ → ℤ
value_at before used k n =
    if below n (attr_of k before) then clamped (usage_of (some used) k) n else n

module _ {C : Type 0} (t : QuotaKind C) (project_id : String) (view used : C → Dict String Attr)
    (write : Dict String ℤ → C → C) (K : KeepsQuotas t.calls project_id view used write) where
  settles_at :
      (desired : Dict String ℤ) (current : Dict String Attr) (c c' : C) (k : String) (n : ℤ)
      → Sent t k
      → get k current ≡ get k (view c)
      → c' ≡ (
          if is_different (target desired current (used c)) current
          then write (t.sent (quota_of (view c)) (target desired current (used c))) c
          else c)
      → get k desired ≡ some n
      → get k (view c') ≡ some (number (value_at (view c) (used c) k n))
  settles_at desired current c c' k n sent same h g =
      let wanted = target desired current (used c) in
      let m = value_at (view c) (used c) k n in
      let a = get-attr_of k current (view c) same in
      let e : get k wanted ≡ some m =
        rw a at (get-clamp-lowered (usage_of (some (used c))) desired current k n g) in
      elim (Bool-cases (is_different wanted current)) [
        | inl d ↦
            let q =
              K.view-write (t.sent (quota_of (view c)) wanted) c k m
                (sent (quota_of (view c)) wanted m e) in
            ground (arith, h, d, q)
        | inr d ↦
            let q = attr_of-get k (view c) m (sym a ∙ any-differs_agree wanted current k m d e) in
            ground (arith, h, d, q)
      ]

  used_kept :
      (wanted : Dict String ℤ) (b : Bool) (c c' : C)
      → c' ≡ (if b then write wanted c else c)
      → used c' ≡ used c
  used_kept wanted true c c' h = ap used h ∙ K.used-write wanted c
  used_kept wanted false c c' h = ap used h

module _ {C S : Type 0} (t : QuotaKind C) (project_id : String) (view used : C → Dict String Attr)
    (write : Dict String ℤ → C → C) (K : KeepsQuotas t.calls project_id view used write) where
  -- A live run returns with the quotas settled.
  pub ensure_set_settles :
      (desired : Dict String ℤ) (w : World C S)
      → w.ctx.dry_run ≡ false
      → Knows (view w.cloud) desired
      → (actions : List Action) × (v : World C S) × (ensure_set t project_id desired w
          ≡ (ok actions, v))
        × (v.ctx.dry_run ≡ w.ctx.dry_run)
        × (v.ctx.online ≡ w.ctx.online)
        × (used v.cloud ≡ used w.cloud)
        × ((k : String) (n : ℤ)
            → Sent t k
            → get k desired ≡ some n
            → get k (view v.cloud) ≡ some (number (value_at (view w.cloud) (used w.cloud) k n)))
  ensure_set_settles desired w d known =
      let (current, same, (actions, v, h, d', o, c)) =
        ensure_set-Sends t project_id view used write K desired w d known in
      (
        actions,
        v,
        h,
        d',
        o,
        used_kept t project_id view used write K
            (t.sent (quota_of (view w.cloud)) (target desired current (used w.cloud)))
            (is_different (target desired current (used w.cloud)) current) w.cloud v.cloud c,
        λ k n sent g.
            settles_at t project_id view used write K desired current w.cloud v.cloud k n sent
              (same k (contains-keys k n desired g)) c g,
      )

  -- A run over quotas that are settled sends nothing.
  pub ensure_set_settled :
      (desired : Dict String ℤ) (used_before before : Dict String Attr) (w : World C S)
      → w.ctx.dry_run ≡ false
      → Knows (view w.cloud) desired
      → used w.cloud ≡ used_before
      → ((k : String) (n : ℤ)
          → get k desired ≡ some n
          → get k (view w.cloud) ≡ some (number (value_at before used_before k n)))
      → (actions : List Action) × (v : World C S) × (ensure_set t project_id desired w
          ≡ (ok actions, v))
        × (v.cloud ≡ w.cloud)
  ensure_set_settled desired used_before before w d known u settled =
      let (current, same, (actions, v, h, d', o, c)) =
        ensure_set-Sends t project_id view used write K desired w d known in
      (actions, v, h, ground (arith, c, agreed current same))
    where
      agreed :
          (current : Dict String Attr)
          → ((k : String) → contains (keys desired) k ≡ true → get k current ≡ get k (view w.cloud))
          → is_different (target desired current (used w.cloud)) current ≡ false
      agreed current same = differs-agree (target desired current (used w.cloud)) current (λ k m g.
          let (n, e) =
            clamp-some (usage_of (some (used w.cloud)))
              (keep (is_lowered desired current) (keys desired)) desired k m g in
          let value = value_at before used_before k n in
          let a =
            attr_of-some k current (number value)
              (same k (contains-keys k n desired e) ∙ settled k n e) in
          a
          ∙ same_target _ (attr_of k current) (usage_of (some (used w.cloud)) k)
              (usage_of (some used_before) k) value n m
              (get-clamp-lowered (usage_of (some (used w.cloud))) desired current k n e) g a
              (ap (λ x. usage_of (some x) k) u)
              (value_idem (attr_of k before) (usage_of (some used_before) k) n value refl))
