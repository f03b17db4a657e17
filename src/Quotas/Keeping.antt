-- ===== src/Quotas/Keeping.antt =====
-- What the functions of src/resources/quotas.py keep: a predicate on the cloud and the dry-run flag
-- that the reading calls keep, and the updates where they are made.
use openstack_tenantctl.Base.{
  Bool, true, false, not, Option, none, some, List, [], ◌∷◌, ◌≡◌, refl, sym, ◌∙◌, String, string_eq,
  if◌then◌else◌, keep, Result, ok, raised, subst, provisioner, other, Exc, Act, pure, raise, catch,
  ◌>>=◌, ◌>>◌,
}
use openstack_tenantctl.Base.Dict.{Dict, get}
use openstack_tenantctl.Base.Int.{ℤ}
use openstack_tenantctl.Cloud.{Tenacity, Attempts-keeps}
use openstack_tenantctl.Models.{ProjectConfig, QuotaConfig}
use openstack_tenantctl.Context.{Action, ActionStatus, Details, World, on_cloud, record_action}
use openstack_tenantctl.Context.Retry.{retried, is_retryable}
use openstack_tenantctl.Quotas.{
  Attr, QuotaSet, QuotaService, keys, any, read_current, differs, is_lowered, changed_keys,
}
use openstack_tenantctl.Quotas.Sets.{
  QuotaKind, one_action, up_to_date, settle, send, change, ensure_set, ensure_configured,
}

module _ {C S : Type 0} (R : C → Bool → Type 0) where
  -- The store is as before, and the predicate holds.
  abbrev pub Kept : {A : Type 0} → World C S → Result A × World C S → Type 0
  Kept w r = (r.1.store ≡ w.store) × R r.1.cloud r.1.ctx.dry_run

  abbrev pub Keeps : {A : Type 0} → Act (World C S) A → Type 0
  Keeps m = (w : World C S) → R w.cloud w.ctx.dry_run → Kept w (m w)

  next-Kept :
      {A B : Type 0} (w : World C S) (r : Result A × World C S) (f : A → Act (World C S) B)
      → ((a : A) → Keeps (f a))
      → Kept w r
      → Kept w (((λ (_ : World C S). r) >>= f) w)
  next-Kept w (ok a, v) f g (s, p) = let (s', p') = g a v p in (s' ∙ s, p')
  next-Kept w (raised e, v) f g h = h

  pub bind-Keeps :
      {A B : Type 0} (m : Act (World C S) A) (f : A → Act (World C S) B)
      → Keeps m
      → ((a : A) → Keeps (f a))
      → Keeps (m >>= f)
  bind-Keeps m f h g w p = next-Kept w (m w) f g (h w p)

  handled-Kept :
      {A : Type 0} (w : World C S) (r : Result A × World C S) (h : Exc → Act (World C S) A)
      → ((e : Exc) → Keeps (h e))
      → Kept w r
      → Kept w (catch (λ (_ : World C S). r) h w)
  handled-Kept w (ok a, v) h g k = k
  handled-Kept w (raised e, v) h g (s, p) = let (s', p') = g e v p in (s' ∙ s, p')

  pub catch-Keeps :
      {A : Type 0} (m : Act (World C S) A) (h : Exc → Act (World C S) A)
      → Keeps m
      → ((e : Exc) → Keeps (h e))
      → Keeps (catch m h)
  catch-Keeps m h k g w p = handled-Kept w (m w) h g (k w p)

  pub pure-Keeps : {A : Type 0} (a : A) → Keeps (pure a)
  pure-Keeps a w p = (refl, p)

  pub if-Kept :
      {A : Type 0} (w : World C S) (b : Bool) (r q : Result A × World C S)
      → (b ≡ true → Kept w r)
      → (b ≡ false → Kept w q)
      → Kept w (if b then r else q)
  if-Kept w true r q h g = h refl
  if-Kept w false r q h g = g refl

  pub if-Keeps :
      {A : Type 0} (b : Bool) (m k : Act (World C S) A)
      → Keeps m
      → Keeps k
      → Keeps (if b then m else k)
  if-Keeps true m k h g = h
  if-Keeps false m k h g = g

  -- A test whose branches go on with `f`.
  pub if_next-Kept :
      {A B : Type 0} (w : World C S) (b : Bool) (r q : Result A × World C S)
      (f : A → Act (World C S) B)
      → (b ≡ true → Kept w (((λ (_ : World C S). r) >>= f) w))
      → (b ≡ false → Kept w (((λ (_ : World C S). q) >>= f) w))
      → Kept w (((λ (_ : World C S). if b then r else q) >>= f) w)
  if_next-Kept w true r q f h g = h refl
  if_next-Kept w false r q f h g = g refl

  pub map_next-Kept :
      {A B D : Type 0} (w : World C S) (r : Result A × World C S) (h : A → B)
      (f : B → Act (World C S) D)
      → ((a : A) → Keeps (f (h a)))
      → Kept w r
      → Kept w ((((λ (_ : World C S). r) >>= λ a. pure (h a)) >>= f) w)
  map_next-Kept w (ok a, v) h f g (s, p) = let (s', p') = g a v p in (s' ∙ s, p')
  map_next-Kept w (raised e, v) h f g k = k

  pub on_cloud-Keeps :
      {A : Type 0} (m : Act C A) → ((c : C) (b : Bool) → R c b → R (m c).1 b) → Keeps (on_cloud m)
  on_cloud-Keeps m h w p = (refl, h w.cloud w.ctx.dry_run p)

  pub retried-Keeps :
      {A : Type 0} (T : Tenacity) (m : Act (World C S) A) → Keeps m → Keeps (retried T m)
  unfolding retried
  retried-Keeps {A} T m h w p =
      Attempts-keeps (λ v. (v.store ≡ w.store) × R v.cloud v.ctx.dry_run)
        (λ v k. let (s, q) = h v k.1 in (s ∙ k.0, q))
        (T.retry-Attempts (World C S) A is_retryable 4 m w) (refl, p)

  pub cloud-Keeps :
      {A B : Type 0} (m : Act C A) (f : A → Act (World C S) B)
      → ((c : C) (b : Bool) → R c b → R (m c).1 b)
      → ((a : A) → Keeps (f a))
      → Keeps (on_cloud m >>= f)
  cloud-Keeps m f h g = bind-Keeps (on_cloud m) f (on_cloud-Keeps m h) g

  -- A call that is only made outside a dry run.
  pub live_call-Kept :
      {A : Type 0} (m : Act C (Unit {0})) (f : Act (World C S) A) (w : World C S)
      → w.ctx.dry_run ≡ false
      → R w.cloud w.ctx.dry_run
      → ((c : C) → R c false → R (m c).1 false)
      → Keeps f
      → Kept w ((on_cloud m >> f) w)
  live_call-Kept m f w d p h k =
      next-Kept w (on_cloud m w) (λ _. f) (λ _. k)
        (refl, subst (λ b. R (m w.cloud).1 b) (sym d) (h w.cloud (subst (λ b. R w.cloud b) d p)))

  pub one_action-Keeps :
      (status : ActionStatus) (resource_type : String) (details : Details)
      → Keeps (one_action status resource_type details)
  unfolding one_action record_action
  one_action-Keeps status resource_type details w p = (refl, p)

-- The calls of a service for Nova or Cinder: reading keeps the predicate, and so does an update
-- outside a dry run.
pub record ServiceKeeps {C : Type 0} (R : C → Bool → Type 0) (calls : QuotaService C) : Type 0 where
  pub get_quota_set-keeps :
      (project_id : String) (usage : Bool) (c : C) (b : Bool)
      → R c b
      → R (calls.get_quota_set project_id usage c).1 b
  pub update_quota_set-keeps :
      (project_id : String) (sent : Dict String ℤ) (c : C)
      → R c false
      → R (calls.update_quota_set project_id sent c).1 false

module _ {C S : Type 0} (R : C → Bool → Type 0) (t : QuotaKind C) (K : ServiceKeeps R t.calls) where
  read_current-Keeps :
      (quota : Dict String Attr) (ks : List String) → Keeps {S = S} R (read_current quota ks)
  unfolding read_current
  read_current-Keeps quota [] w p = (refl, p)
  read_current-Keeps quota (k ∷ ks) w p = found (get k quota) (read_current-Keeps quota ks) w p
    where
      found :
          (o : Option Attr)
          → Keeps {S = S} R (read_current quota ks)
          → Keeps {S = S} R (do
            a ← elim o [ none ↦ raise (other "AttributeError") | some a ↦ pure a ]
            rest ← read_current quota ks
            pure ((k, a) ∷ rest))
      found none h w p = (refl, p)
      found (some a) h w p = bind-Keeps R (read_current quota ks) _ h (λ rest v q. (refl, q)) w p

  up_to_date-Keeps :
      (ks : List String) (current : Dict String Attr) → Keeps {S = S} R (up_to_date t ks current)
  unfolding up_to_date one_action record_action
  up_to_date-Keeps ks current w p = (refl, p)

  settle-Keeps :
      (project_id : String) (lowered : List String) (desired : Dict String ℤ)
      → Keeps {S = S} R (settle t project_id lowered desired)
  unfolding settle
  settle-Keeps project_id [] desired w p = (refl, p)
  settle-Keeps project_id (k ∷ lowered) desired w p =
      if-Kept R w w.ctx.dry_run _ _ (λ d. (refl, p))
        (λ d.
          cloud-Keeps R (t.calls.get_quota_set project_id true) _
            (K.get_quota_set-keeps project_id true) (λ quota v q. (refl, q)) w p)

  change-Keeps :
      (project_id : String) (quota : QuotaSet) (current : Dict String Attr)
      (desired : Dict String ℤ)
      → Keeps {S = S} R (change t project_id quota current desired)
  unfolding change send one_action record_action
  change-Keeps project_id quota current desired w p =
      if-Kept R w w.ctx.dry_run _ _ (λ d. (refl, p))
        (λ d. send-Kept (changed_keys desired current) w d p)
    where
      send-Kept :
          (changed : List String) (w : World C S)
          → w.ctx.dry_run ≡ false
          → R w.cloud w.ctx.dry_run
          → Kept R w (send t project_id quota current desired changed w)
      send-Kept [] w d p = up_to_date-Keeps (keys desired) current w p
      send-Kept (k ∷ changed) w d p =
          live_call-Kept R (t.calls.update_quota_set project_id (t.sent quota desired)) _ w d p
            (K.update_quota_set-keeps project_id (t.sent quota desired)) (λ v q. (refl, q))

  pub ensure_set-Keeps :
      (project_id : String) (desired : Dict String ℤ)
      → Keeps {S = S} R (ensure_set t project_id desired)
  unfolding ensure_set
  ensure_set-Keeps project_id desired =
      cloud-Keeps R (t.calls.get_quota_set project_id false) _
        (K.get_quota_set-keeps project_id false)
        (λ quota.
          bind-Keeps R (read_current quota.attributes (keys desired)) _
            (read_current-Keeps quota.attributes (keys desired))
            (λ current.
              if-Keeps R (any (differs desired current) (keys desired)) _ _
                (bind-Keeps R
                  (settle t project_id (keep (is_lowered desired current) (keys desired)) desired) _
                  (settle-Keeps project_id (keep (is_lowered desired current) (keys desired))
                    desired)
                  (λ settled. change-Keeps project_id quota current settled))
                (up_to_date-Keeps (keys desired) current)))

  pub ensure_configured-Keeps :
      (cfg : ProjectConfig) (project_id : String)
      → Keeps {S = S} R (ensure_configured t cfg project_id)
  unfolding ensure_configured
  ensure_configured-Keeps cfg project_id w p =
      if-Kept R w (not w.ctx.online) _ _ (λ o. (refl, p)) (λ o. wanted-Kept cfg.quotas w p)
    where
      wanted-Kept :
          (quotas : Option QuotaConfig) (w : World C S)
          → R w.cloud w.ctx.dry_run
          → Kept R {A = List Action} w (elim quotas [
            | none ↦ raise (provisioner "cfg.quotas is None — should have been checked by caller") w
            | some q ↦ ensure_set t project_id (t.wanted q) w
          ])
      wanted-Kept none w p = (refl, p)
      wanted-Kept (some q) w p = ensure_set-Keeps project_id (t.wanted q) w p
