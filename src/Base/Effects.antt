-- ===== src/Base/Effects.antt =====
-- Python statements that change an outer state and may raise. What was written before a raise
-- stays written, so the state comes back beside an exception too.
use Prim.Native.Nat.{ℕ}
use Prim.Native.String.{String}
use mathlib.Core.Path.{◌≡◌, refl, subst}
use openstack_tenantctl.Base.Lists.{length, All}
use mathlib.Core.Bool.{Bool, true, false}
use mathlib.Core.Option.{Option}
use mathlib.Core.List.{List, [], ◌∷◌}

-- The exceptions that the program tells apart, or raises. `http` is an HttpException of none of
-- the subclasses above it, with its `status_code`; `other` is any further exception.
pub data Exc : Type 0 where
  bad_request conflict endpoint_not_found forbidden : Exc
  not_found precondition_failed resource_not_found : Exc
  http : Option ℕ → Exc
  sdk requests_connection connection : Exc
  provisioner dry_run_unsupported safety_check_failed teardown_failed : String → Exc
  value_error type_error other : String → Exc

pub data Result {ℓ} (A : Type ℓ) : Type ℓ where
  ok : A → Result A
  raised : Exc → Result A

abbrev pub Act {ℓ} : Type ℓ → Type ℓ → Type ℓ
Act W A = W → Result A × W

module _ {ℓ} {W A : Type ℓ} where
  abbrev pub pure : A → Act W A
  pure a w = (ok a, w)

  abbrev pub raise : Exc → Act W A
  raise e w = (raised e, w)

  abbrev pub gets : (W → A) → Act W A
  gets f w = (ok (f w), w)

  -- `except Exception`: the handler goes on from the state that the body left.
  abbrev handled : Result A × W → (Exc → Act W A) → Result A × W
  handled (ok a, w) h = (ok a, w)
  handled (raised e, w) h = h e w

  abbrev pub catch : Act W A → (Exc → Act W A) → Act W A
  catch m h w = handled (m w) h

module _ {ℓ} {W A B : Type ℓ} where
  abbrev next : Result A × W → (A → Act W B) → Result B × W
  next (ok a, w) f = f a w
  next (raised e, w) f = (raised e, w)

  infixl 10 ◌>>=◌ ◌>>◌
  abbrev pub ◌>>=◌ : Act W A → (A → Act W B) → Act W B
  ◌>>=◌ m f w = next (m w) f

  abbrev pub ◌>>◌ : Act W A → Act W B → Act W B
  m >> k = m >>= λ _. k

module _ {ℓ} {W A B : Type ℓ} where
  -- A loop that calls `f` on each element in turn and collects what it returns.
  unfoldable pub each : (A → Act W B) → List A → Act W (List B)
  each f [] = pure []
  each f (x ∷ xs) = do b ← f x; bs ← each f xs; pure (b ∷ bs)

module _ {ℓ} {W A B : Type ℓ} where
  next_ok :
      (r : Result A × W) (f : A → Act W B) (b : B) (w' : W)
      → next r f ≡ (ok b, w')
      → (a : A) × (v : W) × (r ≡ (ok a, v)) × (f a v ≡ (ok b, w'))
  next_ok (ok a, v) f b w' h = (a, v, refl, h)
  next_ok (raised e, v) f b w' h = cc

  -- A block that returned ran its first statement to a result, and the rest from there.
  pub bind_ok :
      (m : Act W A) (f : A → Act W B) (w : W) (b : B) (w' : W)
      → (m >>= f) w ≡ (ok b, w')
      → (a : A) × (v : W) × (m w ≡ (ok a, v)) × (f a v ≡ (ok b, w'))
  bind_ok m f w b w' h = next_ok (m w) f b w' h

module _ {ℓ} {W A B : Type ℓ} (f : A → Act W B) where
  abbrev pub Returns : Type ℓ
  Returns = (a : A) (w : W) → (b : B) × (v : W) × (f a w ≡ (ok b, v))

  -- A loop whose body always returns does so, with one result for each element.
  pub each-returns :
      Returns
      → (xs : List A) (w : W)
      → (bs : List B) × (v : W) × (each f xs w ≡ (ok bs, v)) × (length bs ≡ length xs)
  unfolding each
  each-returns total [] w = ([], w, refl, refl)
  each-returns total (x ∷ xs) w =
      let (b, v, e) = total x w in
      let (bs, u, e', n) = each-returns total xs v in (b ∷ bs, u, rw (e, e'), rw n)

  -- What each result of the body has, all results of the loop have.
  pub each-All :
      (P : B → Type 0)
      → ((a : A) (w : W) (b : B) (v : W) → f a w ≡ (ok b, v) → P b)
      → (xs : List A) (w : W) (bs : List B) (v : W) → each f xs w ≡ (ok bs, v)
      → All P bs
  unfolding each
  each-All P holds [] w [] v h = tt
  each-All P holds [] w (b ∷ bs) v h = cc
  each-All P holds (x ∷ xs) w bs v h =
      let (b, u, e, h') = bind_ok (f x) (λ b. each f xs >>= λ cs. pure (b ∷ cs)) w bs v h in
      let (cs, t, e', h'') = bind_ok (each f xs) (λ cs. pure (b ∷ cs)) u bs v h' in
      let same : b ∷ cs ≡ bs = cc in
      subst (All P) same (holds x w b u e, each-All P holds xs u cs t e')

abbrev pub is_ok {ℓ} : {A : Type ℓ} → Result A → Bool
is_ok (ok a) = true
is_ok (raised e) = false

module _ {ℓ} {W A : Type ℓ} where
  pub ok_witness : (p : Result A × W) → is_ok p.0 ≡ true → (a : A) × (v : W) × (p ≡ (ok a, v))
  ok_witness (ok a, v) h = (a, v, refl)
  ok_witness (raised e, v) h = cc

module _ {ℓ} {W A B : Type ℓ} where
  next-is_ok :
      (r : Result A × W) (f : A → Act W B)
      → is_ok r.0 ≡ true
      → ((a : A) (v : W) → is_ok (f a v).0 ≡ true)
      → is_ok (next r f).0 ≡ true
  next-is_ok (ok a, v) f h k = k a v
  next-is_ok (raised e, v) f h k = cc

  -- A block of statements that return returns.
  pub bind-is_ok :
      (m : Act W A) (f : A → Act W B) (w : W)
      → is_ok (m w).0 ≡ true
      → ((a : A) (v : W) → is_ok (f a v).0 ≡ true)
      → is_ok ((m >>= f) w).0 ≡ true
  bind-is_ok m f w h k = next-is_ok (m w) f h k
