-- ===== src/Base/Holding.antt =====
-- What a statement keeps of the state, whether it returns or raises.
use mathlib.Core.Bool.{Bool, true, false}
use mathlib.Core.List.{List, [], ◌∷◌}
use openstack_tenantctl.Base.Equality.{if◌then◌else◌}
use openstack_tenantctl.Base.Lists.{All, keep}
use openstack_tenantctl.Base.Effects.{Exc, Result, ok, raised, Act, catch, each, ◌>>=◌}

module _ {W : Type 0} (P : W → Type 0) where
  abbrev pub Holds : {A : Type 0} → Act W A → Type 0
  Holds m = (w : W) → P w → P (m w).1

  next-Holds :
      {A B : Type 0} (r : Result A × W) (f : A → Act W B)
      → ((a : A) → Holds (f a))
      → P r.1
      → P (((λ (_ : W). r) >>= f) r.1).1
  next-Holds (ok a, v) f h p = h a v p
  next-Holds (raised e, v) f h p = p

  pub bind-Holds :
      {A B : Type 0} (m : Act W A) (f : A → Act W B)
      → Holds m
      → ((a : A) → Holds (f a))
      → Holds (m >>= f)
  bind-Holds m f h g w p = next-Holds (m w) f g (h w p)

  handled-Holds :
      {A : Type 0} (r : Result A × W) (f : Exc → Act W A)
      → ((e : Exc) → Holds (f e))
      → P r.1
      → P (catch (λ (_ : W). r) f r.1).1
  handled-Holds (ok a, v) f h p = p
  handled-Holds (raised e, v) f h p = h e v p

  pub catch-Holds :
      {A : Type 0} (m : Act W A) (f : Exc → Act W A)
      → Holds m
      → ((e : Exc) → Holds (f e))
      → Holds (catch m f)
  catch-Holds m f h g w p = handled-Holds (m w) f g (h w p)

  pub if-Holds :
      {A : Type 0} (b : Bool) (m k : Act W A) → Holds m → Holds k → Holds (if b then m else k)
  if-Holds true m k h g = h
  if-Holds false m k h g = g

  -- A test of the state itself.
  pub if_at-Holds :
      {A : Type 0} (b : Bool) (r q : Result A × W) → P r.1 → P q.1 → P (if b then r else q).1
  if_at-Holds true r q h g = h
  if_at-Holds false r q h g = g

  pub each-Holds :
      {A B : Type 0} (Q : A → Type 0) (f : A → Act W B)
      → ((a : A) → Q a → Holds (f a))
      → (xs : List A) → All Q xs
      → Holds (each f xs)
  unfolding each
  each-Holds Q f h [] q w p = p
  each-Holds Q f h (x ∷ xs) (q, qs) w p =
      bind-Holds (f x) _ (h x q)
        (λ b. bind-Holds (each f xs) _ (each-Holds Q f h xs qs) (λ bs v r. r)) w p

module _ {A : Type 0} (Q : A → Type 0) where
  pub All-kept : (p : A → Bool) (xs : List A) → All Q xs → All Q (keep p xs)
  All-kept p [] h = tt
  All-kept p (x ∷ xs) (h, hs) = kept (p x) (All-kept p xs hs)
    where
      kept : (b : Bool) → All Q (keep p xs) → All Q (if b then x ∷ keep p xs else keep p xs)
      kept true k = (h, k)
      kept false k = k

  pub All-every : ((a : A) → Q a) → (xs : List A) → All Q xs
  All-every h [] = tt
  All-every h (x ∷ xs) = (h x, All-every h xs)
