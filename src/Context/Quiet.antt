-- ===== src/Context/Quiet.antt =====
-- Statements that return and leave the state store and the flags of the run: those that only report
-- or read the clock.
use openstack_tenantctl.Base.{
  Bool, true, false, if◌then◌else◌, List, [], ◌∷◌, map, ◌≡◌, refl, ◌∙◌, String, ok, Act, pure, each,
  ◌>>=◌,
}
use openstack_tenantctl.Context.{ActionStatus, Details, World, record_action}

module _ {C S : Type 0} where
  abbrev pub Unmoved : World C S → World C S → Type 0
  Unmoved v w =
      (v.store ≡ w.store) × (v.ctx.has_store ≡ w.ctx.has_store) × (v.ctx.dry_run ≡ w.ctx.dry_run)

  pub Unmoved-trans : (u v w : World C S) → Unmoved u v → Unmoved v w → Unmoved u w
  Unmoved-trans u v w (a, b, c) (a', b', c') = (a ∙ a', b ∙ b', c ∙ c')

  -- The statement returns a value that satisfies `P`.
  abbrev pub Quiet : {A : Type 0} → Act (World C S) A → (A → Type 0) → Type 0
  Quiet {A} m P =
      (w : World C S) → (a : A) × (v : World C S) × (m w ≡ (ok a, v)) × Unmoved v w × P a

  pub record_action-Quiet :
      (status : ActionStatus) (resource_type name : String) (details : Details)
      → Quiet (record_action status resource_type name details) (λ a. Unit)
  unfolding record_action
  record_action-Quiet status resource_type name details w = (_, _, refl, (refl, refl, refl), tt)

  pub pure-Quiet : {A : Type 0} (P : A → Type 0) (a : A) → P a → Quiet (pure a) P
  pure-Quiet P a p w = (a, w, refl, (refl, refl, refl), p)

  pub if-Quiet :
      {A : Type 0} {P : A → Type 0} (b : Bool) (m k : Act (World C S) A)
      → Quiet m P
      → Quiet k P
      → Quiet (if b then m else k) P
  if-Quiet true m k h g = h
  if-Quiet false m k h g = g

  pub bind-Quiet :
      {A B : Type 0} (P : A → Type 0) (Q : B → Type 0) (m : Act (World C S) A)
      (f : A → Act (World C S) B)
      → Quiet m P
      → ((a : A) → P a → Quiet (f a) Q)
      → Quiet (m >>= f) Q
  bind-Quiet P Q m f h k w =
      let (a, v, e, s, p) = h w in
      let (b, u, e', s', q) = k a p v in (b, u, rw (e, e'), Unmoved-trans u v w s' s, q)

  -- A loop of such statements has one result for each element, with the keys that each body gives.
  pub each-Quiet :
      {A B K : Type 0} (f : A → Act (World C S) B) (key : B → K) (g : A → K)
      → ((a : A) → Quiet (f a) (λ b. key b ≡ g a))
      → (xs : List A) → Quiet (each f xs) (λ bs. map key bs ≡ map g xs)
  unfolding each
  each-Quiet f key g h [] w = ([], w, refl, (refl, refl, refl), refl)
  each-Quiet f key g h (x ∷ xs) w =
      let (b, v, e, s, p) = h x w in
      let (bs, u, e', s', q) = each-Quiet f key g h xs v in
      (b ∷ bs, u, rw (e, e'), Unmoved-trans u v w s' s, rw (p, q))
