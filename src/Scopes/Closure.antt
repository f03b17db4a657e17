-- ===== src/Scopes/Closure.antt =====
-- What `_expand_scope_dependencies` computes: the closure under prerequisites.
use openstack_tenantctl.Base.{
  ℕ, zero, suc, Bool, true, false, [], ◌∷◌, ◌++◌, ◌≡◌, refl, sym, arith, append-nil, contains,
  contains-append, if◌then◌else◌, inl, inr, Bool-cases,
}
use openstack_tenantctl.Scopes.{
  Scope, scope_eq, Scopes, dependencies, missing_of, additions, expand_loop,
  expand_scope_dependencies,
}

-- `s` stands in the set `xs`.
abbrev pub In : Scope → Scopes → Type 0
In s xs = contains xs s ≡ true

-- Every prerequisite of a member is a member.
abbrev pub IsClosed : Scopes → Type 0
IsClosed xs = (s d : Scope) → In s xs → In d (dependencies s) → In d xs

missing_of_iff :
    (e deps : Scopes) (d : Scope)
    → contains (missing_of e deps) d ≡ (if contains e d then false else contains deps d)
unfolding missing_of
missing_of_iff e [] d = ground arith
missing_of_iff e (x ∷ deps) d = ground (arith, missing_of_iff e deps d)

additions_complete :
    (e xs : Scopes) (s d : Scope)
    → In s xs
    → In d (dependencies s)
    → contains e d ≡ false
    → In d (additions e xs)
unfolding additions
additions_complete e [] s d h k n = cc
additions_complete e (x ∷ xs) s d h k n =
    rw
      (
        contains-append d (missing_of e (dependencies x)) (additions e xs),
        missing_of_iff e (dependencies x) d,
        n,
      )
      (ground (arith, additions_complete e xs s d))

-- A prerequisite of some scope has none of its own.
abbrev IsLeaf : Scope → Type 0
IsLeaf d = dependencies d ≡ []

dependencies-IsLeaf : (s d : Scope) → In d (dependencies s) → IsLeaf d
unfolding dependencies scope_eq
dependencies-IsLeaf s d h = ground arith

additions-IsLeaf : (e xs : Scopes) (d : Scope) → In d (additions e xs) → IsLeaf d
unfolding additions
additions-IsLeaf e [] d h = cc
additions-IsLeaf e (x ∷ xs) d h = ground (
  arith,
  contains-append d (missing_of e (dependencies x)) (additions e xs),
  missing_of_iff e (dependencies x) d,
  dependencies-IsLeaf x d,
  additions-IsLeaf e xs d,
)

-- What a round adds lies in every closed set that has the members looked at.
additions_least :
    (e xs t : Scopes) (d : Scope)
    → IsClosed t
    → ((s : Scope) → In s xs → In s t)
    → In d (additions e xs)
    → In d t
unfolding additions
additions_least e [] t d closed sub h = cc
additions_least e (x ∷ xs) t d closed sub h = ground (
  arith,
  contains-append d (missing_of e (dependencies x)) (additions e xs),
  missing_of_iff e (dependencies x) d,
  closed x d,
  sub x,
  additions_least e xs t d closed (λ s k. sub s (ground arith)),
)

pub additions-nil_iff : (xs : Scopes) → additions xs xs ≡ [] → IsClosed xs
additions-nil_iff xs h s d m k = elim (Bool-cases (contains xs d)) [
  | inl old ↦ old
  | inr new ↦ cc (additions_complete xs xs s d m k new, h)
]

-- One round leaves nothing for a second one.
round-IsClosed : (xs : Scopes) → IsClosed (xs ++ additions xs xs)
round-IsClosed xs s d m k = elim (Bool-cases (contains xs d)) [
  | inl old ↦ rw (contains-append d xs (additions xs xs), old)
  | inr new ↦
      rw (contains-append d xs (additions xs xs), new)
        (elim (Bool-cases (contains xs s)) [
          | inl h ↦ additions_complete xs xs s d h k new
          | inr h ↦
              let leaf : IsLeaf s =
                additions-IsLeaf xs xs s (rw (contains-append s xs (additions xs xs), h) at m) in
              cc (rw leaf at k)
        ])
]

additions_fresh : (e xs : Scopes) (d : Scope) → In d (additions e xs) → contains e d ≡ false
unfolding additions
additions_fresh e [] d h = cc
additions_fresh e (x ∷ xs) d h = ground (
  arith,
  contains-append d (missing_of e (dependencies x)) (additions e xs),
  missing_of_iff e (dependencies x) d,
  additions_fresh e xs d,
)

nil_of_empty : (xs : Scopes) → ((d : Scope) → contains xs d ≡ false) → xs ≡ []
nil_of_empty [] h = refl
nil_of_empty (x ∷ xs) h = ground (arith, h x)

empty_of_absurd : (b : Bool) → (b ≡ true → ⊥) → b ≡ false
empty_of_absurd b h = ground arith

pub additions-nil : (xs : Scopes) → IsClosed xs → additions xs xs ≡ []
additions-nil xs closed = nil_of_empty (additions xs xs) λ d.
    empty_of_absurd _
      λ m. cc (additions_least xs xs xs d closed (λ s k. k) m, additions_fresh xs xs d m)

expand_loop-closed : (n : ℕ) (xs : Scopes) → IsClosed xs → expand_loop n xs ≡ xs
unfolding expand_loop
expand_loop-closed zero xs closed = refl
expand_loop-closed (suc n) xs closed = rw (additions-nil xs closed, expand_loop)

-- With a round to run, the loop ends in what the first round gives.
expand_loop-suc : (n : ℕ) (xs : Scopes) → expand_loop (suc n) xs ≡ xs ++ additions xs xs
unfolding expand_loop
expand_loop-suc n xs = go (additions xs xs) refl
  where
    go : (a : Scopes) → additions xs xs ≡ a → expand_loop (suc n) xs ≡ xs ++ additions xs xs
    go [] e = rw (e, expand_loop) (sym (append-nil xs))
    go (d ∷ ds) e = rw (e, expand_loop) (rw e at (expand_loop-closed n _ (round-IsClosed xs)))

pub expand-eq-round : (xs : Scopes) → expand_scope_dependencies xs ≡ xs ++ additions xs xs
unfolding expand_scope_dependencies
expand-eq-round xs = expand_loop-suc 8 xs

-- The expanded set holds the prerequisites of its members and every scope asked for, and each
-- closed set that holds the scopes asked for holds all of it.
pub expand_scope_dependencies_closure :
    (xs : Scopes)
    → IsClosed (expand_scope_dependencies xs)
      × ((s : Scope) → In s xs → In s (expand_scope_dependencies xs))
      × ((t : Scopes)
          → IsClosed t
          → ((s : Scope) → In s xs → In s t)
          → (s : Scope) → In s (expand_scope_dependencies xs)
          → In s t)
expand_scope_dependencies_closure xs = rw (expand-eq-round xs) (
  round-IsClosed xs,
  λ s m. rw (contains-append s xs (additions xs xs), m),
  λ t closed sub s m. elim (Bool-cases (contains xs s)) [
    | inl old ↦ sub s old
    | inr new ↦
        additions_least xs xs t s closed sub (rw (contains-append s xs (additions xs xs), new) at m)
  ],
)
