-- ===== src/Config/Migrated.antt =====
-- Loading the state of a project a second time: `_load_state_into_config` of src/config_loader.py.
use openstack_tenantctl.Base.{
  Option, none, some, List, [], ◌∷◌, ◌≡◌, refl, sym, subst, ◌∙◌, ap, arith, inl, inr, ◌⊎◌, String,
  ◌==◌, string_eq, Bool-cases, ==_iff, Result, ok, raised, Act, pure, ◌>>◌, All,
}
use openstack_tenantctl.Store.{Value, Fields, plain, get, put, set_path, serialize_value}
use openstack_tenantctl.Store.Path.{get-put, get-put_self}
use openstack_tenantctl.Store.Interface.{StateStore, IsLawful}
use openstack_tenantctl.Config.State.{state_keys, merge_key, merge_keys, load_state_into_config}

-- What the state file has at a key, or else what the project's own file has.
abbrev pub first_of : Option Value → Option Value → Option Value
first_of (some v) o = some v
first_of none o = o

abbrev put_if : String → Option Value → Fields → Fields
put_if key none merged = merged
put_if key (some v) merged = put key v merged

-- What the loop makes of the configuration.
abbrev overlay : (String → Option Value) → List String → Fields → Fields
overlay expected [] merged = merged
overlay expected (k ∷ keys) merged = overlay expected keys (put_if k (expected k) merged)

unsaved :
    (x a b : Option Value) → (x ≡ a) ⊎ (x ≡ first_of a b) → first_of a b ≡ a → x ≡ first_of a b
unsaved x a b (inl p) q = p ∙ sym q
unsaved x a b (inr p) q = p

then_ok :
    {W : Type 0} (r : Result (Unit {0}) × W) (f : Act W Fields) (w : W)
    → r.0 ≡ ok tt
    → ((λ (_ : W). r) >> f) w ≡ f r.1
then_ok (ok tt, v) f w h = refl
then_ok (raised e, v) f w h = cc

module _ {S : Type 0} (st : StateStore S) {Sound : S → Type 0} (L : IsLawful st Sound)
    (state_key : String) (state_data raw : Fields) where
  abbrev expected : String → Option Value
  expected j = first_of (get j state_data) (get j raw)

  abbrev Settled : S → String → Type 0
  Settled s j = get j (st.load state_key s) ≡ expected j

  -- Each key is settled, or as it was when the state was loaded.
  abbrev Inv : S → Type 0
  Inv s = Sound s × ((j : String) → (get j (st.load state_key s) ≡ get j state_data) ⊎ Settled s j)

  abbrev Step : S → S → Type 0
  Step s s' = Inv s' × ((j : String) → Settled s j → Settled s' j)

  saved : String → Value → S → S
  saved key v s = (st.save state_key (key ∷ []) (plain v) s).1

  load-saved :
      (key : String) (v : Value) (s : S)
      → Sound s
      → st.load state_key (saved key v s) ≡ put key v (st.load state_key s)
  unfolding saved set_path serialize_value
  load-saved key v s sound =
      ground (arith, L.load-save state_key state_key key [] (plain v) v s sound refl)

  saved-Settled :
      (key : String) (v : Value) (s : S)
      → Sound s
      → expected key ≡ some v
      → Settled (saved key v s) key
  saved-Settled key v s sound e =
      ap (get key) (load-saved key v s sound) ∙ (get-put_self key v _ ∙ sym e)

  saved-cases :
      (key : String) (v : Value) (s : S)
      → Sound s
      → expected key ≡ some v
      → (j : String)
      → (get j (st.load state_key (saved key v s)) ≡ get j (st.load state_key s))
        ⊎ Settled (saved key v s) j
  saved-cases key v s sound e j = elim (Bool-cases (j == key)) [
    | inl h ↦
        inr (
          subst (Settled (saved key v s)) (sym ((==_iff j key).0 h))
            (saved-Settled key v s sound e))
    | inr h ↦ inl (
        ap (get j) (load-saved key v s sound)
        ∙ ground (arith, get-put j key v (st.load state_key s), h))
  ]

  saved_or :
      (s s' : S) (j : String)
      → (get j (st.load state_key s) ≡ get j state_data) ⊎ Settled s j
      → (get j (st.load state_key s') ≡ get j (st.load state_key s)) ⊎ Settled s' j
      → (get j (st.load state_key s') ≡ get j state_data) ⊎ Settled s' j
  saved_or s s' j x (inr q) = inr q
  saved_or s s' j (inl p) (inl same) = inl (same ∙ p)
  saved_or s s' j (inr p) (inl same) = inr (same ∙ p)

  kept :
      (s s' : S) (j : String)
      → Settled s j
      → (get j (st.load state_key s') ≡ get j (st.load state_key s)) ⊎ Settled s' j
      → Settled s' j
  kept s s' j p (inl same) = same ∙ p
  kept s s' j p (inr q) = q

  saved-Step :
      (key : String) (v : Value) (s : S)
      → expected key ≡ some v
      → Inv s
      → Step s (saved key v s) × Settled (saved key v s) key
  unfolding saved serialize_value
  saved-Step key v s e (sound, inv) = (
    (
      (
        L.save-Sound state_key key [] (plain v) v s sound refl,
        λ j. saved_or s (saved key v s) j (inv j) (saved-cases key v s sound e j),
      ),
      λ j p. kept s (saved key v s) j p (saved-cases key v s sound e j),
    ),
    saved-Settled key v s sound e,
  )

  merge_key-Step :
      (key : String) (merged : Fields) (s : S) (a b : Option Value)
      → get key state_data ≡ a
      → get key raw ≡ b
      → Inv s
      → (s' : S) × (merge_key st state_key key merged a b s
          ≡ (ok (put_if key (first_of a b) merged), s'))
        × (Step s s' × Settled s' key)
  unfolding merge_key saved serialize_value
  merge_key-Step key merged s (some v) b e e' (sound, inv) =
      (s, refl, (((sound, inv), λ j x. x), unsaved _ _ _ (inv key) (rw e refl)))
  merge_key-Step key merged s none none e e' (sound, inv) =
      (s, refl, (((sound, inv), λ j x. x), unsaved _ _ _ (inv key) (rw (e, e') refl)))
  merge_key-Step key merged s none (some v) e e' (sound, inv) = (
    saved key v s,
    then_ok (st.save state_key (key ∷ []) (plain v) s) (pure (put key v merged)) s
        (L.save-returns state_key key [] (plain v) v s sound refl),
    saved-Step key v s (rw (e, e') refl) (sound, inv),
  )

  merge_keys-Step :
      (keys : List String) (merged : Fields) (s : S)
      → Inv s
      → (s' : S) × (merge_keys st state_key state_data raw keys merged s
          ≡ (ok (overlay expected keys merged), s'))
        × (Step s s' × All (Settled s') keys)
  unfolding merge_keys
  merge_keys-Step [] merged s inv = (s, refl, ((inv, λ j p. p), tt))
  merge_keys-Step (k ∷ keys) merged s inv =
      let (u, e, ((inv', keep), p)) =
        merge_key-Step k merged s (get k state_data) (get k raw) refl refl inv in
      let (s', e', ((inv'', keep'), all)) =
        merge_keys-Step keys (put_if k (expected k) merged) u inv' in
      (s', rw e e', ((inv'', λ j q. keep' j (keep j q)), (keep' k p, all)))

  merge_key-again :
      (key : String) (merged : Fields) (s : S) (a b : Option Value)
      → merge_key st state_key key merged (first_of a b) b s
        ≡ (ok (put_if key (first_of a b) merged), s)
  unfolding merge_key
  merge_key-again key merged s (some v) b = refl
  merge_key-again key merged s none none = refl
  merge_key-again key merged s none (some v) = refl

  -- Over a state in which the keys are settled, the loop saves nothing.
  merge_keys-again :
      (keys : List String) (merged found : Fields) (s : S)
      → All (λ k. get k found ≡ expected k) keys
      → merge_keys st state_key found raw keys merged s ≡ (ok (overlay expected keys merged), s)
  unfolding merge_keys
  merge_keys-again [] merged found s _ = refl
  merge_keys-again (k ∷ keys) merged found s (p, all) =
      rw
        (
          p,
          merge_key-again k merged s (get k state_data) (get k raw),
          merge_keys-again keys (put_if k (expected k) merged) found s all,
        )
        refl

-- In a store that keeps what is saved, loading the state of a project returns. The state file then has, at each
-- key of the state, what it had, or else what the project's own file has; loading again returns the
-- same configuration and leaves the store as it is.
pub load_state_into_config_again :
    {S : Type 0} (st : StateStore S) {Sound : S → Type 0} (L : IsLawful st Sound)
    (state_key : String) (merged raw : Fields) (s : S)
    → Sound s
    → (loaded : Fields) × (s' : S) × (load_state_into_config st state_key merged raw s
        ≡ (ok loaded, s'))
      × (load_state_into_config st state_key merged raw s' ≡ (ok loaded, s'))
      × All
          (λ k. get k (st.load state_key s') ≡ first_of (get k (st.load state_key s)) (get k raw))
          state_keys
unfolding load_state_into_config
load_state_into_config_again st L state_key merged raw s sound =
    let found : Fields = st.load state_key s in
    let (s', e, (_, all)) =
      merge_keys-Step st L state_key found raw state_keys merged s (sound, λ j. inl refl) in
    (
      _,
      s',
      e,
      merge_keys-again st L state_key found raw state_keys merged (st.load state_key s') s' all,
      all,
    )
