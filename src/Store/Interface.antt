-- ===== src/Store/Interface.antt =====
-- The protocol `StateStore` of src/state_store.py, and what its two implementations promise.
use openstack_tenantctl.Base.{
  List, [], ◌∷◌, ◌≡◌, String, ◌==◌, string_eq, if◌then◌else◌, Result, ok, raised, value_error, Act,
  All,
}
use openstack_tenantctl.Store.{Value, Fields, PyValue, serialize_value, set_path}

pub record StateStore (S : Type 0) : Type 0 where
  pub load : String → S → Fields
  pub save : String → List String → PyValue → Act S (Unit {0})

abbrev pub empty_path : Result (Unit {0})
empty_path = raised (value_error "key_path must not be empty")

-- What both stores do with a value that can be serialized, from a sound store. `load` of every
-- project is stated, so a save touches no project but its own.
pub record IsLawful {S : Type 0} (st : StateStore S) (Sound : S → Type 0) : Type 0 where
  pub save-empty : (j : String) (value : PyValue) (s : S) → st.save j [] value s ≡ (empty_path, s)
  pub save-returns :
      (j k : String) (ks : List String) (value : PyValue) (v : Value) (s : S)
      → Sound s
      → serialize_value value ≡ ok v
      → (st.save j (k ∷ ks) value s).0 ≡ ok tt
  pub load-save :
      (i j k : String) (ks : List String) (value : PyValue) (v : Value) (s : S)
      → Sound s
      → serialize_value value ≡ ok v
      → st.load i (st.save j (k ∷ ks) value s).1
        ≡ (if i == j then set_path k ks v (st.load i s) else st.load i s)
  pub save-Sound :
      (j k : String) (ks : List String) (value : PyValue) (v : Value) (s : S)
      → Sound s
      → serialize_value value ≡ ok v
      → Sound (st.save j (k ∷ ks) value s).1

-- One call of `save`.
pub record Write : Type 0 where
  pub state_key : String
  pub first : String
  pub rest : List String
  pub value : PyValue

-- The store after some calls, whatever they return.
unfoldable pub run_writes : {S : Type 0} → StateStore S → List Write → S → S
run_writes st [] s = s
run_writes st (w ∷ ws) s = run_writes st ws (st.save w.state_key (w.first ∷ w.rest) w.value s).1

abbrev pub Writable : List Write → Type 0
Writable = All (λ w. (v : Value) × (serialize_value w.value ≡ ok v))

module _ {S T : Type 0} (st : StateStore S) (su : StateStore T) {P : S → Type 0} {Q : T → Type 0}
    (L : IsLawful st P) (M : IsLawful su Q) where
  abbrev pub SameLoads : S → T → Type 0
  SameLoads s t = (i : String) → st.load i s ≡ su.load i t

  save-SameLoads :
      (w : Write) (v : Value) (s : S) (t : T)
      → serialize_value w.value ≡ ok v
      → P s
      → Q t
      → SameLoads s t
      → SameLoads
          (st.save w.state_key (w.first ∷ w.rest) w.value s).1
          (su.save w.state_key (w.first ∷ w.rest) w.value t).1
  save-SameLoads w v s t e p q same i = rw (
    L.load-save i w.state_key w.first w.rest w.value v s p e,
    M.load-save i w.state_key w.first w.rest w.value v t q e,
    same i,
  )

  -- Two sound stores that show the same state of every project still do after any calls of `save`
  -- with values that can be serialized.
  pub run_writes-SameLoads :
      (ws : List Write) (s : S) (t : T)
      → Writable ws
      → P s
      → Q t
      → SameLoads s t
      → SameLoads (run_writes st ws s) (run_writes su ws t)
  unfolding run_writes
  run_writes-SameLoads [] s t _ p q same = same
  run_writes-SameLoads (w ∷ ws) s t ((v, e), more) p q same =
      run_writes-SameLoads ws _ _ more (L.save-Sound _ _ _ _ v s p e) (M.save-Sound _ _ _ _ v t q e)
        (save-SameLoads w v s t e p q same)
