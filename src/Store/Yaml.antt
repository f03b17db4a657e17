-- ===== src/Store/Yaml.antt =====
-- `YamlFileStateStore` of src/state_store.py, over the files of the state directory. What pyyaml
-- does is a parameter: the texts, a parser that may fail, and a printer. Each method runs under
-- the lock of its file, so it is one step; a lock that is not had within its time is not modelled.
use openstack_tenantctl.Base.{
  true, false, Option, none, some, List, [], ◌∷◌, ◌≡◌, refl, arith, String, ◌==◌, string_eq,
  if◌then◌else◌, Result, ok, raised, type_error, Exc, Act,
}
use openstack_tenantctl.Base.Dict
use openstack_tenantctl.Base.Dict.{Dict}
use openstack_tenantctl.Base.Int.{pos, int_eq}
use openstack_tenantctl.Store.{
  Value, null, boolean, num, str, sequence, mapping, Items, no_items, item, Fields, end, PyValue,
  serialize_value, set_path,
}
use openstack_tenantctl.Store.Interface.{StateStore, IsLawful, empty_path}

-- `safe_load` gives `none` for a YAMLError. What `safe_dump` prints parses to what was printed.
pub record Pyyaml : Type 1 where
  pub Text : Type 0
  pub safe_load : Text → Option Value
  pub safe_dump : Fields → Text
  pub safe_load-safe_dump : (d : Fields) → safe_load (safe_dump d) ≡ some (mapping d)

-- `data if isinstance(data, dict) else {}`, and `{}` for a corrupt file.
dict_or_empty : Option Value → Fields
dict_or_empty (some (mapping d)) = d
dict_or_empty _ = end

-- `data or {}` as a dict, for the mapping that `save` goes on to change; `none` where the value
-- is a true one and no dict, whose item assignment raises a TypeError.
truthy_dict : Option Value → Option Fields
truthy_dict none = some end
truthy_dict (some null) = some end
truthy_dict (some (boolean false)) = some end
truthy_dict (some (boolean true)) = none
truthy_dict (some (num n)) = if n == pos 0 then some end else none
truthy_dict (some (str s)) = if s == "" then some end else none
truthy_dict (some (sequence no_items)) = some end
truthy_dict (some (sequence (item v vs))) = none
truthy_dict (some (mapping d)) = some d

module _ (Y : Pyyaml) where
  open Y use {Text, safe_load, safe_dump, safe_load-safe_dump}

  -- The texts of the files that exist, by state key.
  abbrev pub Files : Type 0
  Files = Dict String Text

  parsed : Option Text → Fields
  unfolding dict_or_empty
  parsed none = end
  parsed (some text) = dict_or_empty (safe_load text)

  unfoldable pub load : String → Files → Fields
  unfolding parsed Dict.get
  load state_key files = parsed (Dict.get state_key files)

  -- The data that `save` reads back, `{}` if there is no file.
  unfoldable pub current : Option Text → Option Fields
  unfolding truthy_dict
  current none = some end
  current (some text) = truthy_dict (safe_load text)

  -- The write is the rename of a whole new file; a value that is refused leaves the old one.
  replaced : String → String → List String → Option Fields → Result Value → Act Files (Unit {0})
  unfolding set_path
  replaced key k [] none (raised e) files = (raised e, files)
  replaced key k ks none v files = (raised (type_error "item assignment"), files)
  replaced key k ks (some d) (raised e) files = (raised e, files)
  replaced key k ks (some d) (ok v) files =
      (ok tt, Dict.put key (safe_dump (set_path k ks v d)) files)

  unfoldable pub save : String → List String → PyValue → Act Files (Unit {0})
  unfolding replaced current serialize_value Dict.get Dict.put
  save state_key [] value files = (empty_path, files)
  save state_key (k ∷ ks) value files =
      replaced state_key k ks (current (Dict.get state_key files)) (serialize_value value) files

  unfoldable pub yaml_store : StateStore Files
  unfolding load save
  yaml_store = record { load = load; save = save }

  -- No file holds a list, a text or a number where a mapping is expected.
  abbrev pub Sound : Files → Type 0
  Sound files = (key : String) → current (Dict.get key files) ≡ some (load key files)

  load-put :
      (i j : String) (d : Fields) (files : Files)
      → load i (Dict.put j (safe_dump d) files) ≡ (if i == j then d else load i files)
  unfolding load
  load-put i j d files = rw Dict.get-put (ground (arith, safe_load-safe_dump d))

  current-dump : (d : Fields) → current (some (safe_dump d)) ≡ some d
  unfolding current
  current-dump d = rw safe_load-safe_dump

  save-eq :
      (j k : String) (ks : List String) (value : PyValue) (v : Value) (files : Files)
      → Sound files
      → serialize_value value ≡ ok v
      → save j (k ∷ ks) value files
        ≡ (ok tt, Dict.put j (safe_dump (set_path k ks v (load j files))) files)
  save-eq j k ks value v files sound e = unfold save in rw (e, sound j, replaced)

  save-Sound :
      (j : String) (d : Fields) (files : Files)
      → Sound files
      → Sound (Dict.put j (safe_dump d) files)
  save-Sound j d files sound i =
      rw (load-put i j d files, Dict.get-put) (ground (arith, sound i, current-dump d))

  -- The YAML store keeps the promises of the protocol while its files hold mappings.
  pub yaml_store-IsLawful : IsLawful yaml_store Sound
  unfolding yaml_store
  yaml_store-IsLawful = record {
    save-empty = λ j value s. unfold save in refl;
    save-returns = λ j k ks value v s sound e. rw (save-eq j k ks value v s sound e);
    load-save = λ i j k ks value v s sound e.
        rw (save-eq j k ks value v s sound e) (rw load-put (ground arith));
    save-Sound =
        λ j k ks value v s sound e. rw (save-eq j k ks value v s sound e) (save-Sound j _ s sound);
  }

  -- A value that is refused leaves the files as they were.
  pub save_refused :
      (j k : String) (ks : List String) (value : PyValue) (x : Exc) (files : Files)
      → Sound files
      → serialize_value value ≡ raised x
      → save j (k ∷ ks) value files ≡ (raised x, files)
  save_refused j k ks value x files sound e = unfold save in rw (e, sound j, replaced)

  replaced-none :
      (j k : String) (ks : List String) (x : Value) (files : Files)
      → replaced j k ks none (ok x) files ≡ (raised (type_error "item assignment"), files)
  unfolding replaced
  replaced-none j k [] x files = refl
  replaced-none j k (i ∷ ks) x files = refl

  -- A state file that holds a list of something makes every save of its project raise, of any
  -- value that can be serialized, although `load` reads such a file as an empty state.
  pub save_broken :
      (j k : String) (ks : List String) (value : PyValue) (text : Text) (v : Value) (vs : Items)
      (x : Value) (files : Files)
      → serialize_value value ≡ ok x
      → Dict.get j files ≡ some text
      → safe_load text ≡ some (sequence (item v vs))
      → (load j files ≡ end)
        × (save j (k ∷ ks) value files ≡ (raised (type_error "item assignment"), files))
  save_broken j k ks value text v vs x files s e l = (
    unfold load in rw (e, l),
    unfold save in rw (e, s, current) (rw (l, replaced-none j k ks x files) refl),
  )
