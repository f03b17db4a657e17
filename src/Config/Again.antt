-- ===== src/Config/Again.antt =====
-- Expanding the rules of a security group that are expanded already: `expand_security_group_rules` of
-- src/config_resolver.py.
use openstack_tenantctl.Base.{
  ℕ, suc, Bool, true, false, Option, none, some, List, [], ◌∷◌, ◌≡◌, refl, ◌∙◌, subst, arith,
  String, ◌==◌, string_eq, if◌then◌else◌, Result, ok, Act, pure, bind_ok, ◌>>=◌, All,
}
use openstack_tenantctl.Base.Dict
use openstack_tenantctl.Base.Dict.{Dict}
use openstack_tenantctl.Store.{
  Value, null, boolean, num, str, sequence, mapping, Items, no_items, item, Fields, end, field, get,
  put,
}
use openstack_tenantctl.Store.Path.{get-put, get-put_self, put-put}
use openstack_tenantctl.Config.Presets.{
  Errors, predefined_rules, find_preset, merge_rule, or_unknown, expand_named, expand_entry,
  append_error, add_items, expand_rules, expand_rules_of, expand_group, expand_security_group_rules,
}

-- What a statement returns, if it returns.
abbrev Gives : {A : Type 0} → (A → Type 0) → Act Errors A → Type 0
Gives {A = A} P m = (w : Errors) (a : A) (w' : Errors) → m w ≡ (ok a, w') → P a

bind-Gives :
    {A B : Type 0} {P : A → Type 0} {Q : B → Type 0} (m : Act Errors A) (f : A → Act Errors B)
    → Gives P m
    → ((a : A) → P a → Gives Q (f a))
    → Gives Q (m >>= f)
bind-Gives m f g k w b w' h = let (a, v, e, e') = bind_ok m f w b w' h in k a (g w a v e) v b w' e'

same_result :
    {A : Type 0} {a b : A} {w w' : Errors}
    → ◌≡◌ {A = Result A × Errors} (ok a, w) (ok b, w')
    → a ≡ b
same_result h = cc

pure-Gives : {A : Type 0} (P : A → Type 0) (a : A) → P a → Gives P (pure a)
pure-Gives P a p w b w' h = subst P (same_result h) p

-- An entry that is expanded to itself.
abbrev Settled : Value → Type 0
Settled entry =
    (label : String) (idx : ℕ) (w : Errors) → expand_entry label idx entry w ≡ (ok (entry ∷ []), w)

no_rule-Settled : (d : Fields) → get "rule" d ≡ none → Settled (mapping d)
unfolding expand_entry expand_named
no_rule-Settled d e label idx w = rw e refl

null_rule-Settled : (d : Fields) → get "rule" d ≡ some null → Settled (mapping d)
unfolding expand_entry expand_named
null_rule-Settled d e label idx w = rw e refl

get-merge_rule : (d entry : Fields) → get "rule" (merge_rule d entry) ≡ get "rule" d
unfolding merge_rule
get-merge_rule d end = refl
get-merge_rule d (field key value entry) = ground (
  arith,
  get-put "rule" key value d,
  get-merge_rule d entry,
  get-merge_rule (put key value d) entry,
)

same_some : {a b : Fields} → some a ≡ some b → a ≡ b
same_some h = cc

if_get :
    (P : Fields → Type 0) (same : Bool) {v : Fields} {o : Option Fields} (p : Fields)
    → P v
    → (o ≡ some p → P p)
    → (if same then some v else o) ≡ some p
    → P p
if_get P true p q k h = subst P (same_some h) q
if_get P false p q k h = k h

get-All :
    (P : Fields → Type 0) (d : Dict String Fields) (k : String) (p : Fields)
    → All (λ e. P e.1) d
    → Dict.get k d ≡ some p
    → P p
unfolding Dict.get
get-All P [] k p _ h = cc
get-All P ((j, v) ∷ d) k p (q, more) h = if_get P (k == j) p q (λ e. get-All P d k p more e) h

predefined_rules-no_rule :
    (k : String) (p : Fields) → Dict.get k predefined_rules ≡ some p → get "rule" p ≡ none
unfolding predefined_rules get string_eq
predefined_rules-no_rule k p h =
    get-All (λ p. get "rule" p ≡ none) predefined_rules k p
      (refl, (refl, (refl, (refl, (refl, (refl, (refl, (refl, (refl, tt))))))))) h

or_unknown-Settled :
    (label : String) (idx : ℕ) (name : Value) (entry : Fields) (preset : Option Fields)
    → ((p : Fields) → preset ≡ some p → get "rule" p ≡ none)
    → Gives (All Settled) (or_unknown label idx name entry preset)
unfolding or_unknown append_error
or_unknown-Settled label idx name entry none good =
    λ w b w' h. subst (All Settled) (same_result h) tt
or_unknown-Settled label idx name entry (some p) good =
    pure-Gives (All Settled) (mapping (merge_rule p entry) ∷ [])
      (no_rule-Settled (merge_rule p entry) (get-merge_rule p entry ∙ good p refl), tt)

or_unknown-found :
    (label : String) (idx : ℕ) (k : String) (entry : Fields)
    → Gives (All Settled) (or_unknown label idx (str k) entry (Dict.get k predefined_rules))
or_unknown-found label idx k entry =
    or_unknown-Settled label idx (str k) entry (Dict.get k predefined_rules)
      (predefined_rules-no_rule k)

none-Settled :
    (label : String) (idx : ℕ) (v : Value) (entry : Fields)
    → Gives (All Settled) (or_unknown label idx v entry none)
none-Settled label idx v entry = or_unknown-Settled label idx v entry none (λ p h. cc)

expand_named-Settled :
    (label : String) (idx : ℕ) (entry : Fields) (o : Option Value)
    → get "rule" entry ≡ o
    → Gives (All Settled) (expand_named label idx entry o)
unfolding expand_named find_preset
expand_named-Settled label idx entry none e =
    pure-Gives (All Settled) _ (no_rule-Settled entry e, tt)
expand_named-Settled label idx entry (some null) e =
    pure-Gives (All Settled) _ (null_rule-Settled entry e, tt)
expand_named-Settled label idx entry (some (str k)) e = or_unknown-found label idx k entry
expand_named-Settled label idx entry (some (boolean b)) e = none-Settled label idx (boolean b) entry
expand_named-Settled label idx entry (some (num n)) e = none-Settled label idx (num n) entry
expand_named-Settled label idx entry (some (sequence xs)) e = λ w b w' h. cc
expand_named-Settled label idx entry (some (mapping d)) e = λ w b w' h. cc

append_error-Settled : (error : _) → Gives (All Settled) (append_error error)
unfolding append_error
append_error-Settled error w b w' h = subst (All Settled) (same_result h) tt

expand_entry-Settled :
    (label : String) (idx : ℕ) (entry : Value) → Gives (All Settled) (expand_entry label idx entry)
unfolding expand_entry find_preset
expand_entry-Settled label idx (str k) = or_unknown-found label idx k end
expand_entry-Settled label idx (mapping d) = expand_named-Settled label idx d (get "rule" d) refl
expand_entry-Settled label idx null = append_error-Settled _
expand_entry-Settled label idx (boolean b) = append_error-Settled _
expand_entry-Settled label idx (num n) = append_error-Settled _
expand_entry-Settled label idx (sequence xs) = append_error-Settled _

abbrev AllSettled : Items → Type 0
AllSettled no_items = Unit
AllSettled (item v vs) = Settled v × AllSettled vs

add_items-AllSettled :
    (vs : List Value) (items : Items)
    → All Settled vs
    → AllSettled items
    → AllSettled (add_items vs items)
unfolding add_items
add_items-AllSettled [] items _ all = all
add_items-AllSettled (v ∷ vs) items (s, more) all = (s, add_items-AllSettled vs items more all)

expand_rules-AllSettled :
    (label : String) (idx : ℕ) (rules : Items) → Gives AllSettled (expand_rules label idx rules)
unfolding expand_rules
expand_rules-AllSettled label idx no_items = pure-Gives AllSettled no_items tt
expand_rules-AllSettled label idx (item entry rules) =
    bind-Gives _ _ (expand_entry-Settled label idx entry) λ vs s.
      bind-Gives _ _ (expand_rules-AllSettled label (suc idx) rules)
        λ rest all. pure-Gives AllSettled (add_items vs rest) (add_items-AllSettled vs rest s all)

expand_rules-settled :
    (label : String) (idx : ℕ) (rules : Items) (w : Errors)
    → AllSettled rules
    → expand_rules label idx rules w ≡ (ok rules, w)
unfolding expand_rules add_items
expand_rules-settled label idx no_items w _ = refl
expand_rules-settled label idx (item v rules) w (s, all) =
    rw (s label idx w, expand_rules-settled label (suc idx) rules w all) refl

-- A configuration that is expanded to itself.
abbrev Expanded : Fields → Type 0
Expanded project = (w : Errors) → expand_security_group_rules project w ≡ (ok project, w)

put_rules-Expanded :
    (project sg : Fields) (rules : Items)
    → AllSettled rules
    → Expanded (put "security_group" (mapping (put "rules" (sequence rules) sg)) project)
unfolding expand_security_group_rules expand_group expand_rules_of
put_rules-Expanded project sg rules all w =
    rw
      (
        get-put_self "security_group" (mapping (put "rules" (sequence rules) sg)) project,
        get-put_self "rules" (sequence rules) sg,
        expand_rules-settled _ 0 rules w all,
        put-put "rules" (sequence rules) (sequence rules) sg,
        put-put "security_group" (mapping (put "rules" (sequence rules) sg)) _ project,
      )
      refl

expand_rules_of-Expanded :
    (project sg : Fields) (o : Option Value)
    → get "security_group" project ≡ some (mapping sg)
    → get "rules" sg ≡ o
    → Gives Expanded (expand_rules_of project sg o)
unfolding expand_rules_of expand_security_group_rules expand_group
expand_rules_of-Expanded project sg (some (sequence rules)) e e' =
    bind-Gives _ _ (expand_rules-AllSettled _ 0 rules)
      λ vs all. pure-Gives Expanded _ (put_rules-Expanded project sg vs all)
expand_rules_of-Expanded project sg none e e' = pure-Gives Expanded project λ w. rw (e, e') refl
expand_rules_of-Expanded project sg (some null) e e' =
    pure-Gives Expanded project λ w. rw (e, e') refl
expand_rules_of-Expanded project sg (some (boolean b)) e e' =
    pure-Gives Expanded project λ w. rw (e, e') refl
expand_rules_of-Expanded project sg (some (num n)) e e' =
    pure-Gives Expanded project λ w. rw (e, e') refl
expand_rules_of-Expanded project sg (some (str s)) e e' =
    pure-Gives Expanded project λ w. rw (e, e') refl
expand_rules_of-Expanded project sg (some (mapping d)) e e' =
    pure-Gives Expanded project λ w. rw (e, e') refl

expand_group-Expanded :
    (project : Fields) (o : Option Value)
    → get "security_group" project ≡ o
    → Gives Expanded (expand_group project o)
unfolding expand_security_group_rules expand_group
expand_group-Expanded project (some (mapping sg)) e =
    expand_rules_of-Expanded project sg (get "rules" sg) e refl
expand_group-Expanded project none e = pure-Gives Expanded project λ w. rw e refl
expand_group-Expanded project (some null) e = pure-Gives Expanded project λ w. rw e refl
expand_group-Expanded project (some (boolean b)) e = pure-Gives Expanded project λ w. rw e refl
expand_group-Expanded project (some (num n)) e = pure-Gives Expanded project λ w. rw e refl
expand_group-Expanded project (some (str s)) e = pure-Gives Expanded project λ w. rw e refl
expand_group-Expanded project (some (sequence d)) e = pure-Gives Expanded project λ w. rw e refl

-- Rules that are expanded stay as they are: expanding again what an expansion returned, whatever errors
-- it noted, returns the same configuration and notes no error.
pub expand_security_group_rules_again :
    (project expanded : Fields) (errors errors' later : Errors)
    → expand_security_group_rules project errors ≡ (ok expanded, errors')
    → expand_security_group_rules expanded later ≡ (ok expanded, later)
unfolding expand_security_group_rules
expand_security_group_rules_again project expanded errors errors' later h =
    expand_group-Expanded project (get "security_group" project) refl errors expanded errors' h
      later
