-- ===== src/SecurityGroups/Fingerprints.antt =====
-- What a rule's fingerprint says of it: `_rule_fingerprint` and `_find_missing_rules` of
-- src/resources/security_group.py, and `to_api_dict` of src/models/security.py.
use openstack_tenantctl.Base.{
  Option, none, some, [], ◌∷◌, ◌++◌, ◌≡◌, ◌≢◌, refl, arith, String, ◌==◌, ==_iff, ap, Bool-cases,
  inl, inr, string_eq, if◌then◌else◌,
}
use openstack_tenantctl.Base.Dict.{Dict, get}
use openstack_tenantctl.Base.Int.{ℤ}
use openstack_tenantctl.Models.Security.{SecurityGroupRule}
use openstack_tenantctl.ExternalNetwork.{is_empty}
use openstack_tenantctl.SecurityGroups.{
  ApiValue, text, number, text_arg, number_arg, to_api_dict, Fingerprint, rule_fingerprint,
}

first_of : Option ApiValue → Option ApiValue → Option ApiValue
first_of none v = v
first_of (some v) w = some v

get-append :
    (k : String) (d e : Dict String ApiValue) → get k (d ++ e) ≡ first_of (get k d) (get k e)
unfolding get first_of
get-append k [] e = refl
get-append k ((j, v) ∷ d) e = ground (arith, get-append k d e)

nonempty : Option String → Option ApiValue
nonempty none = none
nonempty (some s) = if is_empty s then none else some (text s)

get-text_arg :
    (k j : String) (o : Option String)
    → get k (text_arg j o) ≡ (if k == j then nonempty o else none)
unfolding get text_arg nonempty
get-text_arg k j none = ground arith
get-text_arg k j (some s) = ground arith

numbered : Option ℤ → Option ApiValue
numbered none = none
numbered (some n) = some (number n)

get-number_arg :
    (k j : String) (o : Option ℤ) → get k (number_arg j o) ≡ (if k == j then numbered o else none)
unfolding get number_arg numbered
get-number_arg k j none = ground arith
get-number_arg k j (some s) = ground arith

-- What the call is told of the five fields of a fingerprint.
abbrev told : String → SecurityGroupRule → Option ApiValue
told key rule = get key (to_api_dict rule)

first_of-none : (v : Option ApiValue) → first_of v none ≡ v
unfolding first_of
first_of-none none = refl
first_of-none (some v) = refl

ruleset reads = (get-append, get-text_arg, get-number_arg, first_of-none)

told_direction : (rule : SecurityGroupRule) → told "direction" rule ≡ nonempty (some rule.direction)
unfolding to_api_dict string_eq first_of
told_direction rule = simp reads

told_protocol : (rule : SecurityGroupRule) → told "protocol" rule ≡ nonempty rule.protocol
unfolding to_api_dict string_eq first_of
told_protocol rule = simp reads

told_min : (rule : SecurityGroupRule) → told "port_range_min" rule ≡ numbered rule.port_range_min
unfolding to_api_dict string_eq first_of
told_min rule = simp reads

told_max : (rule : SecurityGroupRule) → told "port_range_max" rule ≡ numbered rule.port_range_max
unfolding to_api_dict string_eq first_of
told_max rule = simp reads

told_prefix :
    (rule : SecurityGroupRule) → told "remote_ip_prefix" rule ≡ nonempty rule.remote_ip_prefix
unfolding to_api_dict string_eq first_of
told_prefix rule = simp reads

text_of : Option ApiValue → Option String
text_of (some (text s)) = some s
text_of (some (number n)) = none
text_of none = none

number_of : Option ApiValue → Option ℤ
number_of (some (number n)) = some n
number_of (some (text s)) = none
number_of none = none

-- The fingerprint of a rule that was created from the arguments of a call.
pub dict_fingerprint : Dict String ApiValue → Fingerprint
unfolding text_of number_of
dict_fingerprint d = record {
  direction = text_of (get "direction" d);
  protocol = text_of (get "protocol" d);
  port_range_min = number_of (get "port_range_min" d);
  port_range_max = number_of (get "port_range_max" d);
  remote_ip_prefix = text_of (get "remote_ip_prefix" d);
}

-- A rule whose protocol and remote prefix, where they are given, are not empty texts.
abbrev pub IsPlain : SecurityGroupRule → Type 0
IsPlain rule = (rule.protocol ≢ some "") × (rule.remote_ip_prefix ≢ some "")

text_of-nonempty : (o : Option String) → o ≢ some "" → text_of (nonempty o) ≡ o
unfolding text_of nonempty is_empty
text_of-nonempty none h = refl
text_of-nonempty (some s) h = elim (Bool-cases (s == "")) [
  | inl empty ↦ absurd (h (ap some ((==_iff s "").0 empty)))
  | inr full ↦ rw full refl
]

text_of_direction :
    (s : String) → text_of (nonempty (some s)) ≡ (if is_empty s then none else some s)
unfolding text_of nonempty
text_of_direction s = ground arith

number_of-numbered : (o : Option ℤ) → number_of (numbered o) ≡ o
unfolding number_of numbered
number_of-numbered none = refl
number_of-numbered (some n) = refl

-- The arguments of the call that creates a plain rule have the fingerprint of the rule.
pub dict_fingerprint-to_api_dict :
    (rule : SecurityGroupRule)
    → IsPlain rule
    → dict_fingerprint (to_api_dict rule) ≡ rule_fingerprint rule
unfolding dict_fingerprint rule_fingerprint
dict_fingerprint-to_api_dict rule (p, q) = rw (
  told_direction rule,
  told_protocol rule,
  told_min rule,
  told_max rule,
  told_prefix rule,
  text_of_direction rule.direction,
  text_of-nonempty rule.protocol p,
  text_of-nonempty rule.remote_ip_prefix q,
  number_of-numbered rule.port_range_min,
  number_of-numbered rule.port_range_max,
)
