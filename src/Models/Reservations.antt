-- ===== src/Models/Reservations.antt =====
-- `PeriodSpan` and `spans_active` of src/period_parser.py, `ReservationConfig` of
-- src/models/reservations.py, and the entries of flavor access of src/models/state.py.
use openstack_tenantctl.Base.{
  ℕ, Bool, false, ◌||◌, not, Option, none, some, List, [], ◌∷◌, String, Eq, ◌==◌, string_eq,
  if◌then◌else◌, ltb,
}
use openstack_tenantctl.Store.{Value, str, mapping, end, field}

-- Inclusive on both ends; none is open.
pub record PeriodSpan : Type 0 where
  pub start : Option ℕ
  pub stop : Option ℕ

is_before : ℕ → Option ℕ → Bool
is_before now none = false
is_before now (some t) = ltb now t

is_after : ℕ → Option ℕ → Bool
is_after now none = false
is_after now (some t) = ltb t now

unfoldable pub span_contains : PeriodSpan → ℕ → Bool
unfolding is_before is_after
span_contains span now = if is_before now span.start then false else not (is_after now span.stop)

unfoldable pub spans_active : List PeriodSpan → ℕ → Bool
unfolding span_contains
spans_active [] now = false
spans_active (span ∷ spans) now = span_contains span now || spans_active spans now

pub record ReservationConfig : Type 0 where
  pub period : List PeriodSpan
  pub flavors : List String
  pub name : String

unfoldable pub label : ReservationConfig → String
label r = if r.name == "" then "<unnamed>" else r.name

pub record GrantedFlavorAccessEntry : Type 0 where
  pub flavor_id : String
  pub flavor_name : String
  pub reservation : String
  pub granted_at : String

unfoldable pub granted_to_dict : GrantedFlavorAccessEntry → Value
granted_to_dict g = mapping (
    field "flavor_id" (str g.flavor_id) (
      field "flavor_name" (str g.flavor_name)
        (field "reservation" (str g.reservation) (field "granted_at" (str g.granted_at) end))))

pub record RevokedFlavorAccessEntry : Type 0 where
  pub flavor_id : String
  pub flavor_name : String
  pub reservation : String
  pub revoked_at : String
  pub reason : String

unfoldable pub revoked_to_dict : RevokedFlavorAccessEntry → Value
revoked_to_dict r = mapping (
    field "flavor_id" (str r.flavor_id) (
      field "flavor_name" (str r.flavor_name) (
        field "reservation" (str r.reservation)
          (field "revoked_at" (str r.revoked_at) (field "reason" (str r.reason) end)))))

string_dec : Discrete String
unfolding string_eq
string_dec = string_eq.dec

Granted-discrete : Discrete GrantedFlavorAccessEntry
Granted-discrete = hlevel string_dec

granted_list_dec : Discrete (List GrantedFlavorAccessEntry)
granted_list_dec = hlevel Granted-discrete

-- Dataclasses compare by their fields.
instance unfoldable pub granted_list_eq : Eq (List GrantedFlavorAccessEntry)
unfolding granted_list_dec Granted-discrete string_dec
granted_list_eq = record { dec = granted_list_dec }

Revoked-discrete : Discrete RevokedFlavorAccessEntry
Revoked-discrete = hlevel string_dec

revoked_list_dec : Discrete (List RevokedFlavorAccessEntry)
revoked_list_dec = hlevel Revoked-discrete

instance unfoldable pub revoked_list_eq : Eq (List RevokedFlavorAccessEntry)
unfolding revoked_list_dec Revoked-discrete string_dec
revoked_list_eq = record { dec = revoked_list_dec }
