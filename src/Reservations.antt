-- ===== src/Reservations.antt =====
-- Time-limited access to private flavors: src/resources/reservations.py. The calls of the compute
-- service, the clock and the matching of wildcards (fnmatch) are a parameter.
pub mod Granting
pub mod Ensure
pub mod Holding
pub mod Manual
pub mod Access
pub mod Converging
use openstack_tenantctl.Base.{
  ℕ, suc, Bool, true, false, ◌&&◌, ◌||◌, not, Option, none, some, List, [], ◌∷◌, ◌++◌, map, String,
  ◌<>◌, ◌==◌, contains, string_eq, if◌then◌else◌, keep, length, Result, ok, raised, Exc, conflict,
  not_found, dry_run_unsupported, other, Act, pure, raise, catch, each, ◌>>=◌, ◌>>◌,
}
use openstack_tenantctl.Base.Dict.{Dict, put}
use openstack_tenantctl.Base.Dict
use openstack_tenantctl.Base.Int.{pos}
use openstack_tenantctl.Base.Sorting.{sorted_by}
use openstack_tenantctl.Cloud.{Flavor, Tenacity}
use openstack_tenantctl.Models.{ProjectConfig, dict_list}
use openstack_tenantctl.Models.Reservations.{
  PeriodSpan, spans_active, ReservationConfig, label, GrantedFlavorAccessEntry, granted_to_dict,
  RevokedFlavorAccessEntry, revoked_to_dict, granted_list_eq, revoked_list_eq,
}
use openstack_tenantctl.Store.{
  Value, str, sequence, mapping, Items, no_items, item, Fields, get, plain,
}
use openstack_tenantctl.Store.Interface.{StateStore}
use openstack_tenantctl.Context.{
  Action, ActionStatus, Details, lit, int, created, updated, skipped, deleted, World, on_cloud,
  on_store, set_ctx, record_action,
}
use openstack_tenantctl.Context.Retry.{retried}
use openstack_tenantctl.Fips.Persist.{save_or_raise}

-- `conn.compute` for flavors: the private ones, the two changes of access, and the tenant ids of a
-- flavor's access list.
pub record FlavorCalls (C : Type 0) : Type 0 where
  pub flavors : Act C (List Flavor)
  pub flavor_add_tenant_access : String → String → Act C (Unit {0})
  pub flavor_remove_tenant_access : String → String → Act C (Unit {0})
  pub get_flavor_access : String → Act C (List (Option String))
  pub now : C → ℕ × C
  pub isoformat : ℕ → String
  pub fnmatchcase : String → String → Bool

-- flavor_id → (flavor_name, reservation name)
abbrev pub Grants : Type 0
Grants = Dict String (String × String)

unfoldable pub is_desired : Grants → String → Bool
is_desired desired fid = elim (Dict.get fid desired) [ none ↦ false | some g ↦ true ]

any_match : (String → Bool) → List String → Bool
any_match p [] = false
any_match p (x ∷ xs) = p x || any_match p xs

module _ (fnmatchcase : String → String → Bool) where
  matches : String → String → Bool
  matches name pattern = name == pattern || fnmatchcase name pattern

  cover : ReservationConfig → Flavor → Grants → Grants
  unfolding is_desired any_match matches
  cover entry flavor desired =
      if is_desired desired flavor.id
      then desired
      else if any_match (matches flavor.name) entry.flavors
      then put flavor.id (flavor.name, entry.name) desired
      else desired

  cover_all : ReservationConfig → List Flavor → Grants → Grants
  unfolding cover
  cover_all entry [] desired = desired
  cover_all entry (flavor ∷ flavors) desired = cover_all entry flavors (cover entry flavor desired)

  unfoldable pub desired_grants : List ReservationConfig → List Flavor → Grants → Grants
  unfolding cover_all
  desired_grants [] flavors desired = desired
  desired_grants (entry ∷ entries) flavors desired =
      desired_grants entries flavors (cover_all entry flavors desired)

  unmatched_of : ReservationConfig → List String → List Flavor → List String
  unfolding any_match matches label
  unmatched_of entry [] flavors = []
  unmatched_of entry (pattern ∷ patterns) flavors =
      if any_match (λ name. matches name pattern) (map (λ f. f.name) flavors)
      then unmatched_of entry patterns flavors
      else (label entry <> ":" <> pattern) ∷ unmatched_of entry patterns flavors

  all_unmatched : List ReservationConfig → List Flavor → List String
  unfolding unmatched_of
  all_unmatched [] flavors = []
  all_unmatched (entry ∷ entries) flavors =
      unmatched_of entry entry.flavors flavors ++ all_unmatched entries flavors

-- The elements of a set.
distinct : List String → List String
distinct [] = []
distinct (x ∷ xs) = if contains xs x then distinct xs else x ∷ distinct xs

-- unmatched == previous
same_texts : List String → Items → Bool
same_texts [] no_items = true
same_texts (x ∷ xs) (item (str s) rest) = x == s && same_texts xs rest
same_texts _ _ = false

-- The list that is stored, or [].
stored_list : Option Value → Items
stored_list (some (sequence xs)) = xs
stored_list _ = no_items

-- load(key).get("metadata", {}).get("unmatched_flavor_patterns")
previous_of : Option Value → Result Items
unfolding stored_list get
previous_of none = ok no_items
previous_of (some (mapping d)) = ok (stored_list (get "unmatched_flavor_patterns" d))
previous_of (some v) = raised (other "AttributeError")

-- [id for id in tenant ids if id]
unfoldable pub tenants : List (Option String) → List String
tenants [] = []
tenants (none ∷ entries) = tenants entries
tenants (some t ∷ entries) = if t == "" then tenants entries else t ∷ tenants entries

module _ {A : Type 0} where
  unfoldable pub somes : List (Option A) → List A
  somes [] = []
  somes (none ∷ xs) = somes xs
  somes (some x ∷ xs) = x ∷ somes xs

reservation_names : List ReservationConfig → List String
reservation_names entries = keep (λ n. not (n == "")) (map (λ r. r.name) entries)

revocation_reason : GrantedFlavorAccessEntry → ProjectConfig → String
unfolding reservation_names
revocation_reason grant cfg =
    if not (grant.reservation == "")
      && not (contains (reservation_names cfg.reservations) grant.reservation)
    then "reservation entry removed from config"
    else "no active reservation covers this flavor"

-- reservation or '<unnamed>'
name_part : String → String
name_part reservation = if reservation == "" then "<unnamed>" else reservation

unfoldable pub all_revoked :
    List GrantedFlavorAccessEntry
    → List RevokedFlavorAccessEntry
    → List RevokedFlavorAccessEntry
    → List RevokedFlavorAccessEntry
all_revoked final_grants before newly_revoked =
    keep (λ r. not (contains (map (λ g. g.flavor_id) final_grants) r.flavor_id))
      (before ++ newly_revoked)

unfoldable pub covered_by : Grants → List GrantedFlavorAccessEntry → List GrantedFlavorAccessEntry
unfolding is_desired
covered_by desired tracked = keep (λ g. is_desired desired g.flavor_id) tracked

unfoldable pub to_revoke : Grants → List GrantedFlavorAccessEntry → List GrantedFlavorAccessEntry
unfolding is_desired
to_revoke desired tracked = keep (λ g. not (is_desired desired g.flavor_id)) tracked

-- sorted(to_grant.items())
unfoldable pub to_grant : Grants → List GrantedFlavorAccessEntry → Grants
unfolding sorted_by
to_grant desired tracked =
    sorted_by (λ e. e.0) (keep (λ e. not (contains (map (λ g. g.flavor_id) tracked) e.0)) desired)
