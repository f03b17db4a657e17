-- ===== src/Networks/Tracking.antt =====
-- The snapshot of a project's router addresses: `track_router_ips` of src/resources/network.py.
use openstack_tenantctl.Base.{
  not, Option, none, some, List, [], ◌∷◌, ◌++◌, map, String, ◌<>◌, ◌==◌, contains, string_eq,
  if◌then◌else◌, keep, Act, pure, each, ◌>>=◌, ◌>>◌,
}
use openstack_tenantctl.Cloud.{Neutron, Tenacity}
use openstack_tenantctl.Models.{ProjectConfig, dict_list}
use openstack_tenantctl.Models.Network.{
  RouterIpEntry, ReleasedRouterIpEntry, router_ip_to_dict, router_ips_eq, released_router_ips_eq,
}
use openstack_tenantctl.Store.{plain}
use openstack_tenantctl.Store.Interface.{StateStore}
use openstack_tenantctl.Context.{
  Action, lit, updated, skipped, failed, World, on_cloud, record_action,
}
use openstack_tenantctl.ExternalNetwork.{is_empty, resolve_project_external_network}
use openstack_tenantctl.Fips.Persist.{save_or_raise}
use openstack_tenantctl.Networks.{
  Router, NetworkCalls, get_router_external_ip, list_project_routers, utc_now,
}
use openstack_tenantctl.Networks.Stack.{persist_released_router_ips}

with_address : Router → Option String → List RouterIpEntry → List RouterIpEntry
with_address r none entries = entries
with_address r (some ip) entries =
    if is_empty ip
    then entries
    else (record { id = r.id; name = r.name; external_ip = ip }) ∷ entries

-- The routers that have an external address.
unfoldable pub snapshot : List Router → List RouterIpEntry
unfolding with_address get_router_external_ip
snapshot [] = []
snapshot (r ∷ rs) = with_address r (get_router_external_ip r) (snapshot rs)

abbrev pub ids : List RouterIpEntry → List String
ids = map (λ (e : RouterIpEntry). e.id)

abbrev pub external_ips : List RouterIpEntry → List String
external_ips = map (λ (e : RouterIpEntry). e.external_ip)

later_or : Option RouterIpEntry → Option RouterIpEntry → Option RouterIpEntry
later_or none e = e
later_or (some later) e = some later

-- `{e.id: e for e in entries}.get(id)`: the last entry of an id counts.
unfoldable pub by_id : List RouterIpEntry → String → Option RouterIpEntry
unfolding later_or
by_id [] id = none
by_id (e ∷ entries) id = later_or (by_id entries id) (if e.id == id then some e else none)

-- The tracked entries whose router is gone, and those that are not tracked yet.
abbrev pub without_ids_of : List RouterIpEntry → List RouterIpEntry → List RouterIpEntry
without_ids_of others entries = keep (λ e. not (contains (ids others) e.id)) entries

with_change :
    Option RouterIpEntry
    → RouterIpEntry
    → List (String × RouterIpEntry)
    → List (String × RouterIpEntry)
with_change none e changes = changes
with_change (some old) e changes =
    if old.external_ip == e.external_ip then changes else (old.external_ip, e) ∷ changes

-- The routers whose address changed, with the old one.
unfoldable pub changed : List RouterIpEntry → List RouterIpEntry → List (String × RouterIpEntry)
unfolding with_change by_id
changed previous [] = []
changed previous (e ∷ current) = with_change (by_id previous e.id) e (changed previous current)

-- The released entries, old and new, without those whose address is active.
unfoldable pub all_released_router_ips :
    List RouterIpEntry
    → List ReleasedRouterIpEntry
    → List ReleasedRouterIpEntry
    → List ReleasedRouterIpEntry
all_released_router_ips current released new_releases =
    keep (λ r. not (contains (external_ips current) r.address)) (released ++ new_releases)

-- The network through which a router gateways, if that is another than the configured one.
unfoldable pub foreign_gateway : String → Router → Option String
foreign_gateway configured r = elim r.external_gateway_info [
  | none ↦ none
  | some info ↦ elim info.network_id [
    | none ↦ none
    | some net ↦ if is_empty net then none else if net == configured then none else some net
  ]
]

unfoldable pub joined : {A : Type 0} → List (List A) → List A
joined [] = []
joined (xs ∷ xss) = xs ++ joined xss

module _ {C S : Type 0} where
  unfoldable pub mismatch_of : String → Router → Option String → Act (World C S) (List Action)
  unfolding record_action
  mismatch_of configured r none = pure []
  mismatch_of configured r (some net) = do
    action ← record_action failed "router_gateway" r.name (
        lit "router gateways through "
        ∷ lit net
        ∷ lit ", but configured external network is "
        ∷ lit configured
        ∷ [])
    pure (action ∷ [])

  unfoldable pub note_mismatch : String → Router → Act (World C S) (List Action)
  unfolding mismatch_of foreign_gateway
  note_mismatch configured r = mismatch_of configured r (foreign_gateway configured r)

  unfoldable pub gateway_mismatches : String → List Router → Act (World C S) (List Action)
  unfolding note_mismatch joined is_empty
  gateway_mismatches configured routers =
      if is_empty configured
      then pure []
      else do found ← each (note_mismatch configured) routers; pure (joined found)

  unfoldable pub adopt_router : RouterIpEntry → Act (World C S) Action
  unfolding record_action
  adopt_router e =
      record_action updated "router_ip" e.name
        (lit "adopted, external_ip=" ∷ lit e.external_ip ∷ lit ", id=" ∷ lit e.id ∷ [])

module _ {C S : Type 0} (N : Neutron C) where
  unfoldable pub release_removed : RouterIpEntry → Act (World C S) (ReleasedRouterIpEntry × Action)
  unfolding record_action
  release_removed e = do
    released_at ← utc_now N
    action ←
        record_action updated "router_ip" e.name
          (lit "router removed, released " ∷ lit e.external_ip ∷ [])
    let entry : ReleasedRouterIpEntry = record {
      address = e.external_ip;
      router_name = e.name;
      released_at = released_at;
      reason = "router no longer exists";
    }
    pure (entry, action)

  unfoldable pub release_changed :
      String × RouterIpEntry → Act (World C S) (ReleasedRouterIpEntry × Action)
  unfolding record_action
  release_changed (old_ip, e) = do
    released_at ← utc_now N
    action ←
        record_action updated "router_ip" e.name
          (lit "IP changed: " ∷ lit old_ip ∷ lit " -> " ∷ lit e.external_ip ∷ [])
    let entry : ReleasedRouterIpEntry = record {
      address = old_ip;
      router_name = e.name;
      released_at = released_at;
      reason = "IP changed: " <> old_ip <> " -> " <> e.external_ip;
    }
    pure (entry, action)

  -- The three loops over the entries, with their releases and all actions in order.
  unfoldable pub compare_snapshots :
      List RouterIpEntry
      → List RouterIpEntry
      → Act (World C S) (List ReleasedRouterIpEntry × List Action)
  unfolding adopt_router release_removed changed release_changed
  compare_snapshots previous current = do
    adopted ← each adopt_router (without_ids_of previous current)
    removed ← each release_removed (without_ids_of current previous)
    moved ← each release_changed (changed previous current)
    pure (map (λ r. r.0) (removed ++ moved), adopted ++ map (λ r. r.1) (removed ++ moved))

module _ {C S : Type 0} (st : StateStore S) where
  unfoldable pub persist_router_ips :
      ProjectConfig → List RouterIpEntry → Act (World C S) (Unit {0})
  unfolding dict_list router_ip_to_dict
  persist_router_ips cfg router_entries =
      save_or_raise st cfg "router_ips" (plain (dict_list router_ip_to_dict router_entries))

  -- `if current != previous`, and the audit trail of released addresses.
  unfoldable pub persist_tracking :
      ProjectConfig → List RouterIpEntry → List ReleasedRouterIpEntry → Act (World C S) (Unit {0})
  unfolding persist_router_ips all_released_router_ips persist_released_router_ips
  persist_tracking cfg current new_releases = do
    if current == cfg.router_ips then pure tt else persist_router_ips cfg current
    if all_released_router_ips current cfg.released_router_ips new_releases
          == cfg.released_router_ips
        then pure tt
        else persist_released_router_ips st cfg
            (all_released_router_ips current cfg.released_router_ips new_releases)

module _ {C S : Type 0} where
  or_no_changes : ProjectConfig → List Action → Act (World C S) (List Action)
  unfolding record_action
  or_no_changes cfg [] = do
    action ← record_action skipped "router_ip" cfg.name (lit "no changes detected" ∷ [])
    pure (action ∷ [])
  or_no_changes cfg (a ∷ actions) = pure (a ∷ actions)

module _ {C S : Type 0} (N : Neutron C) (K : NetworkCalls C) (T : Tenacity)
    (st : StateStore S) where
  unfoldable pub finish_tracking :
      ProjectConfig
      → List RouterIpEntry
      → List ReleasedRouterIpEntry
      → List Action
      → Act (World C S) (List Action)
  unfolding or_no_changes persist_tracking
  finish_tracking cfg current new_releases actions w =
      if w.ctx.dry_run
      then or_no_changes cfg actions w
      else (do persist_tracking st cfg current new_releases; pure actions) w

  unfoldable pub track_routers :
      ProjectConfig → List Router → String → Act (World C S) (List Action)
  unfolding gateway_mismatches compare_snapshots snapshot finish_tracking
  track_routers cfg routers configured_ext_net_id = do
    mismatches ← gateway_mismatches configured_ext_net_id routers
    found ← compare_snapshots N cfg.router_ips (snapshot routers)
    finish_tracking cfg (snapshot routers) found.0 (mismatches ++ found.1)

  unfoldable pub track_online : ProjectConfig → String → Act (World C S) (List Action)
  unfolding list_project_routers resolve_project_external_network track_routers
  track_online cfg project_id = do
    routers ← on_cloud (list_project_routers K T project_id)
    external ← resolve_project_external_network N T cfg
    track_routers cfg routers external.0

  unfoldable pub track_router_ips : ProjectConfig → String → Act (World C S) (List Action)
  unfolding record_action track_online
  track_router_ips cfg project_id w =
      if w.ctx.online
      then track_online cfg project_id w
      else (do
        action ←
            record_action skipped "router_ip" cfg.name
              (lit "skipping router IP tracking (offline)" ∷ [])
        pure (action ∷ []))
          w
