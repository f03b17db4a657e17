-- ===== src/Compute.antt =====
-- Shelving and unshelving of a project's servers: src/resources/compute.py. The calls of
-- `conn.compute` are a parameter.
pub mod Isolation
pub mod Shelving
use openstack_tenantctl.Base.{
  ℕ, suc, Bool, true, false, ◌||◌, not, List, [], ◌∷◌, ◌++◌, String, ◌==◌, string_eq, if◌then◌else◌,
  length, keep, Result, ok, Exc, Act, pure, catch, gets, ◌>>=◌, ◌>>◌,
}
use openstack_tenantctl.Base.Int.{ℤ, pos}
use openstack_tenantctl.Cloud.{Tenacity}
use openstack_tenantctl.Models.{ProjectConfig}
use openstack_tenantctl.Context.{
  Action, ActionStatus, Details, lit, int, updated, failed, skipped, World, on_cloud, record_action,
}
use openstack_tenantctl.Context.Retry.{retried}

pub record Server : Type 0 where
  pub id : String
  pub name : String
  pub status : String

pub record Compute (C : Type 0) : Type 0 where
  pub servers : String → Act C (List Server)
  pub shelve_server : String → Act C (Unit {0})
  pub unshelve_server : String → Act C (Unit {0})

unfoldable pub is_active : Server → Bool
is_active s = s.status == "ACTIVE"

-- `status in shelved_states`
unfoldable pub is_shelved : Server → Bool
is_shelved s = s.status == "SHELVED" || s.status == "SHELVED_OFFLOADED"

-- ", ".join(s.name for s in servers)
joined : List Server → Details
joined [] = []
joined (s ∷ []) = lit s.name ∷ []
joined (s ∷ t ∷ rest) = lit s.name ∷ lit ", " ∷ joined (t ∷ rest)

-- What the two functions differ in: the type and the words of their actions, the servers that they
-- take and the call that they make.
pub record Transition (C : Type 0) : Type 0 where
  pub resource_type : String
  pub verb : String
  pub past : String
  pub failure : String
  pub adjective : String
  pub takes : Server → Bool
  pub call : String → Act C (Unit {0})

module _ {C S : Type 0} where
  one : ActionStatus → String → String → Details → Act (World C S) (List Action)
  unfolding record_action
  one status resource_type name details = do
    action ← record_action status resource_type name details
    pure (action ∷ [])

  none_taken : Transition C → Act (World C S) (List Action)
  unfolding one
  none_taken t =
      one skipped t.resource_type "all"
        (lit "no " ∷ lit t.adjective ∷ lit " servers to " ∷ lit t.verb ∷ [])

  -- The online dry run.
  preview : Transition C → List Server → Act (World C S) (List Action)
  unfolding none_taken one joined
  preview t [] = none_taken t
  preview t (s ∷ rest) = one updated t.resource_type "all" (
      lit "would "
      ∷ lit t.verb
      ∷ lit " "
      ∷ int (pos (suc (length rest)))
      ∷ lit " server(s): "
      ∷ joined (s ∷ rest))

  -- One server that is taken: the exception of its call is caught.
  unfoldable pub move_server : Transition C → Server → Act (World C S) Action
  unfolding record_action
  move_server t s =
      catch
        (do
          on_cloud (t.call s.id)
          record_action updated t.resource_type s.name
              (lit t.past ∷ lit " (was " ∷ lit s.status ∷ lit ")" ∷ []))
        (λ e.
          record_action failed t.resource_type s.name
            (lit t.failure ∷ lit " (was " ∷ lit s.status ∷ lit ")" ∷ []))

  unfoldable pub move_all : Transition C → List Server → Act (World C S) (List Action)
  unfolding move_server
  move_all t [] = pure []
  move_all t (s ∷ servers) =
      let rest = move_all t servers in
      if t.takes s
      then (do action ← move_server t s; actions ← rest; pure (action ∷ actions))
      else rest

  -- `if not actions`
  pub or_none : Transition C → List Action → Act (World C S) (List Action)
  unfolding none_taken
  or_none t [] = none_taken t
  or_none t (a ∷ actions) = pure (a ∷ actions)

  unfoldable pub move_listed : Transition C → List Server → Act (World C S) (List Action)
  unfolding preview move_all or_none one
  move_listed t [] w = one skipped t.resource_type "all" (lit "no servers in project" ∷ []) w
  move_listed t (s ∷ servers) w =
      if w.ctx.dry_run
      then preview t (keep t.takes (s ∷ servers)) w
      else (do actions ← move_all t (s ∷ servers); or_none t actions) w

module _ {C : Type 0} (X : Compute C) (T : Tenacity) where
  unfoldable pub shelving : Transition C
  unfolding is_active retried
  shelving = record {
    resource_type = "server_shelve";
    verb = "shelve";
    past = "shelved";
    failure = "shelve failed";
    adjective = "active";
    takes = is_active;
    call = λ id. retried T (X.shelve_server id);
  }

  unfoldable pub unshelving : Transition C
  unfolding is_shelved retried
  unshelving = record {
    resource_type = "server_unshelve";
    verb = "unshelve";
    past = "unshelved";
    failure = "unshelve failed";
    adjective = "shelved";
    takes = is_shelved;
    call = λ id. retried T (X.unshelve_server id);
  }

  unfoldable pub list_servers : String → Act C (List Server)
  unfolding retried
  list_servers project_id = retried T (X.servers project_id)

module _ {C S : Type 0} (X : Compute C) (T : Tenacity) where
  move_servers : Transition C → String → Details → Act (World C S) (List Action)
  unfolding one list_servers move_listed
  move_servers t project_id offline w =
      if not w.ctx.online
      then one skipped t.resource_type "all" offline w
      else (do servers ← on_cloud (list_servers X T project_id); move_listed t servers) w

  unfoldable pub shelve_all_servers : String → Act (World C S) (List Action)
  unfolding move_servers shelving
  shelve_all_servers project_id =
      move_servers (shelving X T) project_id (lit "would shelve active servers (offline)" ∷ [])

  unfoldable pub unshelve_all_servers : String → Act (World C S) (List Action)
  unfolding move_servers unshelving
  unshelve_all_servers project_id =
      move_servers (unshelving X T) project_id (lit "would unshelve shelved servers (offline)" ∷ [])
