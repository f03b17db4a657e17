-- ===== src/Compute/Isolation.antt =====
-- How far a failure reaches when the servers of a project are shelved.
use openstack_tenantctl.Base.{
  ℕ, Bool, true, false, not, List, [], ◌∷◌, ◌≡◌, refl, ap, ◌∙◌, sym, arith, String, string_eq,
  if◌then◌else◌, length, keep, Bool-cases, inl, inr, ◌⊎◌, ok_witness, ok, Act, ◌>>=◌,
}
use openstack_tenantctl.Cloud.{Tenacity}
use openstack_tenantctl.Context.{Action, World, record_action}
use openstack_tenantctl.Compute.{
  Server, Compute, is_active, Transition, move_server, move_all, move_listed, move_servers,
  shelving, list_servers, shelve_all_servers, or_none, none_taken, one,
}

pub take_else : {A : Type 0} (b : Bool) (x y : A) → b ≡ false → (if b then x else y) ≡ y
take_else true x y e = cc
take_else false x y e = refl

module _ {C S : Type 0} (t : Transition C) where
  abbrev pub live_loop : List Server → Act (World C S) (List Action)
  live_loop servers = do actions ← move_all t servers; or_none t actions

  pub move_listed-live :
      (s : Server) (ss : List Server) (w : World C S)
      → w.ctx.dry_run ≡ false
      → move_listed t (s ∷ ss) w ≡ live_loop (s ∷ ss) w
  unfolding move_listed
  move_listed-live s ss w live = take_else w.ctx.dry_run _ _ live

  pub move_server-returns :
      (s : Server) (w : World C S)
      → (a : Action) × (v : World C S) × (move_server t s w ≡ (ok a, v))
  unfolding move_server
  move_server-returns s w = ok_witness (move_server t s w) (ground arith)

  -- The loop returns with an action for each server that it takes, whatever the calls raise.
  pub move_all-returns :
      (servers : List Server) (w : World C S)
      → (actions : List Action) × (v : World C S) × (move_all t servers w ≡ (ok actions, v))
        × (length actions ≡ length (keep t.takes servers))
  unfolding move_all
  move_all-returns [] w = ([], w, refl, refl)
  move_all-returns (s ∷ servers) w = elim (Bool-cases (t.takes s)) [
    | inl taken ↦
        let (a, v, e) = move_server-returns s w in
        let (actions, u, e', n) = move_all-returns servers v in
        (a ∷ actions, u, rw (taken, e, e') refl, rw (taken, n) refl)
    | inr left ↦
        let (actions, u, e', n) = move_all-returns servers w in (actions, u, rw left e', rw left n)
  ]

module _ {C S : Type 0} (X : Compute C) (T : Tenacity) where
  or_none-returns :
      (actions : List Action) (n : ℕ) (w : World C S)
      → length actions ≡ n
      → (result : List Action) × (v : World C S) × (or_none (shelving X T) actions w
          ≡ (ok result, v))
        × ((length result ≡ n) ⊎ (n ≡ 0))
  unfolding or_none none_taken one record_action
  or_none-returns [] n w e = (_, _, refl, inr (sym e))
  or_none-returns (a ∷ actions) n w e = (a ∷ actions, w, refl, inl e)

  -- A live run that has listed the servers returns, with one action for each active server unless there
  -- is none, whatever the calls that shelve them raise.
  pub shelve_all_servers_isolates :
      (project_id : String) (w : World C S) (c : C) (s : Server) (servers : List Server)
      → w.ctx.online ≡ true
      → w.ctx.dry_run ≡ false
      → list_servers X T project_id w.cloud ≡ (ok (s ∷ servers), c)
      → (actions : List Action) × (u : World C S) × (shelve_all_servers X T project_id w
          ≡ (ok actions, u))
        × ((length actions ≡ length (keep is_active (s ∷ servers)))
            ⊎ (length (keep is_active (s ∷ servers)) ≡ 0))
  unfolding shelve_all_servers move_servers shelving
  shelve_all_servers_isolates project_id w c s servers online live listed =
      let listed_world : World C S = record w { cloud = c } in
      let (actions, u, e, n) = move_all-returns (shelving X T) (s ∷ servers) listed_world in
      let (result, t, e', k) =
        or_none-returns actions (length (keep is_active (s ∷ servers))) u n in
      let whole : shelve_all_servers X T project_id w
          ≡ move_listed (shelving X T) (s ∷ servers) listed_world =
        take_else (not w.ctx.online) _ _ (ap not online) ∙ rw listed refl in
      (result, t, whole ∙ move_listed-live (shelving X T) s servers listed_world live ∙ rw e e', k)
