-- ===== src/Compute/Shelving.antt =====
-- What shelving the servers of a project does to them in a cloud that responds.
use openstack_tenantctl.Base.{
  true, false, not, List, [], ◌∷◌, map, ◌≡◌, ◌≢◌, refl, ap, ◌∙◌, sym, subst, arith, String,
  string_eq, contains, if◌then◌else◌, keep, All, Bool-cases, inl, inr, ok,
}
use openstack_tenantctl.Cloud.{Tenacity, Attempts-ok}
use openstack_tenantctl.Context.{Action, World, record_action}
use openstack_tenantctl.Context.Retry.{is_retryable, retried}
use openstack_tenantctl.Compute.{
  Server, Compute, is_active, move_server, move_all, move_listed, move_servers, shelving,
  list_servers, shelve_all_servers, or_none, none_taken, one,
}
use openstack_tenantctl.Compute.Isolation.{
  take_else, move_listed-live, move_server-returns, move_all-returns,
}

-- The server is in no other state than before, or shelved.
abbrev pub shelved_among : List String → Server → Server
shelved_among ids s = if contains ids s.id then record s { status = "SHELVED" } else s

abbrev pub server_ids : List Server → List String
server_ids = map (λ (s : Server). s.id)

-- A cloud whose listing shows its servers, and whose call shelves the one server.
pub record IsResponsive {C : Type 0} (X : Compute C) (project_id : String) (view : C → List Server)
    : Type 0 where
  pub servers-ok : (c : C) → X.servers project_id c ≡ (ok (view c), c)
  pub shelve_server-ok : (id : String) (c : C) → (X.shelve_server id c).0 ≡ ok tt
  pub view-shelve_server :
      (id : String) (c : C) → view (X.shelve_server id c).1 ≡ map (shelved_among (id ∷ [])) (view c)

shelved_twice :
    (i : String) (ids : List String) (s : Server)
    → shelved_among ids (shelved_among (i ∷ []) s) ≡ shelved_among (i ∷ ids) s
shelved_twice i ids s = ground arith

map-shelved_twice :
    (i : String) (ids : List String) (ss : List Server)
    → map (shelved_among ids) (map (shelved_among (i ∷ [])) ss) ≡ map (shelved_among (i ∷ ids)) ss
map-shelved_twice i ids [] = refl
map-shelved_twice i ids (s ∷ ss) = rw (shelved_twice i ids s, map-shelved_twice i ids ss) refl

map-shelved_none : (ss : List Server) → map (shelved_among []) ss ≡ ss
map-shelved_none [] = refl
map-shelved_none (s ∷ ss) = rw (map-shelved_none ss) refl

abbrev Listed : List String → Server → Type 0
Listed ids s = is_active s ≡ true → contains ids s.id ≡ true

Listed-cons :
    (i : String) (ids : List String) (ss : List Server)
    → All (Listed ids) ss
    → All (Listed (i ∷ ids)) ss
Listed-cons i ids [] h = tt
Listed-cons i ids (s ∷ ss) (p, h) = (λ a. ground (arith, p a), Listed-cons i ids ss h)

keep_active :
    (s : Server) (ss : List Server)
    → is_active s ≡ true
    → keep is_active (s ∷ ss) ≡ s ∷ keep is_active ss
keep_active s ss on = rw on

keep_inactive :
    (s : Server) (ss : List Server)
    → is_active s ≡ false
    → keep is_active (s ∷ ss) ≡ keep is_active ss
keep_inactive s ss off = rw off

listed_self : (s : Server) (ss : List Server) → contains (server_ids (s ∷ ss)) s.id ≡ true
listed_self s ss = ground arith

keep-Listed : (ss : List Server) → All (Listed (server_ids (keep is_active ss))) ss
keep-Listed [] = tt
keep-Listed (s ∷ ss) = elim (Bool-cases (is_active s)) [
  | inl on ↦
      subst (λ taken. All (Listed (server_ids taken)) (s ∷ ss)) (sym (keep_active s ss on))
        (
          λ a. listed_self s (keep is_active ss),
          Listed-cons s.id (server_ids (keep is_active ss)) ss (keep-Listed ss),
        )
  | inr off ↦
      subst (λ taken. All (Listed (server_ids taken)) (s ∷ ss)) (sym (keep_inactive s ss off))
        (λ a. cc, keep-Listed ss)
]

shelved_inactive : (s : Server) → is_active (record s { status = "SHELVED" }) ≡ false
unfolding is_active string_eq
shelved_inactive s = refl

shelved_among-inactive :
    (ids : List String) (s : Server) → Listed ids s → is_active (shelved_among ids s) ≡ false
shelved_among-inactive ids s p = elim (Bool-cases (contains ids s.id)) [
  | inl there ↦ ground (arith, there, shelved_inactive s)
  | inr away ↦ elim (Bool-cases (is_active s)) [
    | inl on ↦ let n : true ≡ false = sym (p on) ∙ away in cc
    | inr off ↦ ground (arith, away, off)
  ]
]

-- The server is in another state.
abbrev pub NotActive : Server → Type 0
NotActive s = s.status ≢ "ACTIVE"

inactive-NotActive : (s : Server) → is_active s ≡ false → NotActive s
unfolding is_active
inactive-NotActive s off e = ground (arith, off, e)

All-NotActive :
    (ids : List String) (ss : List Server)
    → All (Listed ids) ss
    → All NotActive (map (shelved_among ids) ss)
All-NotActive ids [] h = tt
All-NotActive ids (s ∷ ss) (p, h) = (
  inactive-NotActive (shelved_among ids s) (shelved_among-inactive ids s p),
  All-NotActive ids ss h,
)

module _ {C : Type 0} (X : Compute C) (T : Tenacity) (project_id : String) (view : C → List Server)
    (R : IsResponsive X project_id view) where
  shelve-ok :
      (id : String) (c : C) → retried T (X.shelve_server id) c ≡ (ok tt, (X.shelve_server id c).1)
  unfolding retried
  shelve-ok id c =
      Attempts-ok tt (X.shelve_server id c).1
        (T.retry-Attempts C (Unit {0}) is_retryable 4 (X.shelve_server id) c)
        (ap (λ r. (r, (X.shelve_server id c).1)) (R.shelve_server-ok id c))

  list_servers-ok : (c : C) → list_servers X T project_id c ≡ (ok (view c), c)
  unfolding list_servers retried
  list_servers-ok c =
      Attempts-ok (view c) c
        (T.retry-Attempts C (List Server) is_retryable 4 (X.servers project_id) c) (R.servers-ok c)

module _ {C S : Type 0} (X : Compute C) (T : Tenacity) (project_id : String)
    (view : C → List Server) (R : IsResponsive X project_id view) where
  move_server-view :
      (s : Server) (w : World C S)
      → view (move_server (shelving X T) s w).1.cloud
        ≡ map (shelved_among (s.id ∷ [])) (view w.cloud)
  unfolding move_server shelving
  move_server-view s w =
      rw (shelve-ok X T project_id view R s.id w.cloud) (R.view-shelve_server s.id w.cloud)

  move_all-view :
      (servers : List Server) (w : World C S)
      → view (move_all (shelving X T) servers w).1.cloud
        ≡ map (shelved_among (server_ids (keep is_active servers))) (view w.cloud)
  unfolding move_all shelving
  move_all-view [] w = sym (map-shelved_none (view w.cloud))
  move_all-view (s ∷ ss) w =
      let ids = server_ids (keep is_active ss) in
      elim (Bool-cases (is_active s)) [
        | inl on ↦
            let (a, v, e) = move_server-returns (shelving X T) s w in
            let (actions, u, e', n) = move_all-returns (shelving X T) ss v in
            let whole : move_all (shelving X T) (s ∷ ss) w ≡ (ok (a ∷ actions), u) =
              rw (on, e, e') refl in
            let first : view v.cloud ≡ map (shelved_among (s.id ∷ [])) (view w.cloud) =
              rw e at (move_server-view s w) in
            let later : view u.cloud ≡ map (shelved_among ids) (view v.cloud) =
              rw e' at (move_all-view ss v) in
            ap (λ r. view r.1.cloud) whole
            ∙ later
            ∙ ap (map (shelved_among ids)) first
            ∙ map-shelved_twice s.id ids (view w.cloud)
            ∙ ap (λ taken. map (shelved_among (server_ids taken)) (view w.cloud))
                (sym (keep_active s ss on))
        | inr off ↦
            let whole : move_all (shelving X T) (s ∷ ss) w ≡ move_all (shelving X T) ss w =
              rw off refl in
            ap (λ r. view r.1.cloud) whole
            ∙ move_all-view ss w
            ∙ ap (λ taken. map (shelved_among (server_ids taken)) (view w.cloud))
                (sym (keep_inactive s ss off))
      ]

  or_none-view :
      (actions : List Action) (w : World C S) → (or_none (shelving X T) actions w).1.cloud ≡ w.cloud
  unfolding or_none none_taken one record_action
  or_none-view [] w = refl
  or_none-view (a ∷ actions) w = refl

  move_listed-view :
      (servers : List Server) (w : World C S)
      → w.ctx.dry_run ≡ false
      → view (move_listed (shelving X T) servers w).1.cloud
        ≡ map (shelved_among (server_ids (keep is_active servers))) (view w.cloud)
  unfolding move_listed one record_action
  move_listed-view [] w live = sym (map-shelved_none (view w.cloud))
  move_listed-view (s ∷ ss) w live =
      let (actions, v, e, n) = move_all-returns (shelving X T) (s ∷ ss) w in
      let seen : view v.cloud
          ≡ map (shelved_among (server_ids (keep is_active (s ∷ ss)))) (view w.cloud) =
        rw e at (move_all-view (s ∷ ss) w) in
      ap (λ r. view r.1.cloud) (move_listed-live (shelving X T) s ss w live)
      ∙ rw e (ap view (or_none-view actions v) ∙ seen)

  -- In a cloud that lists its servers and shelves those it is asked to, a live run that locks the
  -- project leaves no server active.
  pub shelve_all_servers_none_active :
      (w : World C S)
      → w.ctx.online ≡ true
      → w.ctx.dry_run ≡ false
      → All NotActive (view (shelve_all_servers X T project_id w).1.cloud)
  unfolding shelve_all_servers move_servers
  shelve_all_servers_none_active w online live =
      let ids = server_ids (keep is_active (view w.cloud)) in
      let whole : shelve_all_servers X T project_id w
          ≡ move_listed (shelving X T) (view w.cloud) w =
        take_else (not w.ctx.online) _ _ (ap not online)
        ∙ rw (list_servers-ok X T project_id view R w.cloud) refl in
      let seen = ap (λ r. view r.1.cloud) whole ∙ move_listed-view (view w.cloud) w live in
      subst (All NotActive) (sym seen)
        (All-NotActive ids (view w.cloud) (keep-Listed (view w.cloud)))
