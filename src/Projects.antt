-- ===== src/Projects.antt =====
-- The project itself: src/resources/project.py. The calls of the identity service are a parameter.
-- A text that is printed with `!r` stands as it is.
pub mod Converging
use openstack_tenantctl.Base.{
  Bool, true, false, not, ◌||◌, Option, none, some, List, [], ◌∷◌, ◌++◌, String, ◌<>◌, ◌==◌,
  string_eq, if◌then◌else◌, ok, Act, raise, pure, ◌>>=◌, ◌>>◌, value_error,
}
use openstack_tenantctl.Cloud.{Tenacity}
use openstack_tenantctl.Models.{ProjectConfig}
use openstack_tenantctl.Context.{
  Action, ActionStatus, Details, lit, created, updated, skipped, World, on_cloud, record_action,
}
use openstack_tenantctl.Context.Retry.{retried}

pub record Project : Type 0 where
  pub id : String
  pub description : String
  pub is_enabled : Bool

-- The arguments of `create_project`.
pub record NewProject : Type 0 where
  pub name : String
  pub domain_id : String
  pub description : String
  pub is_enabled : Bool

-- The calls of `identity_v3(conn)`. A domain is given by its id.
pub record Identity (C : Type 0) : Type 0 where
  pub find_domain : String → Act C (Option String)
  pub find_project : String → String → Act C (Option Project)
  pub create_project : NewProject → Act C Project
  pub update_project : String → String → Bool → Act C Project

-- What `ensure_project` returns.
pub record Ensured : Type 0 where
  pub action : Action
  pub project_id : String
  pub was_disabled : Option Bool

unfoldable pub bool_text : Bool → String
bool_text true = "True"
bool_text false = "False"

unfoldable pub same_bool : Bool → Bool → Bool
same_bool true b = b
same_bool false b = not b

-- project.description != description or project.is_enabled != enabled
unfoldable pub needs_update : ProjectConfig → Project → Bool
unfolding same_bool
needs_update cfg p =
    not (p.description == cfg.description) || not (same_bool p.is_enabled cfg.enabled)

-- ", ".join(changes) of the dry run
changes : ProjectConfig → Project → Details
unfolding same_bool bool_text
changes cfg p =
    let described =
      lit "description: " ∷ lit p.description ∷ lit " → " ∷ lit cfg.description ∷ [] in
    let enabled =
      lit "enabled: "
      ∷ lit (bool_text p.is_enabled)
      ∷ lit " → "
      ∷ lit (bool_text cfg.enabled)
      ∷ [] in
    if p.description == cfg.description
    then (if same_bool p.is_enabled cfg.enabled then [] else enabled)
    else (if same_bool p.is_enabled cfg.enabled then described else described ++ lit ", " ∷ enabled)

-- None if project is None else not project.is_enabled
unfoldable pub disabled_before : Option Project → Option Bool
disabled_before none = none
disabled_before (some p) = some (not p.is_enabled)

module _ {C : Type 0} (I : Identity C) (T : Tenacity) where
  domain_or_raise : String → Option String → Act C String
  domain_or_raise domain_ref none = raise (value_error ("Could not find domain: " <> domain_ref))
  domain_or_raise domain_ref (some id) = pure id

  unfoldable pub resolve_domain : String → Act C String
  unfolding retried domain_or_raise
  resolve_domain domain_ref =
      retried T (do domain ← I.find_domain domain_ref; domain_or_raise domain_ref domain)

  unfoldable pub find_project : String → String → Act C (Option Project)
  unfolding retried
  find_project name domain_id = retried T (I.find_project name domain_id)

  -- The project of the configuration's domain and name.
  unfoldable pub look_up : ProjectConfig → Act C (String × Option Project)
  unfolding resolve_domain find_project
  look_up cfg = do
    domain_id ← resolve_domain cfg.domain_id
    project ← find_project cfg.name domain_id
    pure (domain_id, project)

module _ {C S : Type 0} where
  -- ctx.record(…, project_id=project_id)
  unfoldable pub record_for : String → ActionStatus → String → Details → Act (World C S) Action
  record_for project_id status name details w =
      let action : Action = record {
        status = status;
        resource_type = "project";
        name = name;
        details = details;
        project_id = project_id;
        project_name = w.ctx.current_project_name;
      } in
      (ok action, record w { ctx = record (w.ctx) { actions = w.ctx.actions ++ action ∷ [] } })

  -- The online dry run.
  unfoldable pub preview_project : ProjectConfig → Option Project → Act (World C S) Ensured
  unfolding record_action record_for changes bool_text disabled_before
  preview_project cfg none = do
    action ← record_action created "project" cfg.name (
        lit "would create (description="
        ∷ lit cfg.description
        ∷ lit ", enabled="
        ∷ lit (bool_text cfg.enabled)
        ∷ lit ")"
        ∷ [])
    pure (record { action = action; project_id = ""; was_disabled = none })
  preview_project cfg (some p) = do
    action ← elim (changes cfg p) [
      | [] ↦ record_for p.id skipped cfg.name (lit "up to date (id=" ∷ lit p.id ∷ lit ")" ∷ [])
      | d ∷ ds ↦ record_for p.id updated cfg.name (lit "would update (" ∷ d ∷ ds ++ lit ")" ∷ [])
    ]
    pure (record { action = action; project_id = p.id; was_disabled = disabled_before (some p) })

module _ {C S : Type 0} (I : Identity C) where
  -- Normal mode: create or update.
  unfoldable pub write_project : ProjectConfig → String → Option Project → Act (World C S) Ensured
  unfolding record_for needs_update disabled_before
  write_project cfg domain_id none = do
    p ← on_cloud (
        I.create_project (record {
          name = cfg.name;
          domain_id = domain_id;
          description = cfg.description;
          is_enabled = cfg.enabled;
        }))
    action ← record_for p.id created cfg.name (lit "id=" ∷ lit p.id ∷ [])
    pure (record { action = action; project_id = p.id; was_disabled = disabled_before none })
  write_project cfg domain_id (some p) =
      if needs_update cfg p
      then (do
        q ← on_cloud (I.update_project p.id cfg.description cfg.enabled)
        action ← record_for q.id updated cfg.name (lit "id=" ∷ lit q.id ∷ [])
        pure (record {
          action = action;
          project_id = q.id;
          was_disabled = disabled_before (some p);
        }))
      else (do
        action ← record_for p.id skipped cfg.name (lit "already up to date" ∷ [])
        pure (record {
          action = action;
          project_id = p.id;
          was_disabled = disabled_before (some p);
        }))

module _ {C S : Type 0} (I : Identity C) (T : Tenacity) where
  -- (project_id, domain_id)
  unfoldable pub find_existing_project :
      ProjectConfig → Act (World C S) (Option String × Option String)
  unfolding look_up
  find_existing_project cfg w =
      if not w.ctx.online
      then (ok (none, none), w)
      else (do
        found ← on_cloud (look_up I T cfg)
        elim found.1 [ none ↦ pure (none, some found.0) | some p ↦ pure (some p.id, some found.0) ])
          w

  unfoldable pub is_project_disabled : ProjectConfig → Act (World C S) Bool
  unfolding look_up
  is_project_disabled cfg w =
      if not w.ctx.online
      then (ok false, w)
      else (do
        found ← on_cloud (look_up I T cfg)
        elim found.1 [ none ↦ pure false | some p ↦ pure (not p.is_enabled) ])
          w

  unfoldable pub ensure_online : ProjectConfig → Act (World C S) Ensured
  unfolding look_up preview_project write_project
  ensure_online cfg = do
    found ← on_cloud (look_up I T cfg)
    (λ w.
        if w.ctx.dry_run
        then preview_project cfg found.1 w
        else write_project I cfg found.0 found.1 w)

  unfoldable pub ensure_project : ProjectConfig → Act (World C S) Ensured
  unfolding record_action ensure_online
  ensure_project cfg w =
      if not w.ctx.online
      then (do
        action ←
            record_action skipped "project" cfg.name
              (lit "would create/update project (offline)" ∷ [])
        pure (record { action = action; project_id = ""; was_disabled = none }))
          w
      else ensure_online cfg w
