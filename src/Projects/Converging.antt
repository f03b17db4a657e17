-- ===== src/Projects/Converging.antt =====
-- What `ensure_project` makes of a project in an identity service that keeps what it is told, and
-- what the look-ups find then.
use openstack_tenantctl.Base.{
  Bool, true, false, not, Option, none, some, ◌≡◌, refl, ap, ◌∙◌, arith, String, string_eq, ok,
  Result, Bool-cases, inl, inr,
}
use openstack_tenantctl.Cloud.{Tenacity}
use openstack_tenantctl.Models.{ProjectConfig}
use openstack_tenantctl.Context.{World}
use openstack_tenantctl.Context.Retry.{retried-ok}
use openstack_tenantctl.Projects.{
  Project, Identity, Ensured, needs_update, disabled_before, resolve_domain, find_project, look_up,
  record_for, write_project, find_existing_project, ensure_online, ensure_project,
}

-- A service that knows the domain `domain_ref` as `domain_id`, shows the projects of `view`, and
-- keeps what it is told of the project `name`. Of a project that is not there it makes one, and of
-- one that is there it changes the two settings.
pub record KeepsProjects {C : Type 0} (I : Identity C) (domain_ref domain_id name : String)
    (view : C → Option Project) : Type 0 where
  pub find_domain-ok : (c : C) → I.find_domain domain_ref c ≡ (ok (some domain_id), c)
  pub find_project-ok : (c : C) → I.find_project name domain_id c ≡ (ok (view c), c)
  pub create_project-ok :
      (description : String) (is_enabled : Bool) (c : C)
      → (p : Project) × (c' : C) × (I.create_project
            (record {
              name = name;
              domain_id = domain_id;
              description = description;
              is_enabled = is_enabled;
            })
            c
          ≡ (ok p, c'))
        × (view c' ≡ some p)
        × (p.description ≡ description)
        × (p.is_enabled ≡ is_enabled)
  pub update_project-ok :
      (p : Project) (description : String) (is_enabled : Bool) (c : C)
      → view c ≡ some p
      → (q : Project) × (c' : C) × (I.update_project p.id description is_enabled c ≡ (ok q, c'))
        × (view c' ≡ some q)
        × (q.id ≡ p.id)
        × (q.description ≡ description)
        × (q.is_enabled ≡ is_enabled)

module _ {C : Type 0} (I : Identity C) (T : Tenacity) (domain_id : String) (cfg : ProjectConfig)
    (view : C → Option Project) (K : KeepsProjects I cfg.domain_id domain_id cfg.name view) where
  resolve_domain-ok : (c : C) → resolve_domain I T cfg.domain_id c ≡ (ok domain_id, c)
  unfolding resolve_domain
  resolve_domain-ok c = retried-ok T _ c c domain_id (rw (K.find_domain-ok c) refl)

  find_project-found : (c : C) → find_project I T cfg.name domain_id c ≡ (ok (view c), c)
  unfolding find_project
  find_project-found c =
      retried-ok T (I.find_project cfg.name domain_id) c c (view c) (K.find_project-ok c)

  look_up-ok : (c : C) → look_up I T cfg c ≡ (ok (domain_id, view c), c)
  unfolding look_up
  look_up-ok c = rw (resolve_domain-ok c, find_project-found c) refl

-- The project is there, with the settings of the configuration.
abbrev pub IsAsConfigured : ProjectConfig → Project → Type 0
IsAsConfigured cfg p = (p.description ≡ cfg.description) × (p.is_enabled ≡ cfg.enabled)

as_configured :
    (cfg : ProjectConfig) (p : Project) → needs_update cfg p ≡ false → IsAsConfigured cfg p
unfolding needs_update
as_configured cfg p h = ground (arith, h)

no_update : (cfg : ProjectConfig) (p : Project) → IsAsConfigured cfg p → needs_update cfg p ≡ false
unfolding needs_update
no_update cfg p (d, n) = ground (arith, d, n)

module _ {C S : Type 0} (I : Identity C) (T : Tenacity) (domain_id : String) (cfg : ProjectConfig)
    (view : C → Option Project) (K : KeepsProjects I cfg.domain_id domain_id cfg.name view) where
  abbrev Converges : Option Project → World C S → Result Ensured × World C S → Type 0
  Converges before w run =
      (r : Ensured) × (v : World C S) × (p : Project) × (run ≡ (ok r, v))
      × (view v.cloud ≡ some p)
      × (p.id ≡ r.project_id)
      × IsAsConfigured cfg p
      × (r.was_disabled ≡ disabled_before before)
      × (v.ctx.online ≡ w.ctx.online)
      × (v.ctx.dry_run ≡ w.ctx.dry_run)

  write_project-Converges :
      (w : World C S) (o : Option Project)
      → view w.cloud ≡ o
      → Converges o w (write_project I cfg domain_id o w)
  unfolding write_project record_for
  write_project-Converges w none e =
      let (p, c', h, seen, d, n) = K.create_project-ok cfg.description cfg.enabled w.cloud in
      rw h (_, _, p, refl, seen, refl, (d, n), refl, refl, refl)
  write_project-Converges w (some p) e =
      let (q, c', h, seen, same, d, n) =
        K.update_project-ok p cfg.description cfg.enabled w.cloud e in
      elim (Bool-cases (needs_update cfg p)) [
        | inl changed ↦ rw (changed, h) (_, _, q, refl, seen, refl, (d, n), refl, refl, refl)
        | inr settled ↦
            rw settled (_, _, p, refl, e, refl, as_configured cfg p settled, refl, refl, refl)
      ]

  ensure_project_run :
      (w : World C S)
      → w.ctx.online ≡ true
      → w.ctx.dry_run ≡ false
      → ensure_project I T cfg w ≡ write_project I cfg domain_id (view w.cloud) w
  unfolding ensure_project ensure_online
  ensure_project_run w o d = ground (arith, o, d, look_up-ok I T domain_id cfg view K w.cloud)

  -- In an identity service that keeps what it is told, a live run of `ensure_project` returns, and the
  -- project is there with the configured settings and the id that is returned, which `find_existing_project`
  -- then finds. Whether it was disabled is told of the project from before the run.
  pub ensure_project_converges :
      (w : World C S)
      → w.ctx.online ≡ true
      → w.ctx.dry_run ≡ false
      → (r : Ensured) × (v : World C S) × (p : Project) × (ensure_project I T cfg w ≡ (ok r, v))
        × (view v.cloud ≡ some p)
        × IsAsConfigured cfg p
        × (r.was_disabled ≡ disabled_before (view w.cloud))
        × (find_existing_project I T cfg v ≡ (ok (some r.project_id, some domain_id), v))
  unfolding find_existing_project
  ensure_project_converges w o d =
      let (r, v, p, h, seen, same, settings, was, o', d') =
        write_project-Converges w (view w.cloud) refl in
      (
        r,
        v,
        p,
        ensure_project_run w o d ∙ h,
        seen,
        settings,
        was,
        ground (arith, o', o, look_up-ok I T domain_id cfg view K v.cloud, seen, same),
      )

  write_project-settled :
      (w : World C S) (p : Project)
      → IsAsConfigured cfg p
      → (r : Ensured) × (v : World C S) × (write_project I cfg domain_id (some p) w ≡ (ok r, v))
        × (v.cloud ≡ w.cloud)
        × (r.project_id ≡ p.id)
        × (r.was_disabled ≡ some (not cfg.enabled))
  unfolding write_project record_for
  write_project-settled w p (d, n) =
      rw (no_update cfg p (d, n)) (_, _, refl, refl, refl, ap (λ b. some (not b)) n)

  -- In an identity service that keeps what it is told, a live run of ensure_project and a second
  -- one directly after it both return; the second leaves the cloud as it is, returns the same
  -- id, and tells that the project was disabled before exactly if the configuration disables it.
  pub ensure_project_idempotent :
      (w : World C S)
      → w.ctx.online ≡ true
      → w.ctx.dry_run ≡ false
      → (first second : Ensured) × (v u : World C S) × (ensure_project I T cfg w ≡ (ok first, v))
        × (ensure_project I T cfg v ≡ (ok second, u))
        × (u.cloud ≡ v.cloud)
        × (second.project_id ≡ first.project_id)
        × (second.was_disabled ≡ some (not cfg.enabled))
  ensure_project_idempotent w o d =
      let (r, v, p, h, seen, same, settings, was, o', d') =
        write_project-Converges w (view w.cloud) refl in
      let (q, u, k, c, i, b) = write_project-settled v p settings in
      (
        r,
        q,
        v,
        u,
        ensure_project_run w o d ∙ h,
        ensure_project_run v (o' ∙ o) (d' ∙ d)
            ∙ ap (λ x. write_project I cfg domain_id x v) seen
            ∙ k,
        c,
        i ∙ same,
        b,
      )
