-- ===== src/Tests/Projects.antt =====
-- A project of a small identity service, whose state is the project of the configuration's name.
use openstack_tenantctl.Base.{Bool, true, false, [], Option, some, ◌≡◌, refl, String, ok}
use openstack_tenantctl.Models.{ProjectConfig, present}
use openstack_tenantctl.Store.Memory.{Memory}
use openstack_tenantctl.Context.{World}
use openstack_tenantctl.Projects.{
  Project, Identity, Ensured, disabled_before, find_existing_project, ensure_project,
}
use openstack_tenantctl.Projects.Converging.{
  KeepsProjects, IsAsConfigured, ensure_project_converges,
}
use openstack_tenantctl.Samples.{simple_retry, sample_project, live}

abbrev made : String → String → Bool → Project
made id description is_enabled = record {
  id = id;
  description = description;
  is_enabled = is_enabled;
}

abbrev identity : Identity (Option Project)
identity = record {
  find_domain = λ domain_ref c. (ok (some "d1"), c);
  find_project = λ name domain_id c. (ok c, c);
  create_project = λ args c. (
    ok (made "new" args.description args.is_enabled),
    some (made "new" args.description args.is_enabled),
  );
  update_project = λ id description is_enabled c.
      (ok (made id description is_enabled), some (made id description is_enabled));
}

identity-KeepsProjects : KeepsProjects identity "default" "d1" "a" (λ c. c)
identity-KeepsProjects = record {
  find_domain-ok = λ c. refl;
  find_project-ok = λ c. refl;
  create_project-ok = λ description is_enabled c. (_, _, refl, refl, refl, refl);
  update_project-ok = λ p description is_enabled c h. (_, _, refl, refl, refl, refl, refl);
}

abbrev disabled_world : World (Option Project) Memory
disabled_world = record { cloud = some (made "p1" "" false); store = []; ctx = live }

abbrev project : ProjectConfig
project = sample_project "a" present

ensure_project_converges_example :
    (r : Ensured) × (v : World (Option Project) Memory) × (p : Project) × (ensure_project identity
        simple_retry project disabled_world
      ≡ (ok r, v))
    × (v.cloud ≡ some p)
    × IsAsConfigured project p
    × (r.was_disabled ≡ some true)
    × (find_existing_project identity simple_retry project v
        ≡ (ok (some r.project_id, some "d1"), v))
unfolding disabled_before
ensure_project_converges_example =
    ensure_project_converges identity simple_retry "d1" project (λ c. c) identity-KeepsProjects
      disabled_world refl refl
