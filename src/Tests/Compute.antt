-- ===== src/Tests/Compute.antt =====
-- Servers of a small cloud, whose state is the list of them.
use openstack_tenantctl.Base.{
  List, [], ◌∷◌, map, refl, String, ◌==◌, string_eq, All, if◌then◌else◌, ok, raised, conflict,
}
use openstack_tenantctl.Store.Memory.{Memory}
use openstack_tenantctl.Context.{World}
use openstack_tenantctl.Compute.{Server, Compute, shelve_all_servers}
use openstack_tenantctl.Compute.Shelving.{
  shelved_among, NotActive, IsResponsive, shelve_all_servers_none_active,
}
use openstack_tenantctl.Samples.{simple_retry, live}

abbrev responsive : Compute (List Server)
responsive = record {
  servers = λ project_id c. (ok c, c);
  shelve_server = λ id c. (ok tt, map (shelved_among (id ∷ [])) c);
  unshelve_server = λ id c. (ok tt, c);
}

-- A cloud that refuses to shelve the server "b".
abbrev refusing : Compute (List Server)
refusing = record responsive {
  shelve_server =
      λ id c. if id == "b" then (raised conflict, c) else (ok tt, map (shelved_among (id ∷ [])) c);
}

responsive-IsResponsive : IsResponsive responsive "p1" (λ c. c)
responsive-IsResponsive = record {
  servers-ok = λ c. refl;
  shelve_server-ok = λ id c. refl;
  view-shelve_server = λ id c. refl;
}

abbrev server : String → String → Server
server id status = record { id = id; name = id; status = status }

abbrev servers : List Server
servers = server "b" "ACTIVE" ∷ server "c" "SHUTOFF" ∷ server "d" "ACTIVE" ∷ []

abbrev running : World (List Server) Memory
running = record { cloud = servers; store = []; ctx = live }

shelve_all_servers_none_active_example :
    All NotActive (shelve_all_servers responsive simple_retry "p1" running).1.cloud
shelve_all_servers_none_active_example =
    shelve_all_servers_none_active responsive simple_retry "p1" (λ c. c) responsive-IsResponsive
      running refl refl
