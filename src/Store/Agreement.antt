-- ===== src/Store/Agreement.antt =====
-- The two implementations of the protocol beside one another.
use openstack_tenantctl.Base.{List, ◌≡◌, String}
use openstack_tenantctl.Store.Interface.{Write, Writable, run_writes, run_writes-SameLoads}
use openstack_tenantctl.Store.Memory
use openstack_tenantctl.Store.Memory.{Memory, memory_store, memory_store-IsLawful}
use openstack_tenantctl.Store.Yaml
use openstack_tenantctl.Store.Yaml.{Pyyaml, Files, Sound, yaml_store, yaml_store-IsLawful}

-- From files that hold mappings and a memory that shows the same state of every project, the
-- YAML store and the in-memory store show the same state of every project after any calls of
-- `save` with values that can be serialized.
pub load-yaml-eq-memory :
    (Y : Pyyaml) (ws : List Write) (files : Files Y) (m : Memory)
    → Writable ws
    → Sound Y files
    → ((i : String) → Yaml.load Y i files ≡ Memory.load i m)
    → (i : String)
    → Yaml.load Y i (run_writes (yaml_store Y) ws files)
      ≡ Memory.load i (run_writes memory_store ws m)
unfolding yaml_store memory_store
load-yaml-eq-memory Y ws files m writable sound same i =
    run_writes-SameLoads (yaml_store Y) memory_store (yaml_store-IsLawful Y) memory_store-IsLawful
      ws files m writable sound tt same i
