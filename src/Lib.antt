-- ===== src/Lib.antt =====
-- tenantctl provisions the projects of an OpenStack cloud from configuration files: for every
-- project it makes the cloud match the configuration, and keeps what it observed in a state store.
-- This library models the core of it, over the repository's src/*.py.
--
-- A run (Reconciler, src/reconciler.py) goes over the projects. `effective_state` (Models,
-- src/models/) gives the state to reach, and one of three handlers brings it about. Each handler
-- calls the resource handlers with the shared context, and its exceptions stay with its project.
-- The parts, and where they are modelled:
--   Base             Python's `if`, lists, dicts, integers, and statements that change a state and
--                    may raise (`Act`); what was changed before a raise stays changed
--   Scopes           ReconcileScope, _expand_scope_dependencies, validate_scopes (src/reconciler.py)
--   Store            YamlFileStateStore, InMemoryStateStore and the key paths of `save`
--                    (src/state_store.py); Store/Interface is the protocol and its laws
--   Cloud            the packages outside the repository, as parameters
--   Models           ProjectConfig and the entries of the state (src/models/), with the lifetime, the
--                    network, the security group, the federation and the reservations in child modules
--   Context          Action, SharedContext, the retry decorator (src/utils.py)
--   ExternalNetwork  resolve_external_subnet, resolve_project_external_network (src/utils.py)
--   Fips             pre-allocated floating IPs (src/resources/prealloc/fip.py)
--   Teardown         safety_check and teardown_project (src/resources/teardown.py)
--   Compute          shelve_all_servers, unshelve_all_servers (src/resources/compute.py)
--   Quotas           the quotas of Nova, Neutron, Octavia and Cinder (src/resources/quotas.py)
--   Projects         ensure_project and the look-ups (src/resources/project.py)
--   Reservations     time-limited access to flavors (src/resources/reservations.py), with the periods
--                    and entries of src/period_parser.py, src/models/reservations.py, state.py
--   Networks         ensure_network_stack and track_router_ips (src/resources/network.py): Stack is the
--                    creation of the stack, Tracking the snapshot of the router addresses
--   PreallocNetwork  ensure_preallocated_network (src/resources/prealloc/network.py), over Networks
--   SecurityGroups   ensure_baseline_sg (src/resources/security_group.py)
--   GroupRoles       ensure_group_role_assignments (src/resources/group_roles.py)
--   KeystoneGroups   ensure_keystone_groups (src/resources/keystone_groups.py)
--   Federation       the rules of the mapping and ensure_federation_mapping
--                    (src/resources/federation.py)
--   Reconciler       the handlers of the three states and the run (src/reconciler.py);
--                    Reconciler/Assembly is the run over the components above
--   Config           expand_security_group_rules (src/config_resolver.py) and _load_state_into_config
--                    (src/config_loader.py)
--   Samples, Tests   small instances of the parameters, and the theorems at concrete data
-- A definition has the name of its Python function without a leading underscore. `World` is all
-- that a run changes: the cloud, the store and the context.
--
-- Parameters. The calls of openstacksdk are records of functions that change the cloud and may
-- raise, one record for each service and use. tenacity is a function whose runs are attempts of its body, up to
-- its bound, again only after an exception that passes the test. pyyaml is a parser and a printer,
-- and what is printed parses to what was printed. fnmatch, the matching of
-- wildcards, is a function. The handlers of a
-- run call those of most parts through the record `Handlers`, whatever they are, so that what is said of
-- them holds with any; `reconcile_services` fills it with the modelled ones.
--
-- Choices. An instant is a number, since the program only compares instants, and is printed as one. A
-- text that is printed with `!r` stands without quotes. An attribute of a quota object is None, a number
-- or another text. `sorted` is an insertion sort by the order of texts. A set is a list of which
-- only membership is read. An f-string of an action's details is the list of its parts, and the text
-- of an exception is a fixed one, or names the project or what was not found. The loop of _expand_scope_dependencies has
-- as many rounds as the source allows, one for each of the nine scopes, and one round is enough,
-- since no prerequisite has prerequisites of its own.
--
-- Not modelled: log messages, waiting times between attempts, the lock files of the YAML store (each
-- method is one step, and its time-out does not occur), the parsing, merging and validation of
-- configurations but for the presets of rules and the state, the texts of periods and units, the client and the command line, which are glue
-- around pyyaml, argparse and openstacksdk, and the diff of the mapping that a dry run logs.
pub mod Base
pub mod Scopes
pub mod Store
pub mod Cloud
pub mod Models
pub mod Context
pub mod ExternalNetwork
pub mod Networks
pub mod SecurityGroups
pub mod Federation
pub mod KeystoneGroups
pub mod Fips
pub mod Teardown
pub mod Compute
pub mod Config
pub mod Quotas
pub mod Projects
pub mod Reservations
pub mod GroupRoles
pub mod PreallocNetwork
pub mod Reconciler
pub mod Samples
pub mod Tests
