-- ===== src/Config.antt =====
-- The configuration of the projects: src/config_resolver.py and the state that src/config_loader.py
-- adds to it. A configuration is the dict that yaml reads.
pub mod Presets
pub mod Again
pub mod State
pub mod Migrated
