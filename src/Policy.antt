-- ===== src/Policy.antt =====
-- src/policy: loading the policy and reloading it while the engine runs.
pub mod Loader
pub mod Watcher
