-- ===== src/Examples.antt =====
-- The theorems at concrete inputs: the repository's example policy, over plain implementations of
-- the crates.
pub mod Samples
mod Decisions
mod Engines
mod Rulings
mod Policies
mod Volumes
mod Readings
mod Databases
mod Tasks
mod Texts
mod Startups
mod Schedules
