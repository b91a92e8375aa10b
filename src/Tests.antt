-- ===== src/Tests.antt =====
-- Tests, and concrete inputs at which the theorems of the library apply.
pub mod Sample
pub mod Texts
pub mod Visits
pub mod Probes
pub mod Runs
pub mod Modules
pub mod Entries
pub mod Instrumented
pub mod Schedules
pub mod Reports
pub mod Crashes
pub mod Sessions
pub mod Whole
pub mod Plugins
