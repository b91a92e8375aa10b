-- ===== src/Events.antt =====
-- What the inserted calls pass to the probes.
pub mod Seen
pub mod Emits
pub mod Probes
pub mod Due
pub mod Operations
pub mod Blocks
pub mod Types
pub mod Atomic
pub mod HelloWorld
pub mod FunctionPass
pub mod Runs
pub mod Kept
pub mod Module
