-- ===== src/HelloWorld.antt =====
-- HelloWorld/HelloWorld.cpp: the pass that is built.
pub mod Filter
pub mod Memory
pub mod Locks
pub mod Atomic
pub mod Handle
pub mod Run
pub mod Readable
pub mod Begins
