-- ===== src/Pipeline.antt =====
-- The two ends of the log: what lib/inttrace.c writes and what atom.py reads.
pub mod Parts
pub mod Fields
pub mod Printed
pub mod Contended
pub mod Whole
