-- ===== src/Trace.antt =====
-- lib/inttrace.c: the probes that an instrumented program calls, and the log that they write.
pub mod Line
pub mod Threads
