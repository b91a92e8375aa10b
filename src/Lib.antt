-- ===== src/Lib.antt =====
-- AtomicityViolation: an LLVM pass that makes a program log its accesses to memory and its lock
-- operations, the runtime that writes the log, and a script that lists the addresses that several
-- threads have accessed.
--
-- The parts and how they interact. The pass (HelloWorld/HelloWorld.cpp) visits the instructions of
-- a function and inserts calls of `_probe_` and `_probe_lock_`, and one of `_init_` into `main`.
-- The instrumented program is linked with the runtime (lib/inttrace.c), whose functions write one
-- line of text for each probe, under a mutex. atom.py reads the text, groups the lines by address,
-- and prints the groups that hold two threads. HelloWorld/function.cpp is another version of the
-- pass, which the build leaves out.
--
-- Which file models which part:
--   Base, Base/*      Boolean tests, lists over the native numbers, faults and the monad `Run`
--   Text              `std::string::find`, `rfind`, `substr`
--   Llvm, Llvm/Builder  what the passes use of LLVM, and `IRBuilder<>` at one insertion point
--   Pass/Defs         the members of `struct HelloWorld`, and the code that the handlers of both
--                     passes repeat: the `args` array with the call of a probe (`probe`), an access
--                     to memory (`log_access`), a lock that is an argument (`log_argument`), and one
--                     that is reached through a guard (`log_guard`, `log_guard_field`)
--   Pass/Walk         the loop `for (auto& I : B)`
--   Pass/Init         `initialization` of both passes
--   Pass/Entry        where the call of `_init_` stands that `initialization` inserts
--   HelloWorld/Filter, Memory, Locks, Handle, Run
--                     `run` of HelloWorld/HelloWorld.cpp: which functions are skipped, the handlers
--                     of stores and loads, those of invokes and calls, the body of the loop, and the
--                     run as a whole
--   HelloWorld/Atomic  the code behind the `break` at an atomic operation
--   FunctionPass/Handle, Run
--                     the same of HelloWorld/function.cpp
--   FunctionPass/Module  its runs on the functions of a module, one after the other
--   Readable/*, HelloWorld/Readable, FunctionPass/Readable/*
--                     the functions on which a run finds all operands that it reads
--   Plugin            the registration of the pass with LLVM, in both files
--   Trace/Line        the format of a line in lib/inttrace.c
--   Trace/Threads     `_init_`, `_probe_`, `_probe_lock_` and `_final_` as steps of threads
--   Trace/Threads/History  the calls that the threads make of them, in the order of the lock
--   Report            atom.py: the file as text, the two loops, and what is written out
--   Pipeline/*        what the runtime writes and what atom.py makes of it, together
--   Pipeline/Whole    the pass, the runtime and atom.py, together
--   Events/*          which calls of probes stand in an instrumented block, and what they pass
--   Growth/*          how large an instrumented block gets
--   Tests/*           a small LLVM, and the inputs at which the theorems are applied
-- The files called Laws, Probes, Blocks, Counts, Kept, Fresh, Begins, Invariant, Progress, Exit,
-- Crash, Output and Failures, and Pass/Calls and Pass/Inert, hold the proofs and the specifications
-- that they compare the code with.
--
-- Code and model. LLVM is no part of the repository. `Llvm` lists the types and operations that the
-- passes use, as parameters; a change of the module is threaded through as a `World`, and what a
-- call of the builder inserts is a list of instructions. `IsLawful` states the documented behaviour
-- that the proofs need: the opcodes of created instructions, and that a cast or a field's address
-- is at most one instruction. `Reading` and `IsFaithful` (Llvm/Reading) say in the same way how a
-- created call, string or cast is read back; `IsAddressing` (Readable) says that a created load has
-- the type that is loaded, and that the address of a field that a struct has points to the field's
-- type; `IsPhiApart` (Pass/Entry) says that a PHI node has an opcode of its own.
-- `getOrInsertFunction` gives a cast, and no function, where the module has a function of the name
-- with another type; `IsFaithful` has the modules without such functions named `_init_`, `_probe_`
-- and `_probe_lock_` as its domain. `PassApi` and `IsPassApi` (Plugin) state the documented
-- behaviour of the pass builder. A null pointer that the code dereferences, a missing operand, a
-- type that is no pointer, a cast that is not valid (`bad_cast`) and a step to a field of what is
-- no struct (`no_field`) are values of `Fault`. The handler of an instruction gives the
-- instructions to insert before and behind it; `leave` is the `break` at an atomic operation. In
-- `run` of HelloWorld/HelloWorld.cpp the first statement returns, and a second `return` stands
-- behind the filter; `run`, `run_filter` and `run_instrument` are the three parts, and `on_atomic`
-- is what stands behind the `break`. In HelloWorld/function.cpp nothing is cut off
-- (`run_function`). A name, a path or a text is a list of bytes.
--
-- The threads of the runtime take turns in any order (`Step`, `Reach`); `fprintf` puts one byte at
-- a time. The text is what has been put on the stream, and buffers are not told apart from the
-- file. `_init_` puts `_final_` into the list of `atexit`, which may fail; `exit` takes it from
-- there, in any thread and as often as it is there. `Platform` gives how `%p` prints a pointer and
-- what `pthread_self()` is in a thread. The threads of the model are numbered, and two of them may
-- have the same `pthread_self()`, as happens where one is made after another has been joined; their
-- lines then look alike, and atom.py takes them for one. `int` is its 32 bits, and `getLine()` is
-- cut to them.
--
-- atom.py opens the log as text: a carriage return ends a line too (`newlines`), and how bytes are
-- decoded is a parameter, of which the proofs use that ASCII is decoded as it is. What is written
-- out before an index is out of range stays written (`Written`). Which bytes `print` writes for a
-- character is not modelled.
--
-- An execution of an instrumented program, in Pipeline/Whole, is a list of visits for each thread:
-- which block it runs through, how many of its probes it reaches, and what the addresses are there.
-- Which blocks a thread visits is left open, so the branches of the program are not modelled.
--
-- Fuel and bounds. The loop over a block gets three rounds for each instruction, since at most a
-- cast and a call are inserted behind an instruction and neither has insertions of its own; that
-- this is enough is part of `walk-handle` and `walk-visit`, whose specification has no fuel.
-- `digits` gets ten rounds, enough for a number of 32 bits.
--
-- Not modelled: the pass manager and the pass builder, which are part of LLVM (`run_each` takes the
-- order of its runs as an argument); the headers in include/, declarations of tutorial passes whose
-- code is not here; the sample programs, the recorded logs and the build scripts.
pub mod Base
pub mod Text
pub mod Llvm
pub mod Pass
pub mod HelloWorld
pub mod FunctionPass
pub mod Events
pub mod Readable
pub mod Growth
pub mod Plugin
pub mod Trace
pub mod Report
pub mod Pipeline
pub mod Tests
