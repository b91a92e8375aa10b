-- ===== src/FunctionPass/Readable.antt =====
-- When HelloWorld/function.cpp finds all operands that it reads.
pub mod Laws
pub mod Module
use atomicity_violation.Base.{none}
use atomicity_violation.Llvm.{Llvm}
use atomicity_violation.Readable.{IsReadableBy}
use atomicity_violation.Events.Due.{mangled_rules}

-- It does not read calls.
abbrev pub IsReadable : (L : Llvm) → L.Inst → Type 0
IsReadable L = IsReadableBy L mangled_rules none
