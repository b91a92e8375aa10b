-- ===== src/HelloWorld/Memory.antt =====
-- The probes of stores and loads: lines 76 to 135 of HelloWorld/HelloWorld.cpp.
use atomicity_violation.Base.{Bytes}
use atomicity_violation.Llvm.{Llvm}
use atomicity_violation.Llvm.Builder.{Build}
use atomicity_violation.Pass.{Hooks, log_access}

module _ {L : Llvm} (h : Hooks L) (file : Bytes) where
  -- The address that a store writes to is its second operand.
  unfoldable pub on_store : L.Inst → Build L (Unit {0})
  unfolding log_access
  on_store = log_access h file 1

  -- The address that a load reads from is its first operand.
  unfoldable pub on_load : L.Inst → Build L (Unit {0})
  unfolding log_access
  on_load = log_access h file 0
