-- ===== src/HelloWorld/Atomic.antt =====
-- The probes of atomic loads and stores: lines 403 to 456 of HelloWorld/HelloWorld.cpp, which stand
-- behind the `break` that a call of an atomic operation comes to.
use atomicity_violation.Base.{ℕ, [], Bytes, codes, if◌then◌else◌}
use atomicity_violation.Base.Result.{Result, ok, no_operand, need, ◌>>=◌}
use atomicity_violation.Text.{mentions}
use atomicity_violation.Llvm.{Llvm}
use atomicity_violation.Llvm.Builder
use atomicity_violation.Llvm.Builder.{Build}
use atomicity_violation.Pass.{Action, next, Hooks, before, after, probe}

module _ {L : Llvm} (h : Hooks L) (file : Bytes) where
  -- The name of the first argument, which must be there, is read and not used.
  unfoldable pub atomic_load : L.Inst → ℕ → Build L (Unit {0})
  unfolding probe
  atomic_load call line = do
    var ← need no_operand (L.arg_operand call 0)
    addr ← need no_operand (L.operand call 0)
    var_addr ← Builder.bitcast addr h.ptr_ty
    probe h file h.p_probe line (codes "call - atomic load") var_addr

  unfoldable pub atomic_store : L.Inst → ℕ → Build L (Unit {0})
  unfolding probe
  atomic_store call line = do
    var ← need no_operand (L.arg_operand call 0)
    var_addr ← Builder.bitcast var h.ptr_ty
    probe h file h.p_probe line (codes "call - atomic store") var_addr

  -- What stands behind the `break`.
  unfoldable pub on_atomic : Bytes → L.Inst → ℕ → L.World → Result (Action L)
  unfolding atomic_load atomic_store
  on_atomic name call line w =
      if mentions name "load"
      then after (atomic_load call line) w
      else if mentions name "store"
      then before (atomic_store call line) w
      else ok (next [] [] w)
