-- ===== src/HelloWorld/Handle.antt =====
-- The body of the loop over a block, and the loops over the blocks of a function: lines 74 to 461
-- of HelloWorld/HelloWorld.cpp.
pub mod Laws
pub mod Probes
pub mod Blocks
use atomicity_violation.Base.{[], ◌∷◌, List, Bytes}
use atomicity_violation.Base.Result.{Result, ok, bind}
use atomicity_violation.Llvm.{Llvm, store, load, invoke, call, other}
use atomicity_violation.Pass.{Action, next, Hooks, before, after}
use atomicity_violation.Pass.Walk.{walk}
use atomicity_violation.HelloWorld.Memory.{on_store, on_load}
use atomicity_violation.HelloWorld.Locks.{on_invoke, on_call}

module _ {L : Llvm} (h : Hooks L) (file : Bytes) where
  unfoldable pub handle : L.Inst → L.World → Result (Action L)
  unfolding on_store on_load on_invoke on_call
  handle i w = elim (L.opcode i) [
    | store ↦ before (on_store h file i) w
    | load ↦ after (on_load h file i) w
    | invoke ↦ before (on_invoke h file i) w
    | call ↦ on_call h file i w
    | other ↦ ok (next [] [] w)
  ]
