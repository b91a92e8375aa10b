-- ===== src/Tests/Instrumented.antt =====
-- The probes in the functions that runs leave, and those of atomic operations.
use atomicity_violation.Base.{All, ◌≡◌, refl, Bytes, [], ◌∷◌, codes}
use atomicity_violation.Text.{mentions}
use atomicity_violation.Llvm.Reading.{given}
use atomicity_violation.HelloWorld.Filter.{file_path}
use atomicity_violation.HelloWorld.Atomic.{on_atomic}
use atomicity_violation.Events.Seen.{access, seen_at}
use atomicity_violation.Events.Probes.{probe_event}
use atomicity_violation.Events.Atomic.{GoesOn, due_behind, on_atomic-GoesOn}
use atomicity_violation.Events.Runs.{
  AreUnprobed, IsProbed, due_in_path, due_in_function, run_instrument-IsProbed,
  run_function-IsProbed,
}
use atomicity_violation.Tests.Probes.{hooks-IsReady}
use atomicity_violation.Base.Result.{ok}
use atomicity_violation.HelloWorld.Run.{Outcome, run_instrument}
use atomicity_violation.HelloWorld.Readable.{IsReadable, run_instrument-ends}
use atomicity_violation.Tests.Modules.{addressing}
use atomicity_violation.Tests.Runs.{
  after, after_done, local_function, local_module, logged, logged_done, is_local, local_present,
}
use atomicity_violation.Tests.Sample.{
  small, small-IsLawful, readings, readings-IsFaithful, hooks, main_function, small_module, later,
  flag, nothing, value, atomic_call,
}

unprobed : AreUnprobed readings main_function.blocks
unfolding seen_at
unprobed = ((refl, (refl, (refl, tt))), tt)

run_instrument-IsProbed_example :
    IsProbed readings
      (due_in_path readings (file_path main_function.metadata))
      0
      main_function
      after
run_instrument-IsProbed_example =
    run_instrument-IsProbed {L = small} readings small-IsLawful readings-IsFaithful hooks
      hooks-IsReady later small_module 0 main_function after refl unprobed refl refl after_done

local_unprobed : AreUnprobed readings local_function.blocks
local_unprobed = unprobed

run_function-IsProbed_example :
    IsProbed readings (due_in_function readings local_function.name) 0 local_function logged
run_function-IsProbed_example =
    run_function-IsProbed {L = small} readings small-IsLawful readings-IsFaithful hooks
      hooks-IsReady later local_module 0 local_function logged local_present local_unprobed refl
      refl is_local logged_done

abbrev load_name : Bytes
load_name = codes "_ZN4core4sync6atomic10AtomicBool4load"

load_due :
    due_behind readings (codes "main.rs") load_name 10 (readings.origin flag)
    ≡ probe_event
        (codes "main.rs")
        access
        10
        (codes "call - atomic load")
        (given (value nothing 100))
      ∷ []
unfolding mentions
load_due = refl

on_atomic-GoesOn_example :
    GoesOn readings
      (codes "main.rs")
      load_name
      10
      (readings.origin flag)
      (readings.origin flag)
      (on_atomic {L = small} hooks (codes "main.rs") load_name atomic_call 10 0)
on_atomic-GoesOn_example =
    on_atomic-GoesOn {L = small} readings small-IsLawful readings-IsFaithful hooks hooks-IsReady
      (codes "main.rs") load_name atomic_call 10 0 flag flag refl refl refl refl

main_function-IsReadable : All (All (IsReadable small)) main_function.blocks
unfolding mentions
main_function-IsReadable = ((refl, (refl, (refl, tt))), tt)

run_instrument-ends_example : (o : Outcome small) × (run_instrument later small_module 0 ≡ ok o)
run_instrument-ends_example =
    run_instrument-ends {L = small} small-IsLawful addressing hooks refl refl later small_module 0
      main_function refl refl refl main_function-IsReadable
