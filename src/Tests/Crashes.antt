-- ===== src/Tests/Crashes.antt =====
-- Thread 1 opens the log and leaves by `exit`, which closes it; then a probe of thread 2 crashes.
use atomicity_violation.Base.{◌≡◌, refl, true, false, [], ◌∷◌, ◌++◌, some}
use atomicity_violation.Trace.Threads.{
  closed, init, probe, Call, final, idle, waiting, inside, leaving, crashed, Shared, request,
  exit_handler, acquire, close_log, release, crash_probe,
}
use atomicity_violation.Trace.Threads.History.{Served}
use atomicity_violation.Trace.Threads.History.Exit.{in_order, Runs-in_order}
use atomicity_violation.Trace.Threads.History.Crash.{Cause, Runs-Cause}
use atomicity_violation.Tests.Schedules.{stored}
use atomicity_violation.Tests.Texts.{strokes}
use atomicity_violation.Tests.Sessions.{Alone, step, pass, empty_log, opened_log}

abbrev closed_log : Shared
closed_log = record empty_log { stream = closed; handlers = 0 }

abbrev ended : Served
ended = (1, init) ∷ (1, final) ∷ []

exited : Alone 1 idle ended closed_log
exited =
    step idle
      (step leaving
        (step (inside final) (step (waiting final) opened_log (exit_handler refl)) (acquire refl))
        (close_log refl))
      release

abbrev late_served : Served
late_served = (1, init) ∷ (1, final) ∷ (2, probe stored) ∷ []

late_probe : Alone 2 crashed late_served (record closed_log { owner = some 2 })
late_probe =
    step crashed
      (step (inside (probe stored))
        (step (waiting (probe stored)) (pass 2 exited) (request (probe stored) tt)) (acquire refl))
      (crash_probe (λ e. cc e))

Runs-Cause_example :
    (cs : Served) × (c : Call) × (late_served ≡ cs ++ ((2, c) ∷ [])) × Cause cs c closed
Runs-Cause_example = Runs-Cause strokes late_probe.runs 2 late_probe.here

Runs-in_order_example : in_order false ended ≡ true
Runs-in_order_example = Runs-in_order strokes exited.runs
