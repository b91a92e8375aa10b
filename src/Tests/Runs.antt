-- ===== src/Tests/Runs.antt =====
-- Runs of the pass on a function, the initialization, and the filters.
use atomicity_violation.Base.{
  ◌≡◌, ◌↔◌, ◌⊎◌, refl, true, false, none, some, get_elem?, [], ◌∷◌, ◌++◌, codes, arith,
}
use atomicity_violation.Base.Result.{Result, ok, fault}
use atomicity_violation.Text.{mentions}
use atomicity_violation.Pass.{Hooks}
use atomicity_violation.Pass.Init.{Function, fresh, Module, initialization}
use atomicity_violation.HelloWorld.Filter.{is_skipped}
use atomicity_violation.HelloWorld.Filter.Laws.{IsTarget, is_skipped_iff}
use atomicity_violation.HelloWorld.Run.{Outcome, all, run_instrument}
use atomicity_violation.HelloWorld.Run.Laws.{IsLaterRun, run_instrument-IsLaterRun}
use atomicity_violation.FunctionPass.Run.{is_foreign, run_function}
use atomicity_violation.FunctionPass.Run.Laws.{
  IsLocal, IsUntouched, IsLogged, is_foreign_iff, run_function-Outcome,
}
use atomicity_violation.Tests.Sample.{
  small, small-IsLawful, hooks, main_function, small_module, later,
}

untouched : Outcome small
untouched = record { preserved = all; output = []; state = later; mod_after = small_module }

value_or : Outcome small → Result (Outcome small) → Outcome small
value_or a (ok b) = b
value_or a (fault e) = a

pub after : Outcome small
unfolding run_instrument value_or untouched
after = value_or untouched (run_instrument later small_module 0)

pub after_done : run_instrument later small_module 0 ≡ ok after
unfolding after mentions
after_done = refl

run_instrument-IsLaterRun_example : IsLaterRun small later small_module 0 main_function after
run_instrument-IsLaterRun_example =
    run_instrument-IsLaterRun {L = small} small-IsLawful hooks refl later small_module 0
      main_function refl after refl refl after_done

ready : Hooks small × Module small
unfolding initialization
ready = elim (initialization {L = small} small_module) [
  | ok r ↦ r
  | fault e ↦ (hooks, small_module)
]

ready_done : initialization small_module ≡ ok (ready.0, ready.1)
unfolding ready
ready_done = refl

first_function : Function small
unfolding ready
first_function = elim (get_elem? ready.1.functions 0) [ none ↦ main_function | some f ↦ f ]

first_function_at : get_elem? ready.1.functions 0 ≡ some first_function
unfolding first_function
first_function_at = refl

after_first : Outcome small
unfolding run_instrument value_or untouched
after_first = value_or untouched (run_instrument (fresh small) small_module 0)

first_done : run_instrument (fresh small) small_module 0 ≡ ok after_first
unfolding after_first mentions
first_done = refl

init_done : initialization small_module ≡ ok (hooks, ready.1)
unfolding ready
init_done = refl

is_skipped_iff_example :
    (is_skipped (codes "_ZN3app4main17h") (codes "app") (codes "/home/user/app") ≡ false)
    ↔ IsTarget (codes "_ZN3app4main17h") (codes "app") (codes "/home/user/app")
is_skipped_iff_example =
    is_skipped_iff (codes "_ZN3app4main17h") (codes "app") (codes "/home/user/app")

skipped : run_function later small_module 0 ≡ ok untouched
unfolding run_function untouched
skipped = refl

run_function-Outcome_example :
    ((is_foreign (codes "app-1f2e") (codes "main") ≡ true)
      × IsUntouched small later small_module untouched)
    ⊎ ((is_foreign (codes "app-1f2e") (codes "main") ≡ false) × IsLogged small untouched)
run_function-Outcome_example =
    run_function-Outcome {L = small} later small_module 0 main_function untouched refl skipped

is_foreign_iff_example :
    (is_foreign (codes "app" ++ codes ".ll") (codes "app_main") ≡ false)
    ↔ IsLocal (codes "app") (codes "app_main")
is_foreign_iff_example =
    is_foreign_iff (codes "app") (codes "app_main") (omega arith, (omega arith, (omega arith, tt)))

-- A function that the filter of function.cpp lets pass.
abbrev pub local_function : Function small
local_function = record main_function { name = codes "app-1f2e_run" }

abbrev pub local_module : Module small
local_module = record small_module { functions = local_function ∷ [] }

pub logged : Outcome small
unfolding run_function value_or untouched
logged = value_or untouched (run_function later local_module 0)

pub logged_done : run_function later local_module 0 ≡ ok logged
unfolding logged mentions
logged_done = refl

pub is_local : is_foreign local_module.name local_function.name ≡ false
unfolding is_foreign mentions
is_local = refl

pub local_present : get_elem? local_module.functions 0 ≡ some local_function
local_present = refl
