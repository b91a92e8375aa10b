-- ===== src/Tests/Modules.antt =====
-- Runs of HelloWorld/function.cpp on the functions of a module.
use atomicity_violation.Base.{
  ℕ, Option, none, some, get_elem?, ◌+◌, ◌≡◌, refl, [], ◌∷◌, codes, arith,
}
use atomicity_violation.Base.Result.{ok, fault}
use atomicity_violation.Text.{mentions}
use atomicity_violation.Pass.Init.{Module, State, fresh, has_main, initialization}
use atomicity_violation.Pass.Init.Laws.{function_calls}
use atomicity_violation.FunctionPass.Run.{is_foreign}
use atomicity_violation.FunctionPass.Handle.Probes.{log_count, is_logged}
use atomicity_violation.FunctionPass.Module.{Outside, run_each}
use atomicity_violation.FunctionPass.Module.Kept.{SameAt}
use atomicity_violation.FunctionPass.Module.Fresh.{added_calls, run_each-SameAt}
use atomicity_violation.Events.Seen.{seen_at}
use atomicity_violation.Events.Module.{AllUnprobed, AllAnnotated}
use atomicity_violation.Events.Module.Laws.{run_each-AllAnnotated}
use atomicity_violation.Readable.{IsAddressing}
use atomicity_violation.Readable.Builds.{IsOk}
use atomicity_violation.FunctionPass.Readable.Module.{AllReadable, run_each-ends}
use atomicity_violation.Tests.Sample.{
  Ty, Value, pointer, nothing, field_type, field_pointer, element_type, small, small-IsLawful,
  readings, readings-IsFaithful, main_function, small_module,
}

-- A module with a local function and a `main`, which is foreign.
abbrev pub three_functions : Module small
three_functions = record small_module {
  functions =
      record main_function { name = codes "app-1f2e_run" }
      ∷ main_function
      ∷ (record main_function { name = codes "app-1f2e_stop" } ∷ []);
}

unfoldable pub ended : State small × Module small
unfolding run_each
ended = elim (run_each (fresh small) three_functions (0 ∷ 1 ∷ 2 ∷ [])) [
  | ok r ↦ r
  | fault e ↦ (fresh small, small_module)
]

pub ended_done : run_each (fresh small) three_functions (0 ∷ 1 ∷ 2 ∷ []) ≡ ok (ended.0, ended.1)
unfolding ended mentions
ended_done = refl

added : added_calls three_functions (0 ∷ 1 ∷ 2 ∷ []) ≡ 7
unfolding is_foreign has_main log_count is_logged
added = refl

pub unprobed : AllUnprobed readings three_functions (0 ∷ 1 ∷ 2 ∷ [])
unfolding seen_at
unprobed = (
  ((refl, (refl, (refl, tt))), tt),
  (((refl, (refl, (refl, tt))), tt), (((refl, (refl, (refl, tt))), tt), tt)),
)

run_each-AllAnnotated_example : AllAnnotated readings three_functions ended.1 (0 ∷ 1 ∷ 2 ∷ [])
run_each-AllAnnotated_example =
    run_each-AllAnnotated {L = small} readings small-IsLawful readings-IsFaithful three_functions
      ended.1 ended.0 (0 ∷ 1 ∷ 2 ∷ [])
      ((omega arith, (omega arith, tt)), ((omega arith, tt), (tt, tt))) unprobed ended_done

field_pointer_type :
    (w : ℕ) (t : Ty) (v : Value) (n : ℕ) (f : Ty)
    → field_type t n ≡ some f
    → element_type (field_pointer t n) ≡ some f
field_pointer_type w t v n f e = go (field_type t n) e
  where
    go :
        (o : Option Ty)
        → o ≡ some f
        → element_type (elim o [ some g ↦ pointer g | none ↦ nothing ]) ≡ some f
    go none q = cc q
    go (some g) q = q

pub addressing : IsAddressing small
addressing = record { load_type = λ w t p. refl; field_pointer = field_pointer_type }

initializes : IsOk (initialization {L = small} three_functions)
unfolding initialization
initializes = tt

readable : AllReadable small three_functions (0 ∷ 1 ∷ 2 ∷ [])
unfolding mentions
readable = (
  ((refl, (refl, (refl, tt))), tt),
  (((refl, (refl, (refl, tt))), tt), (((refl, (refl, (refl, tt))), tt), tt)),
)

run_each-ends_example :
    (r : State small × Module small) × (run_each (fresh small) three_functions (0 ∷ 1 ∷ 2 ∷ [])
      ≡ ok r)
run_each-ends_example =
    run_each-ends {L = small} small-IsLawful addressing readings readings-IsFaithful three_functions
      initializes (0 ∷ 1 ∷ 2 ∷ []) ((omega arith, (omega arith, tt)), ((omega arith, tt), (tt, tt)))
      readable

-- No run on `main`, which gets the call of `_init_` all the same.
unfoldable local_ended : State small × Module small
unfolding run_each
local_ended = elim (run_each (fresh small) three_functions (0 ∷ 2 ∷ [])) [
  | ok r ↦ r
  | fault e ↦ (fresh small, small_module)
]

local_done : run_each (fresh small) three_functions (0 ∷ 2 ∷ []) ≡ ok (local_ended.0, local_ended.1)
unfolding local_ended mentions
local_done = refl

local_added : added_calls three_functions (0 ∷ 2 ∷ []) ≡ 7
unfolding is_foreign has_main log_count is_logged
local_added = refl

run_each-SameAt_example :
    ((j : ℕ)
      → Outside (0 ∷ 2 ∷ []) j
      → SameAt small (get_elem? three_functions.functions j) (get_elem? local_ended.1.functions j))
    × (function_calls small local_ended.1.functions
        ≡ function_calls small three_functions.functions + added_calls three_functions (0 ∷ 2 ∷ []))
run_each-SameAt_example =
    run_each-SameAt {L = small} readings small-IsLawful readings-IsFaithful three_functions
      local_ended.1 local_ended.0 (0 ∷ 2 ∷ []) ((omega arith, tt), (tt, tt)) local_done
