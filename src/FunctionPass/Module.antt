-- ===== src/FunctionPass/Module.antt =====
-- The runs of HelloWorld/function.cpp on the functions of a module, one after the other: the pass
-- manager, which is part of LLVM, calls `run` for each function that has a body.
pub mod Kept
pub mod Laws
pub mod Fresh
pub mod Begins
use atomicity_violation.Base.{
  ℕ, ◌+◌, ◌≢◌, Bool, true, false, not, ◌||◌, Option, none, some, List, [], ◌∷◌, get_elem?, All,
  Bytes, if◌then◌else◌,
}
use atomicity_violation.Base.Result.{Result, ok, bind}
use atomicity_violation.Llvm.{Llvm}
use atomicity_violation.Pass.Init.{Function, Module, State}
use atomicity_violation.FunctionPass.Run.{is_foreign, run_function}
use atomicity_violation.FunctionPass.Run.Counts.{block_logs}

-- The index is none of the others.
abbrev pub Outside : List ℕ → ℕ → Type 0
Outside ks k = All (λ j. j ≢ k) ks

-- No function is visited twice.
abbrev pub Distinct : List ℕ → Type 0
Distinct [] = Unit
Distinct (k ∷ ks) = Outside ks k × Distinct ks

module _ {L : Llvm} where
  -- The runs on the functions at the given indices.
  unfoldable pub run_each : State L → Module L → List ℕ → Result (State L × Module L)
  unfolding run_function
  run_each st m [] = ok (st, m)
  run_each st m (k ∷ ks) = bind (run_function st m k) (λ o. run_each o.state o.mod_after ks)

  -- The specification: the probes that are due in the functions that the filter lets pass.
  abbrev pub due_in : Bytes → Option (Function L) → ℕ
  due_in name none = 0
  due_in name (some f) = if is_foreign name f.name then 0 else block_logs L f.blocks

  abbrev pub due_calls : Module L → List ℕ → ℕ
  due_calls m [] = 0
  due_calls m (k ∷ ks) = due_in m.name (get_elem? m.functions k) + due_calls m ks

  -- Whether the filter lets any of them pass.
  abbrev pub is_local : Bytes → Option (Function L) → Bool
  is_local name none = false
  is_local name (some f) = not (is_foreign name f.name)

  abbrev pub any_local : Module L → List ℕ → Bool
  any_local m [] = false
  any_local m (k ∷ ks) = is_local m.name (get_elem? m.functions k) || any_local m ks
