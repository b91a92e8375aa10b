-- ===== src/FunctionPass/Run.antt =====
-- `run` of HelloWorld/function.cpp: lines 40 to 166.
pub mod Laws
pub mod Counts
use atomicity_violation.Base.{
  ℕ, Bool, true, false, not, ◌||◌, none, some, List, [], ◌∷◌, ◌++◌, Bytes, codes, set,
  if◌then◌else◌,
}
use atomicity_violation.Base.Result.{Result, ok, fault, bind, uninitialized}
use atomicity_violation.Text.{find, substr, contains, mentions}
use atomicity_violation.Llvm.{Llvm}
use atomicity_violation.Pass.{Hooks}
use atomicity_violation.Pass.Init.{Function, Module, State, initialization}
use atomicity_violation.Pass.Walk.{walk}
use atomicity_violation.HelloWorld.Run.{
  Preserved, all, Outcome, function_at, ensure_initialized, instrumented,
}
use atomicity_violation.FunctionPass.Handle.{visit}

-- The module's name up to its first `.ll`.
unfoldable pub module_base : Bytes → Bytes
unfolding find substr
module_base name = substr name (find name (codes ".ll"))

-- The test that makes `run` return at once.
unfoldable pub is_foreign : Bytes → Bytes → Bool
unfolding contains mentions module_base
is_foreign module_name fname =
    not (contains fname (module_base module_name))
    || (mentions fname "core" || mentions fname "std")

module _ {L : Llvm} where
  unfoldable pub visit_blocks :
      Hooks L → Bytes → List (List L.Inst) → L.World → Result (List (List L.Inst) × L.World)
  unfolding walk visit
  visit_blocks h fname [] w = ok ([], w)
  visit_blocks h fname (b ∷ bs) w =
      bind (walk (visit h fname) b w)
        (λ (b', w'). bind (visit_blocks h fname bs w') (λ (bs', w''). ok (b' ∷ bs', w'')))

  -- What is written to `errs()`; `initialization` adds the second line.
  abbrev pub messages : State L → Bytes → List Bytes
  messages st fname =
      (codes "function: " ++ (fname ++ codes "\n"))
      ∷ elim st.initial [ true ↦ [] | false ↦ codes "init!\n" ∷ [] ]

  -- Behind the test.
  unfoldable pub log_function : State L → Module L → ℕ → Function L → Result (Outcome L)
  unfolding ensure_initialized visit_blocks
  log_function st m k f = bind (ensure_initialized st m) λ (st', m'). bind (function_at m' k) λ f'.
      elim st'.hooks [
        | none ↦ fault uninitialized
        | some h ↦
            bind (visit_blocks h f'.name f'.blocks m'.world)
              (λ done. ok (instrumented st' (messages st f.name) m' k f' done))
      ]

  unfoldable pub run_function : State L → Module L → ℕ → Result (Outcome L)
  unfolding is_foreign log_function
  run_function st m k = bind (function_at m k) λ f.
      if is_foreign m.name f.name
      then ok (record { preserved = all; output = []; state = st; mod_after = m })
      else log_function st m k f
