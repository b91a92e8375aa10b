-- ===== src/FunctionPass/Run/Counts.antt =====
-- How many calls a run of HelloWorld/function.cpp adds to a module.
use atomicity_violation.Base.{
  ℕ, ◌+◌, ◌≡◌, refl, sym, ◌∙◌, subst, true, false, some, List, [], ◌∷◌, arith, Bytes, codes,
  get_elem?,
}
use atomicity_violation.Base.Result.{Result, ok, fault, bind}
use atomicity_violation.Llvm.{Llvm, IsLawful}
use atomicity_violation.Pass.{Hooks}
use atomicity_violation.Pass.Calls.{calls}
use atomicity_violation.Pass.Walk.{walk}
use atomicity_violation.Pass.Init.{Function, Module, State}
use atomicity_violation.Pass.Init.Laws.{block_calls, function_calls}
use atomicity_violation.HelloWorld.Run.{Outcome, instrumented, ensure_initialized}
use atomicity_violation.HelloWorld.Run.Laws.{function_calls-set}
use atomicity_violation.FunctionPass.Handle.{visit}
use atomicity_violation.FunctionPass.Handle.Probes.{log_count, walk-log_count}
use atomicity_violation.FunctionPass.Run.{
  is_foreign, visit_blocks, messages, log_function, run_function,
}

-- The probes that are due in a function.
abbrev pub block_logs : (L : Llvm) → List (List L.Inst) → ℕ
block_logs L [] = 0
block_logs L (b ∷ bs) = log_count L b + block_logs L bs

module _ (L : Llvm) where
  abbrev BlocksLogged : List (List L.Inst) → Result (List (List L.Inst) × L.World) → Type 0
  BlocksLogged bs (ok (bs', w)) = block_calls L bs' ≡ block_calls L bs + block_logs L bs
  BlocksLogged bs (fault e) = Unit

  abbrev FunctionLogged : Module L → Function L → Result (Outcome L) → Type 0
  FunctionLogged m f (ok o) =
      function_calls L o.mod_after.functions ≡ function_calls L m.functions + block_logs L f.blocks
  FunctionLogged m f (fault e) = Unit

module _ {L : Llvm} (law : IsLawful L) (h : Hooks L)
    (named : L.callee_name h.p_probe ≡ some (codes "_probe_")) where
  visit_blocks-BlocksLogged :
      (fname : Bytes) (bs : List (List L.Inst)) (w : L.World)
      → BlocksLogged L bs (visit_blocks h fname bs w)
  unfolding visit_blocks
  visit_blocks-BlocksLogged fname [] w = refl
  visit_blocks-BlocksLogged fname (b ∷ bs) w =
      go (walk (visit h fname) b w) refl (λ w'. visit_blocks-BlocksLogged fname bs w')
    where
      join :
          (b' : List L.Inst) (r : Result (List (List L.Inst) × L.World))
          → calls L b' ≡ calls L b + log_count L b
          → BlocksLogged L bs r
          → BlocksLogged L (b ∷ bs) (bind r (λ (bs', w''). ok (b' ∷ bs', w'')))
      join b' (ok (bs', w'')) p q = omega arith
      join b' (fault e) p q = tt

      go :
          (r : Result (List L.Inst × L.World))
          → walk (visit h fname) b w ≡ r
          → ((w' : L.World) → BlocksLogged L bs (visit_blocks h fname bs w'))
          → BlocksLogged L (b ∷ bs) (visit_blocks h fname (b ∷ bs) w)
      go (fault e) q ih = rw (q, visit_blocks) tt
      go (ok (b', w')) q ih =
          rw (q, visit_blocks)
            (join b' (visit_blocks h fname bs w') (walk-log_count law h fname named b w b' w' q)
              (ih w'))

  -- If LLVM behaves as documented, and the pass is initialized with a `p_probe` that calls
  -- `_probe_`, then a run of function.cpp that ends, on a function at an index of the module that
  -- the filter lets pass, adds to the module one call for each probe due in the function.
  pub run_function-calls :
      (st : State L) (m : Module L) (k : ℕ) (f : Function L) (o : Outcome L)
      → get_elem? m.functions k ≡ some f
      → st.initial ≡ true
      → st.hooks ≡ some h
      → is_foreign m.name f.name ≡ false
      → run_function st m k ≡ ok o
      → function_calls L o.mod_after.functions
        ≡ function_calls L m.functions + block_logs L f.blocks
  unfolding run_function log_function ensure_initialized
  run_function-calls st m k f o present initialized hooked targeted e =
      subst (FunctionLogged L m f) (sym reduced ∙ e) (
        go (visit_blocks h f.name f.blocks m.world)
          (visit_blocks-BlocksLogged f.name f.blocks m.world))
    where
      reduced :
          run_function st m k
          ≡ bind
              (visit_blocks h f.name f.blocks m.world)
              (λ done. ok (instrumented st (messages st f.name) m k f done))
      reduced = ground arith

      go :
          (r : Result (List (List L.Inst) × L.World))
          → BlocksLogged L f.blocks r
          → FunctionLogged L m f
              (bind r (λ done. ok (instrumented st (messages st f.name) m k f done)))
      go (ok (blocks, w)) p =
          omega
            (arith, p, function_calls-set L m.functions k f (record f { blocks = blocks }) present)
      go (fault e') p = tt
