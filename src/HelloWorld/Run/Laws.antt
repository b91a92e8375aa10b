-- ===== src/HelloWorld/Run/Laws.antt =====
-- What a run adds to a module, and what it leaves alone.
use atomicity_violation.Base.{
  ℕ, zero, suc, ◌+◌, ◌≡◌, ◌≢◌, refl, sym, ap, subst, ◌∙◌, true, Option, none, some, List, [], ◌∷◌,
  arith, Bytes, codes, get_elem?, set,
}
use atomicity_violation.Base.Result.{Result, ok, fault, bind}
use atomicity_violation.Llvm.{Llvm, IsLawful}
use atomicity_violation.Pass.{Hooks}
use atomicity_violation.Pass.Calls.{calls}
use atomicity_violation.Pass.Walk.{walk}
use atomicity_violation.Pass.Init.{Function, Module, State}
use atomicity_violation.Pass.Init.Laws.{block_calls, function_calls}
use atomicity_violation.HelloWorld.Filter.{file_path}
use atomicity_violation.HelloWorld.Handle.{handle}
use atomicity_violation.HelloWorld.Handle.Probes.{probe_count}
use atomicity_violation.HelloWorld.Handle.Blocks.{walk-probe_count}
use atomicity_violation.HelloWorld.Run.{
  Outcome, init_message, instrumented, walk_blocks, run_instrument,
}

module _ (L : Llvm) where
  -- The probes that are due in a function.
  abbrev pub block_probes : List (List L.Inst) → ℕ
  block_probes [] = 0
  block_probes (b ∷ bs) = probe_count L b + block_probes bs

  pub function_calls-set :
      (fs : List (Function L)) (k : ℕ) (f f' : Function L)
      → get_elem? fs k ≡ some f
      → function_calls L (set fs k f') + block_calls L f.blocks
        ≡ function_calls L fs + block_calls L f'.blocks
  function_calls-set [] k f f' e = cc
  function_calls-set (g ∷ fs) zero f f' e =
      let same : block_calls L g.blocks ≡ block_calls L f.blocks =
        ap (λ (o : Option (Function L)). elim o [ none ↦ 0 | some x ↦ block_calls L x.blocks ]) e in
      omega arith
  function_calls-set (g ∷ fs) (suc k) f f' e = omega (arith, function_calls-set fs k f f' e)

  pub get_elem?-set_ne :
      (fs : List (Function L)) (k j : ℕ) (f : Function L)
      → j ≢ k
      → get_elem? (set fs k f) j ≡ get_elem? fs j
  get_elem?-set_ne [] k j f h = refl
  get_elem?-set_ne (g ∷ fs) zero zero f h = absurd (h refl)
  get_elem?-set_ne (g ∷ fs) zero (suc j) f h = refl
  get_elem?-set_ne (g ∷ fs) (suc k) zero f h = refl
  get_elem?-set_ne (g ∷ fs) (suc k) (suc j) f h = get_elem?-set_ne fs k j f (λ e. h (ap suc e))

module _ {L : Llvm} (law : IsLawful L) (h : Hooks L)
    (named : L.callee_name h.p_probe ≡ some (codes "_probe_")) (file : Bytes) where
  abbrev BlocksDone : List (List L.Inst) → Result (List (List L.Inst) × L.World) → Type 0
  BlocksDone bs (ok (bs', w)) = block_calls L bs' ≡ block_calls L bs + block_probes L bs
  BlocksDone bs (fault e) = Unit

  walk_blocks-BlocksDone :
      (bs : List (List L.Inst)) (w : L.World) → BlocksDone bs (walk_blocks h file bs w)
  unfolding walk_blocks
  walk_blocks-BlocksDone [] w = refl
  walk_blocks-BlocksDone (b ∷ bs) w =
      go (walk (handle h file) b w) refl (λ w'. walk_blocks-BlocksDone bs w')
    where
      join :
          (b' : List L.Inst) (r : Result (List (List L.Inst) × L.World))
          → calls L b' ≡ calls L b + probe_count L b
          → BlocksDone bs r
          → BlocksDone (b ∷ bs) (bind r (λ (bs', w''). ok (b' ∷ bs', w'')))
      join b' (ok (bs', w'')) p q = omega arith
      join b' (fault e) p q = tt

      go :
          (r : Result (List L.Inst × L.World))
          → walk (handle h file) b w ≡ r
          → ((w' : L.World) → BlocksDone bs (walk_blocks h file bs w'))
          → BlocksDone (b ∷ bs) (walk_blocks h file (b ∷ bs) w)
      go (fault e) q ih = rw (q, walk_blocks) tt
      go (ok (b', w')) q ih =
          rw (q, walk_blocks)
            (join b' (walk_blocks h file bs w') (walk-probe_count law h file named b b' w w' q)
              (ih w'))

-- A run on the function `f` at index `k`, once the pass is initialized.
pub record IsLaterRun (L : Llvm) (st : State L) (m : Module L) (k : ℕ) (f : Function L)
    (o : Outcome L) : Type 0 where
  pub state_kept : o.state ≡ st
  pub others_kept : (j : ℕ) → j ≢ k → get_elem? o.mod_after.functions j ≡ get_elem? m.functions j
  pub probed :
      function_calls L o.mod_after.functions
      ≡ function_calls L m.functions + block_probes L f.blocks

module _ {L : Llvm} (st : State L) (m : Module L) (k : ℕ) (f : Function L) where
  abbrev Later : Result (Outcome L) → Type 0
  Later (ok o) = IsLaterRun L st m k f o
  Later (fault e) = Unit

  -- The last part of the run.
  abbrev walk_and_store : Hooks L → List Bytes → Result (Outcome L)
  walk_and_store h output =
      bind (walk_blocks h (file_path f.metadata) f.blocks m.world)
        (λ done. ok (instrumented st output m k f done))

module _ {L : Llvm} (law : IsLawful L) (h : Hooks L)
    (named : L.callee_name h.p_probe ≡ some (codes "_probe_")) (st : State L) (m : Module L) (k : ℕ)
    (f : Function L) (present : get_elem? m.functions k ≡ some f) where
  walk_and_store-Later : (output : List Bytes) → Later st m k f (walk_and_store st m k f h output)
  walk_and_store-Later output =
      go (walk_blocks h (file_path f.metadata) f.blocks m.world)
        (walk_blocks-BlocksDone law h named (file_path f.metadata) f.blocks m.world)
    where
      go :
          (r : Result (List (List L.Inst) × L.World))
          → BlocksDone law h named (file_path f.metadata) f.blocks r
          → Later st m k f (bind r (λ done. ok (instrumented st output m k f done)))
      go (ok (blocks, w)) p = record {
        state_kept = refl;
        others_kept = λ j ne. get_elem?-set_ne L m.functions k j _ ne;
        probed =
            omega (
              arith,
              p,
              function_calls-set L m.functions k f (record f { blocks = blocks }) present,
            );
      }
      go (fault e) p = tt

  -- If LLVM behaves as documented, and the pass is initialized with a `p_probe` that calls
  -- `_probe_`, then the part of `run` behind its second `return`, on the function at an index of
  -- the module, if it ends, leaves the state of the pass and the functions at other indices as they
  -- are, and the module has one more call for each probe due in the function.
  pub run_instrument-IsLaterRun :
      (o : Outcome L)
      → st.initial ≡ true
      → st.hooks ≡ some h
      → run_instrument st m k ≡ ok o
      → IsLaterRun L st m k f o
  unfolding run_instrument
  run_instrument-IsLaterRun o initialized hooked e =
      subst (Later st m k f) (sym reduced ∙ e) (walk_and_store-Later (init_message st))
    where
      reduced : run_instrument st m k ≡ walk_and_store st m k f h (init_message st)
      reduced = ground arith
