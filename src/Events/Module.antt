-- ===== src/Events/Module.antt =====
-- The probes in the functions of a module after runs of HelloWorld/function.cpp on them.
pub mod Laws
use atomicity_violation.Base.{
  ℕ, ◌≡◌, ◌≢◌, refl, sym, ◌∙◌, ap, subst, Bool-cases, inl, inr, true, false, Option, none, some,
  List, [], ◌∷◌, All, Bytes, get_elem?, if◌then◌else◌,
}
use atomicity_violation.Base.Result.{Result, ok, fault}
use atomicity_violation.Llvm.{Llvm, IsLawful}
use atomicity_violation.Llvm.Reading.{Reading, IsFaithful}
use atomicity_violation.Pass.{Hooks}
use atomicity_violation.Pass.Init.{Function, Module, State, fresh, initialization}
use atomicity_violation.HelloWorld.Run.{Outcome}
use atomicity_violation.FunctionPass.Run.{is_foreign, run_function}
use atomicity_violation.FunctionPass.Module.{Outside, Distinct, run_each}
use atomicity_violation.FunctionPass.Module.Kept.{SameAt, IsKeptBy, initialization-IsKeptBy}
use atomicity_violation.FunctionPass.Module.Laws.{
  IsRun, Ran, run_function-Ran, foreign_run, missing_run, RanEach, run_each-RanEach,
}
use atomicity_violation.FunctionPass.Module.Fresh.{
  ready, Starts, never, from, run_each-Starts, Added, run_each-Added,
}
use atomicity_violation.Events.Seen.{Event}
use atomicity_violation.Events.Probes.{IsReady}
use atomicity_violation.Events.Types.{initialization-IsReady}
use atomicity_violation.Events.Runs.{
  seen_blocks, AreUnprobed, due_blocks, due_in_function, IsProbed, run_function-IsProbed,
}
use atomicity_violation.Events.Kept.{seen_blocks-AllKept, due_blocks-AllKept, AreUnprobed-AllKept}

-- What holds of the others, one by one, holds of all of them.
pub All-others :
    {P Q : ℕ → Type 0} (k : ℕ)
    → ((j : ℕ) → j ≢ k → P j → Q j)
    → (ks : List ℕ) → Outside ks k
    → All P ks
    → All Q ks
All-others k step [] out ps = tt
All-others k step (j ∷ ks) (ne, out) (p, ps) = (step j ne p, All-others k step ks out ps)

pub All-map : {P Q : ℕ → Type 0} → ((j : ℕ) → P j → Q j) → (ks : List ℕ) → All P ks → All Q ks
All-map step [] ps = tt
All-map step (j ∷ ks) (p, ps) = (step j p, All-map step ks ps)

module _ {L : Llvm} (R : Reading L) where
  -- The probes that a run leaves in the blocks of a function: those that its table asks for, if the
  -- filter lets the function pass, and else those that were there.
  abbrev pub left_in : Bytes → Function L → List (List (Event L))
  left_in name f =
      if is_foreign name f.name
      then seen_blocks R f.blocks
      else due_blocks R (due_in_function R f.name) f.blocks

  -- The function keeps its name, and has these probes.
  abbrev pub Annotated : Bytes → Option (Function L) → Option (Function L) → Type 0
  Annotated name none none = Unit
  Annotated name (some f) (some f') =
      (f'.name ≡ f.name) × (seen_blocks R f'.blocks ≡ left_in name f)
  Annotated name _ _ = ⊥

  abbrev pub Unprobed : Option (Function L) → Type 0
  Unprobed none = Unit
  Unprobed (some f) = AreUnprobed R f.blocks

  -- The functions at the given indices.
  abbrev pub AllUnprobed : Module L → List ℕ → Type 0
  AllUnprobed m = All (λ k. Unprobed (get_elem? m.functions k))

  abbrev pub AllAnnotated : Module L → Module L → List ℕ → Type 0
  AllAnnotated m m' =
      All (λ k. Annotated m.name (get_elem? m.functions k) (get_elem? m'.functions k))

  abbrev pub EachAnnotated : Module L → List ℕ → Result (State L × Module L) → Type 0
  EachAnnotated m ks (ok (st', m')) = AllAnnotated m m' ks
  EachAnnotated m ks (fault e) = Unit

  abbrev pub RunAnnotated : Module L → ℕ → Result (Outcome L) → Type 0
  RunAnnotated m k (ok o) =
      Annotated m.name (get_elem? m.functions k) (get_elem? o.mod_after.functions k)
  RunAnnotated m k (fault e) = Unit

  pub Annotated-SameAt :
      (name : Bytes) (a b c : Option (Function L))
      → SameAt L a b
      → Annotated name b c
      → Annotated name a c
  Annotated-SameAt name none none c s p = p
  Annotated-SameAt name none (some f) c s p = elim s [ ]
  Annotated-SameAt name (some f) none c s p = elim s [ ]
  Annotated-SameAt name (some f) (some f') none s p = elim p [ ]
  Annotated-SameAt name (some f) (some f') (some f'') (n, b) (n', e) = (
    n' ∙ n,
    e
        ∙ rw
            (
              n,
              seen_blocks-AllKept R f.blocks f'.blocks b,
              due_blocks-AllKept R f.name f.blocks f'.blocks b,
            )
            refl,
  )

  pub Unprobed-SameAt : (a b : Option (Function L)) → SameAt L a b → Unprobed a → Unprobed b
  Unprobed-SameAt none none s u = tt
  Unprobed-SameAt none (some f) s u = elim s [ ]
  Unprobed-SameAt (some f) none s u = elim s [ ]
  Unprobed-SameAt (some f) (some f') (n, b) u = AreUnprobed-AllKept R f.blocks f'.blocks b u

  -- A foreign function that keeps its blocks.
  pub Annotated-foreign :
      (name : Bytes) (f : Function L) (o : Option (Function L))
      → is_foreign name f.name ≡ true
      → SameAt L (some f) o
      → Annotated name (some f) o
  Annotated-foreign name f none q s = elim s [ ]
  Annotated-foreign name f (some f') q (n, b) =
      (n, rw q (seen_blocks-AllKept R f.blocks f'.blocks b))
