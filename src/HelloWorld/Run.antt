-- ===== src/HelloWorld/Run.antt =====
-- `run` on a function of a module: lines 33 to 463 of HelloWorld/HelloWorld.cpp. The code returns
-- at its first statement; what would follow is modelled in two parts, up to the second `return` and
-- behind it.
pub mod Laws
use atomicity_violation.Base.{
  ℕ, Bool, true, false, Option, none, some, List, [], ◌∷◌, Bytes, codes, get_elem?, set,
}
use atomicity_violation.Base.Result.{Result, ok, fault, bind, no_function, uninitialized}
use atomicity_violation.Llvm.{Llvm}
use atomicity_violation.Pass.{Hooks}
use atomicity_violation.Pass.Init.{Function, Module, State, initialization}
use atomicity_violation.Pass.Walk.{walk}
use atomicity_violation.HelloWorld.Filter.{file_path, location, report}
use atomicity_violation.HelloWorld.Handle.{handle}

-- `PreservedAnalyses::all()` and `none()`
pub data Preserved : Type 0 where
  all none_of_them : Preserved

-- What a call of `run` gives back: the analyses that stay valid, and the output on `errs()`.
pub record Outcome (L : Llvm) : Type 0 where
  pub preserved : Preserved
  pub output : List Bytes
  pub state : State L
  pub mod_after : Module L

module _ {L : Llvm} where
  -- The function at the index, or a fault.
  abbrev pub function_at : Module L → ℕ → Result (Function L)
  function_at m k = elim (get_elem? m.functions k) [ none ↦ fault no_function | some f ↦ ok f ]

  -- `run` as it stands: it returns at once.
  unfoldable pub run : State L → Module L → ℕ → Result (Outcome L)
  run st m k =
      bind (function_at m k)
        (λ f. ok (record { preserved = all; output = []; state = st; mod_after = m }))

  -- From behind the first `return` to the second: the filter, and some output.
  unfoldable pub run_filter : State L → Module L → ℕ → Result (Outcome L)
  unfolding report
  run_filter st m k = bind (function_at m k) (λ f. ok (record {
    preserved = all;
    output = report m.name f.name f.metadata;
    state = st;
    mod_after = m;
  }))

  -- `if(!initial) { initialization(F); initial = true; … }`
  unfoldable pub ensure_initialized : State L → Module L → Result (State L × Module L)
  unfolding initialization
  ensure_initialized st m = elim st.initial [
    | true ↦ ok (st, m)
    | false ↦
        bind (initialization m)
          (λ (hooks, m'). ok (record st { initial = true; hooks = some hooks }, m'))
  ]

  abbrev pub init_message : State L → List Bytes
  init_message st = elim st.initial [ true ↦ [] | false ↦ codes "init\n" ∷ [] ]

  -- `for(auto& B : F)`
  unfoldable pub walk_blocks :
      Hooks L → Bytes → List (List L.Inst) → L.World → Result (List (List L.Inst) × L.World)
  unfolding walk handle
  walk_blocks h file [] w = ok ([], w)
  walk_blocks h file (b ∷ bs) w =
      bind (walk (handle h file) b w)
        (λ (b', w'). bind (walk_blocks h file bs w') (λ (bs', w''). ok (b' ∷ bs', w'')))

  -- The outcome of a run that has walked the blocks of the function `f`.
  abbrev pub instrumented :
      State L → List Bytes → Module L → ℕ → Function L → List (List L.Inst) × L.World → Outcome L
  instrumented st output m k f (blocks, w) = record {
    preserved = none_of_them;
    output = output;
    state = st;
    mod_after = record m {
      functions = set m.functions k (record f { blocks = blocks });
      world = w;
    };
  }

  -- From behind the second `return` to the end.
  unfoldable pub run_instrument : State L → Module L → ℕ → Result (Outcome L)
  unfolding ensure_initialized walk_blocks file_path
  run_instrument st m k = bind (ensure_initialized st m) λ (st', m'). bind (function_at m' k) λ f.
      elim st'.hooks [
        | none ↦ fault uninitialized
        | some h ↦
            bind (walk_blocks h (file_path f.metadata) f.blocks m'.world)
              (λ done. ok (instrumented st' (init_message st) m' k f done))
      ]
