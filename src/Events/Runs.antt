-- ===== src/Events/Runs.antt =====
-- The probes that a run inserts into a function.
use atomicity_violation.Base.{
  ℕ, zero, suc, ◌≡◌, refl, sym, ◌∙◌, subst, true, false, some, List, [], ◌∷◌, All, Bytes, get_elem?,
  set, arith,
}
use atomicity_violation.Base.Result.{Result, ok, fault, bind}
use atomicity_violation.Llvm.{Llvm, IsLawful}
use atomicity_violation.Llvm.Reading.{Reading, IsFaithful}
use atomicity_violation.Pass.{Hooks}
use atomicity_violation.Pass.Walk.{walk}
use atomicity_violation.Pass.Init.{Function, Module, State}
use atomicity_violation.HelloWorld.Filter.{file_path}
use atomicity_violation.HelloWorld.Handle.{handle}
use atomicity_violation.HelloWorld.Handle.Probes.{is_break}
use atomicity_violation.HelloWorld.Run.{
  Outcome, instrumented, init_message, walk_blocks, run_instrument, ensure_initialized,
}
use atomicity_violation.FunctionPass.Handle.{visit}
use atomicity_violation.FunctionPass.Run.{is_foreign, visit_blocks, messages, run_function}
use atomicity_violation.FunctionPass.Module.Laws.{local_run}
use atomicity_violation.Events.Seen.{Event, seen}
use atomicity_violation.Events.Probes.{IsReady}
use atomicity_violation.Events.Due.{invoke_rules, call_rules, mangled_rules, due_at}
use atomicity_violation.Events.Blocks.{IsUnprobed, due_block}
use atomicity_violation.Events.HelloWorld.{walk-due_block}
use atomicity_violation.Events.FunctionPass.{walk-visit-due_block}

module _ {L : Llvm} (R : Reading L) where
  -- The calls of probes in each block.
  abbrev pub seen_blocks : List (List L.Inst) → List (List (Event L))
  seen_blocks [] = []
  seen_blocks (b ∷ bs) = seen R b ∷ seen_blocks bs

  -- No block holds a call of a probe.
  abbrev pub AreUnprobed : List (List L.Inst) → Type 0
  AreUnprobed = All (IsUnprobed R)

  module _ (due : List L.Inst → List (Event L)) where
    abbrev pub due_blocks : List (List L.Inst) → List (List (Event L))
    due_blocks [] = []
    due_blocks (b ∷ bs) = due b ∷ due_blocks bs

    abbrev BlockDue : List L.Inst → Result (List L.Inst × L.World) → Type 0
    BlockDue b (ok (b', w)) = seen R b' ≡ due b
    BlockDue b (fault e) = Unit

    abbrev BlocksDue : List (List L.Inst) → Result (List (List L.Inst) × L.World) → Type 0
    BlocksDue bs (ok (bs', w)) = seen_blocks bs' ≡ due_blocks bs
    BlocksDue bs (fault e) = Unit

    -- One block, and then the others.
    BlocksDue-cons :
        (b : List L.Inst) (bs : List (List L.Inst)) (r : Result (List L.Inst × L.World))
        (others : L.World → Result (List (List L.Inst) × L.World))
        → BlockDue b r
        → ((w : L.World) → BlocksDue bs (others w))
        → BlocksDue
            (b ∷ bs)
            (bind r (λ (b', w'). bind (others w') (λ (bs', w''). ok (b' ∷ bs', w''))))
    BlocksDue-cons b bs (fault e) others p ps = tt
    BlocksDue-cons b bs (ok (b', w')) others p ps = go (others w') (ps w')
      where
        go :
            (r : Result (List (List L.Inst) × L.World))
            → BlocksDue bs r
            → BlocksDue (b ∷ bs) (bind r (λ (bs', w''). ok (b' ∷ bs', w'')))
        go (ok (bs', w'')) q = rw (p, q) refl
        go (fault e) q = tt

    -- The function at the index keeps its name, and its blocks hold the probes that are due.
    pub record IsProbed (k : ℕ) (f : Function L) (o : Outcome L) : Type 0 where
      pub probed : Function L
      pub present : get_elem? o.mod_after.functions k ≡ some probed
      pub name_kept : probed.name ≡ f.name
      pub events : seen_blocks probed.blocks ≡ due_blocks f.blocks

    abbrev RunProbed : ℕ → Function L → Result (Outcome L) → Type 0
    RunProbed k f (ok o) = IsProbed k f o
    RunProbed k f (fault e) = Unit

    get_elem?-set :
        (fs : List (Function L)) (k : ℕ) (f f' : Function L)
        → get_elem? fs k ≡ some f
        → get_elem? (set fs k f') k ≡ some f'
    get_elem?-set [] k f f' e = cc
    get_elem?-set (g ∷ fs) zero f f' e = refl
    get_elem?-set (g ∷ fs) (suc k) f f' e = get_elem?-set fs k f f' e

    -- The end of a run puts the blocks in place.
    instrumented-RunProbed :
        (st : State L) (output : List Bytes) (m : Module L) (k : ℕ) (f : Function L)
        → get_elem? m.functions k ≡ some f
        → (r : Result (List (List L.Inst) × L.World)) → BlocksDue f.blocks r
        → RunProbed k f (bind r (λ done. ok (instrumented st output m k f done)))
    instrumented-RunProbed st output m k f present (ok (blocks, w)) p = record {
      probed = record f { blocks = blocks };
      present = get_elem?-set m.functions k f _ present;
      name_kept = refl;
      events = p;
    }
    instrumented-RunProbed st output m k f present (fault e) p = tt

  -- What is due in a block, for the two versions of the pass.
  abbrev pub due_in_path : Bytes → List L.Inst → List (Event L)
  due_in_path file = due_block R (is_break L) (due_at R file invoke_rules call_rules)

  abbrev pub due_in_function : Bytes → List L.Inst → List (Event L)
  due_in_function fname = due_block R (λ i. false) (due_at R fname mangled_rules [])

module _ {L : Llvm} (R : Reading L) (law : IsLawful L) (faithful : IsFaithful L R) (h : Hooks L)
    (is_ready : IsReady L h) where
  walk_blocks-BlocksDue :
      (file : Bytes) (bs : List (List L.Inst)) (w : L.World)
      → AreUnprobed R bs
      → BlocksDue R (due_in_path R file) bs (walk_blocks h file bs w)
  unfolding walk_blocks
  walk_blocks-BlocksDue file [] w u = refl
  walk_blocks-BlocksDue file (b ∷ bs) w (u, us) =
      BlocksDue-cons R (due_in_path R file) b bs (walk (handle h file) b w) (walk_blocks h file bs)
        (here (walk (handle h file) b w) refl) (λ w'. walk_blocks-BlocksDue file bs w' us)
    where
      here :
          (r : Result (List L.Inst × L.World))
          → walk (handle h file) b w ≡ r
          → BlockDue R (due_in_path R file) b r
      here (ok (b', w')) q = walk-due_block R law faithful h is_ready file b w b' w' u q
      here (fault e) q = tt

  visit_blocks-BlocksDue :
      (fname : Bytes) (bs : List (List L.Inst)) (w : L.World)
      → AreUnprobed R bs
      → BlocksDue R (due_in_function R fname) bs (visit_blocks h fname bs w)
  unfolding visit_blocks
  visit_blocks-BlocksDue fname [] w u = refl
  visit_blocks-BlocksDue fname (b ∷ bs) w (u, us) =
      BlocksDue-cons R (due_in_function R fname) b bs (walk (visit h fname) b w)
        (visit_blocks h fname bs) (here (walk (visit h fname) b w) refl)
        (λ w'. visit_blocks-BlocksDue fname bs w' us)
    where
      here :
          (r : Result (List L.Inst × L.World))
          → walk (visit h fname) b w ≡ r
          → BlockDue R (due_in_function R fname) b r
      here (ok (b', w')) q = walk-visit-due_block R law faithful h is_ready fname b w b' w' u q
      here (fault e) q = tt

  module _ (st : State L) (m : Module L) (k : ℕ) (f : Function L) (o : Outcome L)
      (present : get_elem? m.functions k ≡ some f) (unprobed : AreUnprobed R f.blocks)
      (initialized : st.initial ≡ true) (hooked : st.hooks ≡ some h) where
    -- If LLVM behaves as documented and the pass is initialized, the part of `run` behind its
    -- second `return`, on the function at an index of the module, which holds no call of a probe,
    -- if it ends without a fault, leaves at that index a function of the same name, in each of
    -- whose blocks the calls of probes are those that the tables ask for before the block's first
    -- atomic operation, in their order, with the path of the function's source file.
    pub run_instrument-IsProbed :
        run_instrument st m k ≡ ok o → IsProbed R (due_in_path R (file_path f.metadata)) k f o
    unfolding run_instrument ensure_initialized
    run_instrument-IsProbed e =
        subst (RunProbed R (due_in_path R (file_path f.metadata)) k f) (sym reduced ∙ e) (
          instrumented-RunProbed R (due_in_path R (file_path f.metadata)) st (init_message st) m k f
            present _ (walk_blocks-BlocksDue (file_path f.metadata) f.blocks m.world unprobed))
      where
        reduced :
            run_instrument st m k
            ≡ bind
                (walk_blocks h (file_path f.metadata) f.blocks m.world)
                (λ done. ok (instrumented st (init_message st) m k f done))
        reduced = ground arith

    -- If LLVM behaves as documented and the pass is initialized, a run of function.cpp on the
    -- function at an index of the module, which the filter lets pass and which holds no call of a
    -- probe, if it ends without a fault, leaves at that index a function of the same name, in each
    -- of whose blocks the calls of probes are those that the table asks for, in their order, with
    -- the function's name.
    pub run_function-IsProbed :
        is_foreign m.name f.name ≡ false
        → run_function st m k ≡ ok o
        → IsProbed R (due_in_function R f.name) k f o
    run_function-IsProbed targeted e =
        subst (RunProbed R (due_in_function R f.name) k f)
          (sym (local_run st m k f h present initialized hooked targeted) ∙ e)
          (instrumented-RunProbed R (due_in_function R f.name) st (messages st f.name) m k f present
            _ (visit_blocks-BlocksDue f.name f.blocks m.world unprobed))
