-- ===== src/HelloWorld/Begins.antt =====
-- Runs of HelloWorld/HelloWorld.cpp keep the call of `_init_` at the beginning of `main`.
use atomicity_violation.Base.{
  ◌≡◌, ◌⊎◌, refl, sym, subst, inl, inr, true, false, Option, none, some, List, [], ◌∷◌, ℕ, codes,
  get_elem?, Bytes, arith,
}
use atomicity_violation.Base.Result.{Fault, Result, ok, fault, bind, no_function}
use atomicity_violation.Llvm.{Llvm, IsLawful}
use atomicity_violation.Llvm.Reading.{Reading, IsFaithful}
use atomicity_violation.Pass.{Hooks}
use atomicity_violation.Pass.Init.{Function, Module, State, initialization}
use atomicity_violation.Pass.Walk.{walk}
use atomicity_violation.Pass.Entry.{
  IsPhiApart, Begins, EntryBegins, MainBegins, set-MainBegins, initialization-MainBegins,
  WalkBegins, BlocksBegin, cons-BlocksBegin, annotate-Begins,
}
use atomicity_violation.HelloWorld.Filter.{file_path}
use atomicity_violation.HelloWorld.Handle.{handle}
use atomicity_violation.HelloWorld.Handle.Laws.{other-IsInert, init-IsInert, walk-handle}
use atomicity_violation.HelloWorld.Run.{
  Outcome, init_message, instrumented, walk_blocks, run_instrument, ensure_initialized,
}
use atomicity_violation.Events.Types.{initialization-IsReady}

-- The pass is initialized, with a `p_probe` that calls `_probe_`, and `main` begins with the call.
pub record HasBegun (L : Llvm) (st : State L) (m : Module L) : Type 0 where
  pub initialized : st.initial ≡ true
  pub hooks : Hooks L
  pub hooked : st.hooks ≡ some hooks
  pub named : L.callee_name hooks.p_probe ≡ some (codes "_probe_")
  pub begins : MainBegins L m.functions

abbrev RunBegun : {L : Llvm} → Result (Outcome L) → Type 0
RunBegun {L} (ok o) = HasBegun L o.state o.mod_after
RunBegun (fault e) = Unit

module _ {L : Llvm} (law : IsLawful L) (apart : IsPhiApart L) where
  walk-Begins :
      (h : Hooks L) (file : Bytes)
      → L.callee_name h.p_probe ≡ some (codes "_probe_")
      → {block : List L.Inst} (w : L.World) → Begins L block
      → WalkBegins L (walk (handle h file) block w)
  walk-Begins h file named {block} w b =
      subst (WalkBegins L) (sym (walk-handle h file law named block w)) (
        annotate-Begins (handle h file) apart (other-IsInert h file)
          (λ i init. init-IsInert h file i init.is_call init.calls_init) w b)

  walk_blocks-Begin :
      (h : Hooks L) (file : Bytes)
      → L.callee_name h.p_probe ≡ some (codes "_probe_")
      → (bs : List (List L.Inst)) (w : L.World) → EntryBegins L bs
      → BlocksBegin L (walk_blocks h file bs w)
  unfolding walk_blocks
  walk_blocks-Begin h file named [] w b = elim b [ ]
  walk_blocks-Begin h file named (entry ∷ bs) w b =
      cons-BlocksBegin L (walk (handle h file) entry w) (walk_blocks h file bs)
        (walk-Begins h file named w b)

  -- The end of a run of an initialized pass.
  instrumented-RunBegun :
      (st : State L) (m : Module L) (k : ℕ) (f : Function L) (output : List Bytes)
      → get_elem? m.functions k ≡ some f
      → HasBegun L st m
      → (r : Result (List (List L.Inst) × L.World)) → (EntryBegins L f.blocks → BlocksBegin L r)
      → RunBegun (bind r (λ done. ok (instrumented st output m k f done)))
  instrumented-RunBegun st m k f output present begun (fault e) keep = tt
  instrumented-RunBegun st m k f output present begun (ok (blocks, w)) keep = record {
    initialized = begun.initialized;
    hooks = begun.hooks;
    hooked = begun.hooked;
    named = begun.named;
    begins = set-MainBegins L k f (record f { blocks = blocks }) present refl keep begun.begins;
  }

  -- A run whose `ensure_initialized` leaves a pass and a module that have begun.
  run_instrument-RunBegun :
      (st st' : State L) (m m' : Module L) (k : ℕ)
      → ensure_initialized st m ≡ ok (st', m')
      → HasBegun L st' m'
      → RunBegun (run_instrument st m k)
  unfolding run_instrument
  run_instrument-RunBegun st st' m m' k ensured begun = found (get_elem? m'.functions k) refl
    where
      missing : get_elem? m'.functions k ≡ none → run_instrument st m k ≡ fault no_function
      missing q = ground arith

      reduced :
          (f : Function L)
          → get_elem? m'.functions k ≡ some f
          → st'.hooks ≡ some begun.hooks
          → run_instrument st m k
            ≡ bind
                (walk_blocks begun.hooks (file_path f.metadata) f.blocks m'.world)
                (λ done. ok (instrumented st' (init_message st) m' k f done))
      reduced f q hooked = ground arith

      found :
          (o : Option (Function L))
          → get_elem? m'.functions k ≡ o
          → RunBegun (run_instrument st m k)
      found none q = subst RunBegun (sym (missing q)) tt
      found (some f) q = subst RunBegun (sym (reduced f q begun.hooked)) (
          instrumented-RunBegun st' m' k f (init_message st) q begun _
            (walk_blocks-Begin begun.hooks (file_path f.metadata) begun.named f.blocks m'.world))

module _ {L : Llvm} (R : Reading L) (law : IsLawful L) (faithful : IsFaithful L R)
    (apart : IsPhiApart L) where
  first-RunBegun :
      (st : State L) (m : Module L) (k : ℕ) → st.initial ≡ false → RunBegun (run_instrument st m k)
  unfolding run_instrument ensure_initialized
  first-RunBegun st m k fresh_state = go (initialization m) refl
    where
      failed : (e : Fault) → initialization m ≡ fault e → run_instrument st m k ≡ fault e
      failed e q = ground arith

      go :
          (r : Result (Hooks L × Module L))
          → initialization m ≡ r
          → RunBegun (run_instrument st m k)
      go (fault e) q = subst RunBegun (sym (failed e q)) tt
      go (ok (h, m')) q =
          run_instrument-RunBegun law apart st (record st { initial = true; hooks = some h }) m m' k
            (rw (fresh_state, q, ensure_initialized) refl)
            (record {
              initialized = refl;
              hooks = h;
              hooked = refl;
              named = (initialization-IsReady R faithful m m' h q).p_probe;
              begins = initialization-MainBegins R law faithful m m' h q;
            })

  later-RunBegun :
      (st : State L) (m : Module L) (k : ℕ) → HasBegun L st m → RunBegun (run_instrument st m k)
  unfolding ensure_initialized
  later-RunBegun st m k begun =
      run_instrument-RunBegun law apart st st m m k (simp (begun.initialized, ensure_initialized))
        begun

  -- If LLVM behaves as documented, where PHI nodes have an opcode of their own, and the pass is not
  -- initialized, or it is initialized with a `p_probe` that calls `_probe_` and in the entry block
  -- of the first function called `main`, if the module has one, the first instruction that is no
  -- PHI node is a call of `_init_`, then the part of `run` behind its second `return`, on any
  -- function of the module, if it ends without a fault, leaves a pass that is initialized, with
  -- such a `p_probe`, and a module whose `main` begins with that call.
  pub run_instrument-HasBegun :
      (st : State L) (m : Module L) (k : ℕ) (o : Outcome L)
      → (st.initial ≡ false) ⊎ HasBegun L st m
      → run_instrument st m k ≡ ok o
      → HasBegun L o.state o.mod_after
  run_instrument-HasBegun st m k o (inl fresh_state) e =
      subst RunBegun e (first-RunBegun st m k fresh_state)
  run_instrument-HasBegun st m k o (inr begun) e = subst RunBegun e (later-RunBegun st m k begun)
