-- ===== src/HelloWorld/Readable.antt =====
-- When `run` of HelloWorld/HelloWorld.cpp, behind its second `return`, finds all operands that it
-- reads.
use atomicity_violation.Base.{
  ℕ, ◌≡◌, refl, sym, subst, Bool, true, false, ◌&&◌, Option, none, some, List, [], ◌∷◌, All, Bytes,
  codes, get_elem?, arith, if◌then◌else◌,
}
use atomicity_violation.Base.Result.{Result, ok, fault, bind}
use atomicity_violation.Text.{mentions}
use atomicity_violation.Llvm.{Llvm, IsLawful, Opcode, store, load, invoke, call, other}
use atomicity_violation.Llvm.Builder.{Builder}
use atomicity_violation.Pass.{Action, Hooks, next, leave}
use atomicity_violation.Pass.Walk.{walk}
use atomicity_violation.Pass.Init.{Function, Module, State}
use atomicity_violation.HelloWorld.Filter.{file_path}
use atomicity_violation.HelloWorld.Memory.{on_store, on_load}
use atomicity_violation.HelloWorld.Locks.{
  invoke_lock, invoke_unlock, invoke_read, invoke_read_unlock, invoke_write, invoke_write_unlock,
  invoke_named, on_invoke, call_write, call_read, call_read_unlock, call_write_unlock, call_named,
  on_call,
}
use atomicity_violation.HelloWorld.Handle.{handle}
use atomicity_violation.HelloWorld.Handle.Laws.{walk-handle}
use atomicity_violation.HelloWorld.Run.{
  Outcome, instrumented, init_message, walk_blocks, ensure_initialized, run_instrument,
}
use atomicity_violation.Readable.{
  IsAddressing, HasLock, HasCallee, HasOperands, IfKnown, IsReadableBy,
}
use atomicity_violation.Readable.Builds.{
  IsOk, Ends, Ends-if, Ends-pure, Ends-log_access, Ends-log_argument, Ends-log_guard,
  Ends-log_guard_field,
}
use atomicity_violation.Readable.Blocks.{
  bind-IsOk, before-IsOk, after-IsOk, annotate-IsOk, Returns, Returns-if,
}
use atomicity_violation.Events.Due.{invoke_rules, call_rules}

abbrev pub IsReadable : (L : Llvm) → L.Inst → Type 0
IsReadable L = IsReadableBy L invoke_rules (some call_rules)

module _ {L : Llvm} (law : IsLawful L) (addressing : IsAddressing L) (h : Hooks L)
    (typed : h.ptr_ty ≡ L.int8_ptr_ty)
    (named : L.callee_name h.p_probe ≡ some (codes "_probe_")) where
  module _ (file : Bytes) where
    Ends-invoke_named :
        (name : Bytes) (i : L.Inst) (line : ℕ)
        → HasLock L invoke_rules name i
        → Ends {L = L} (invoke_named h file name i line)
    unfolding invoke_named invoke_lock invoke_unlock invoke_read invoke_read_unlock invoke_write
        invoke_write_unlock
    Ends-invoke_named name i line = Ends-if _ (Ends-log_argument h typed file 1 "lock" i line) (
        Ends-if _ (Ends-log_guard_field h typed file addressing "unlock" i line) (
          Ends-if _ (Ends-log_argument h typed file 0 "invoke - rwlock read lock" i line) (
            Ends-if _ (Ends-log_guard h typed file addressing "invoke - rwlock read unlock" i line)
              (Ends-if _ (Ends-log_argument h typed file 1 "invoke - rwlock write lock" i line) (
                Ends-if _
                  (Ends-log_guard_field h typed file addressing "invoke - rwlock write unlock" i
                    line)
                  (λ u. Ends-pure))))))

    Ends-on_invoke :
        (i : L.Inst)
        → IfKnown L (L.debug_line i) (HasCallee L invoke_rules (L.called_function i) i)
        → Ends {L = L} (on_invoke h file i)
    unfolding on_invoke
    Ends-on_invoke i p = record {
      each = λ b. go b (L.debug_line i) refl (L.called_function i) refl p;
    }
      where
        go :
            (b : Builder L) (d : Option ℕ)
            → L.debug_line i ≡ d
            → (f : Option Bytes) → L.called_function i ≡ f
            → IfKnown L d (HasCallee L invoke_rules f i)
            → IsOk (on_invoke h file i b)
        go b none q f r p = rw (q, on_invoke) tt
        go b (some line) q none r p = elim p [ ]
        go b (some line) q (some name) r p =
            rw (q, r, on_invoke) ((Ends-invoke_named name i line p).each b)

    Returns-last :
        (c : Bool) (w : L.World)
        → Returns {A = Action L} (if c then ok leave else ok (next [] [] w))
    Returns-last true w = record { is_ok = tt }
    Returns-last false w = record { is_ok = tt }

    call_named-Returns :
        (name : Bytes) (i : L.Inst) (line : ℕ) (w : L.World)
        → HasLock L call_rules name i
        → Returns (call_named h file name i line w)
    unfolding call_named call_write call_read call_read_unlock call_write_unlock
    call_named-Returns name i line w =
        Returns-if (mentions name "std4sync6rwlock15RwLock$LT$T$GT$5write") w
          (Ends-log_argument h typed file 1 "call - rwlock write lock" i line)
          (Returns-if (mentions name "std4sync6rwlock15RwLock$LT$T$GT$4read") w
            (Ends-log_argument h typed file 0 "call - rwlock read lock" i line)
            (Returns-if (mentions name "drop_in_place$LT$std..sync..rwlock..RwLockReadGuard") w
              (Ends-log_guard h typed file addressing "call - rwlock read unlock" i line)
              (Returns-if (mentions name "drop_in_place$LT$std..sync..rwlock..RwLockWriteGuard") w
                (Ends-log_guard_field h typed file addressing "call - rwlock write unlock" i line)
                (λ (u : Unit {0}).
                  Returns-last (mentions name "core4sync6atomic" && mentions name "Atomic") w))))

    on_call-IsOk :
        (i : L.Inst) (w : L.World)
        → IfKnown L (L.debug_line i) (HasCallee L call_rules (L.called_function i) i)
        → IsOk (on_call h file i w)
    unfolding on_call
    on_call-IsOk i w p = go (L.debug_line i) refl (L.called_function i) refl p
      where
        go :
            (d : Option ℕ)
            → L.debug_line i ≡ d
            → (f : Option Bytes) → L.called_function i ≡ f
            → IfKnown L d (HasCallee L call_rules f i)
            → IsOk (on_call h file i w)
        go none q f r p = rw (q, on_call) tt
        go (some line) q none r p = elim p [ ]
        go (some line) q (some name) r p =
            rw (q, r, on_call) ((call_named-Returns name i line w p).is_ok)

    handle-IsOk : (i : L.Inst) (w : L.World) → IsReadable L i → IsOk (handle h file i w)
    unfolding handle on_store on_load
    handle-IsOk i w p = go (L.opcode i) refl p
      where
        go :
            (o : Opcode)
            → L.opcode i ≡ o
            → IfKnown L (L.debug_line i) (HasOperands L invoke_rules (some call_rules) o i)
            → IsOk (handle h file i w)
        go store q p =
            rw (q, handle) (before-IsOk (on_store h file i) w (Ends-log_access h typed file 1 i p))
        go load q p =
            rw (q, handle) (after-IsOk (on_load h file i) w (Ends-log_access h typed file 0 i p))
        go invoke q p = rw (q, handle) (before-IsOk (on_invoke h file i) w (Ends-on_invoke i p))
        go call q p = rw (q, handle) (on_call-IsOk i w p)
        go other q p = rw (q, handle) tt

    walk_blocks-IsOk :
        (bs : List (List L.Inst)) (w : L.World)
        → All (All (IsReadable L)) bs
        → IsOk (walk_blocks h file bs w)
    unfolding walk_blocks
    walk_blocks-IsOk [] w p = tt
    walk_blocks-IsOk (b ∷ bs) w (p, ps) =
        bind-IsOk (walk (handle h file) b w) _
          (subst IsOk (sym (walk-handle h file law named b w))
            (annotate-IsOk (handle h file) (IsReadable L) handle-IsOk b w p))
          (λ (b', w'). bind-IsOk (walk_blocks h file bs w') _ (walk_blocks-IsOk bs w' ps) (λ a. tt))

  -- If LLVM behaves as documented, and the pass is initialized with a `p_probe` that calls
  -- `_probe_` and with the type of byte pointers, and every instruction of a function that has a
  -- line of the source has the operands that its probe needs, of types that the casts and the steps
  -- into a guard are valid for, and, if it is an invoke or a call, a known function, then the part
  -- of `run` behind its second `return`, on the function at its index in the module, ends without a
  -- fault.
  pub run_instrument-ends :
      (st : State L) (m : Module L) (k : ℕ) (f : Function L)
      → get_elem? m.functions k ≡ some f
      → st.initial ≡ true
      → st.hooks ≡ some h
      → All (All (IsReadable L)) f.blocks
      → (o : Outcome L) × (run_instrument st m k ≡ ok o)
  unfolding run_instrument ensure_initialized
  run_instrument-ends st m k f present initialized hooked readable =
      go (walk_blocks h (file_path f.metadata) f.blocks m.world)
        (walk_blocks-IsOk (file_path f.metadata) f.blocks m.world readable) reduced
    where
      reduced :
          run_instrument st m k
          ≡ bind
              (walk_blocks h (file_path f.metadata) f.blocks m.world)
              (λ done. ok (instrumented st (init_message st) m k f done))
      reduced = ground arith

      go :
          (r : Result (List (List L.Inst) × L.World))
          → IsOk r
          → run_instrument st m k
            ≡ bind r (λ done. ok (instrumented st (init_message st) m k f done))
          → (o : Outcome L) × (run_instrument st m k ≡ ok o)
      go (ok done) p e = (_, e)
      go (fault e') p e = elim p [ ]
