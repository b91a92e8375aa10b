-- ===== src/FunctionPass/Readable/Laws.antt =====
-- A run of HelloWorld/function.cpp ends if it finds all operands that it reads.
use atomicity_violation.Base.{
  ℕ, ◌≡◌, refl, sym, subst, Bool-cases, inl, inr, true, Option, none, some, List, [], ◌∷◌, All,
  Bytes, codes, get_elem?,
}
use atomicity_violation.Llvm.{Llvm, IsLawful, Opcode, store, load, invoke, call, other}
use atomicity_violation.Llvm.Builder.{Builder}
use atomicity_violation.Pass.{Hooks}
use atomicity_violation.Pass.Walk.{walk}
use atomicity_violation.Pass.Init.{Function, Module, State}
use atomicity_violation.FunctionPass.Handle.{
  store_log, load_log, lock_log, release_log, rwlock_read_log, read_release_log, rwlock_write_log,
  write_release_log, lock_operation, invoke_log, visit,
}
use atomicity_violation.FunctionPass.Handle.Laws.{walk-visit}
use atomicity_violation.FunctionPass.Run.{is_foreign, visit_blocks, run_function}
use atomicity_violation.FunctionPass.Module.Laws.{foreign_run, local_run}
use atomicity_violation.FunctionPass.Readable.{IsReadable}
use atomicity_violation.Readable.{IsAddressing, HasLock, HasCallee, HasOperands, IfKnown}
use atomicity_violation.Readable.Blocks.{bind-IsOk, before-IsOk, after-IsOk, annotate-IsOk}
use atomicity_violation.Readable.Builds.{
  IsOk, Ends, Ends-if, Ends-pure, Ends-log_access, Ends-log_argument, Ends-log_guard,
  Ends-log_guard_field,
}
use atomicity_violation.Events.Due.{mangled_rules}

module _ {L : Llvm} (law : IsLawful L) (addressing : IsAddressing L) (h : Hooks L)
    (typed : h.ptr_ty ≡ L.int8_ptr_ty)
    (named : L.callee_name h.p_probe ≡ some (codes "_probe_")) where
  module _ (fname : Bytes) where
    Ends-lock_operation :
        (name : Bytes) (i : L.Inst) (line : ℕ)
        → HasLock L mangled_rules name i
        → Ends {L = L} (lock_operation h fname name i line)
    unfolding lock_operation lock_log release_log rwlock_read_log read_release_log rwlock_write_log
        write_release_log
    Ends-lock_operation name i line = Ends-if _ (Ends-log_argument h typed fname 1 "lock" i line) (
        Ends-if _ (Ends-log_guard_field h typed fname addressing "unlock" i line) (
          Ends-if _ (Ends-log_argument h typed fname 0 "rwlock read lock" i line) (
            Ends-if _ (Ends-log_guard h typed fname addressing "rwlock read unlock" i line) (
              Ends-if _ (Ends-log_argument h typed fname 1 "rwlock write lock" i line) (
                Ends-if _
                  (Ends-log_guard_field h typed fname addressing "rwlock write unlock" i line)
                  (λ u. Ends-pure))))))

    Ends-invoke_log :
        (i : L.Inst)
        → IfKnown L (L.debug_line i) (HasCallee L mangled_rules (L.called_function i) i)
        → Ends {L = L} (invoke_log h fname i)
    unfolding invoke_log
    Ends-invoke_log i p = record {
      each = λ b. go b (L.debug_line i) refl (L.called_function i) refl p;
    }
      where
        go :
            (b : Builder L) (d : Option ℕ)
            → L.debug_line i ≡ d
            → (f : Option Bytes) → L.called_function i ≡ f
            → IfKnown L d (HasCallee L mangled_rules f i)
            → IsOk (invoke_log h fname i b)
        go b none q f r p = rw (q, invoke_log) tt
        go b (some line) q none r p = elim p [ ]
        go b (some line) q (some name) r p =
            rw (q, r, invoke_log) ((Ends-lock_operation name i line p).each b)

    visit-IsOk : (i : L.Inst) (w : L.World) → IsReadable L i → IsOk (visit h fname i w)
    unfolding visit store_log load_log
    visit-IsOk i w p = go (L.opcode i) refl p
      where
        go :
            (o : Opcode)
            → L.opcode i ≡ o
            → IfKnown L (L.debug_line i) (HasOperands L mangled_rules none o i)
            → IsOk (visit h fname i w)
        go store q p =
            rw (q, visit)
              (before-IsOk (store_log h fname i) w (Ends-log_access h typed fname 1 i p))
        go load q p =
            rw (q, visit) (after-IsOk (load_log h fname i) w (Ends-log_access h typed fname 0 i p))
        go invoke q p = rw (q, visit) (before-IsOk (invoke_log h fname i) w (Ends-invoke_log i p))
        go call q p = rw (q, visit) tt
        go other q p = rw (q, visit) tt

    visit_blocks-IsOk :
        (bs : List (List L.Inst)) (w : L.World)
        → All (All (IsReadable L)) bs
        → IsOk (visit_blocks h fname bs w)
    unfolding visit_blocks
    visit_blocks-IsOk [] w p = tt
    visit_blocks-IsOk (b ∷ bs) w (p, ps) =
        bind-IsOk (walk (visit h fname) b w) _
          (subst IsOk (sym (walk-visit h fname law named b w))
            (annotate-IsOk (visit h fname) (IsReadable L) visit-IsOk b w p))
          (λ (b', w').
            bind-IsOk (visit_blocks h fname bs w') _ (visit_blocks-IsOk bs w' ps) (λ a. tt))

  pub run_function-IsOk :
      (st : State L) (m : Module L) (k : ℕ) (f : Function L)
      → get_elem? m.functions k ≡ some f
      → st.initial ≡ true
      → st.hooks ≡ some h
      → All (All (IsReadable L)) f.blocks
      → IsOk (run_function st m k)
  run_function-IsOk st m k f present initialized hooked readable =
      elim (Bool-cases (is_foreign m.name f.name)) [
        | inl skipped ↦ subst IsOk (sym (foreign_run st m k f present skipped)) tt
        | inr targeted ↦
            subst IsOk (sym (local_run st m k f h present initialized hooked targeted)) (
              bind-IsOk (visit_blocks h f.name f.blocks m.world) _
                (visit_blocks-IsOk f.name f.blocks m.world readable) (λ a. tt))
      ]
