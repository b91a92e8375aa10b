-- ===== src/Growth/Passes.antt =====
-- The size of a block after the loop of either pass.
use atomicity_violation.Base.{
  ℕ, ◌≡◌, refl, sym, subst, ◌&&◌, Option, none, some, List, arith, Bytes, codes,
}
use atomicity_violation.Base.Result.{need, null_callee, pure, ◌>>=◌}
use atomicity_violation.Text.{mentions}
use atomicity_violation.Llvm.{Llvm, IsLawful, Opcode, store, load, invoke, call, other}
use atomicity_violation.Llvm.Builder.{Build}
use atomicity_violation.Pass.{Hooks, log_access}
use atomicity_violation.Pass.Walk.{walk}
use atomicity_violation.HelloWorld.Memory.{on_store, on_load}
use atomicity_violation.HelloWorld.Locks.{on_invoke, invoke_named, on_call, call_named}
use atomicity_violation.HelloWorld.Handle.{handle}
use atomicity_violation.HelloWorld.Handle.Laws.{walk-handle}
use atomicity_violation.FunctionPass.Handle.{store_log, load_log, invoke_log, lock_operation, visit}
use atomicity_violation.FunctionPass.Handle.Laws.{walk-visit}
use atomicity_violation.Growth.Build.{
  Grows, Grows-le, Grows-pure, Grows-need, Grows-bind, Grows-if, Grows-log_access,
  Grows-log_argument, Grows-log_guard, Grows-log_guard_field,
}
use atomicity_violation.Growth.Blocks.{
  Bounded, IsSmall, IsSmall-nothing, IsSmall-before, IsSmall-after, IsSmall-if, annotate-Bounded,
}

module _ {L : Llvm} (law : IsLawful L) (h : Hooks L) (file : Bytes) where
  Grows-access : (n : ℕ) (i : L.Inst) → Grows 5 (log_access h file n i)
  Grows-access n i = Grows-le 2 5 (omega arith) (Grows-log_access law h file n i)

  Grows-invoke_named :
      (name : Bytes) (i : L.Inst) (line : ℕ) → Grows 5 (invoke_named h file name i line)
  unfolding invoke_named
  Grows-invoke_named name i line = Grows-if 5 _ (Grows-log_argument law h file 1 "lock" i line) (
      Grows-if 5 _ (Grows-log_guard_field law h file "unlock" i line) (
        Grows-if 5 _ (Grows-log_argument law h file 0 "invoke - rwlock read lock" i line) (
          Grows-if 5 _ (Grows-log_guard law h file "invoke - rwlock read unlock" i line) (
            Grows-if 5 _ (Grows-log_argument law h file 1 "invoke - rwlock write lock" i line) (
              Grows-if 5 _ (Grows-log_guard_field law h file "invoke - rwlock write unlock" i line)
                (Grows-le 0 5 (omega arith) (Grows-pure tt)))))))

  Grows-lock_operation :
      (name : Bytes) (i : L.Inst) (line : ℕ) → Grows 5 (lock_operation h file name i line)
  unfolding lock_operation
  Grows-lock_operation name i line = Grows-if 5 _ (Grows-log_argument law h file 1 "lock" i line) (
      Grows-if 5 _ (Grows-log_guard_field law h file "unlock" i line) (
        Grows-if 5 _ (Grows-log_argument law h file 0 "rwlock read lock" i line) (
          Grows-if 5 _ (Grows-log_guard law h file "rwlock read unlock" i line) (
            Grows-if 5 _ (Grows-log_argument law h file 1 "rwlock write lock" i line) (
              Grows-if 5 _ (Grows-log_guard_field law h file "rwlock write unlock" i line)
                (Grows-le 0 5 (omega arith) (Grows-pure tt)))))))

  -- An invoke without a debug location is left alone.
  abbrev by_name : Option ℕ → Option Bytes → (Bytes → ℕ → Build L (Unit {0})) → Build L (Unit {0})
  by_name d f m = elim d as (λ _. Build L (Unit {0})) [
    | none ↦ pure tt
    | some line ↦ need null_callee f >>= λ name. m name line
  ]

  Grows-by_name :
      (d : Option ℕ) (f : Option Bytes) (m : Bytes → ℕ → Build L (Unit {0}))
      → ((name : Bytes) (line : ℕ) → Grows 5 (m name line))
      → Grows 5 (by_name d f m)
  Grows-by_name none f m g = Grows-le 0 5 (omega arith) (Grows-pure tt)
  Grows-by_name (some line) f m g =
      Grows-bind 0 5 _ (λ name. m name line) (Grows-need null_callee f) λ name. g name line

  call_named-IsSmall :
      (name : Bytes) (i : L.Inst) (line : ℕ) (w : L.World)
      → IsSmall (call_named h file name i line w)
  unfolding call_named
  call_named-IsSmall name i line w =
      IsSmall-if _
        (IsSmall-before _ w (Grows-log_argument law h file 1 "call - rwlock write lock" i line))
        (IsSmall-if _
          (IsSmall-before _ w (Grows-log_argument law h file 0 "call - rwlock read lock" i line))
          (IsSmall-if _
            (IsSmall-before _ w (Grows-log_guard law h file "call - rwlock read unlock" i line))
            (IsSmall-if _
              (IsSmall-before _ w
                (Grows-log_guard_field law h file "call - rwlock write unlock" i line))
              (IsSmall-if (mentions name "core4sync6atomic" && mentions name "Atomic")
                (record { insertions = tt }) (IsSmall-nothing w)))))

  handle-IsSmall : (i : L.Inst) (w : L.World) → IsSmall (handle h file i w)
  unfolding handle on_store on_load on_invoke on_call
  handle-IsSmall i w = go (L.opcode i) refl (L.debug_line i) refl (L.called_function i) refl
    where
      go :
          (o : Opcode)
          → L.opcode i ≡ o
          → (d : Option ℕ) → L.debug_line i ≡ d
          → (f : Option Bytes) → L.called_function i ≡ f
          → IsSmall (handle h file i w)
      go store o d q f p = rw (o, handle) (IsSmall-before (on_store h file i) w (Grows-access 1 i))
      go load o d q f p = rw (o, handle) (IsSmall-after (on_load h file i) w (Grows-access 0 i))
      go invoke o d q f p =
          rw (o, handle)
            (IsSmall-before (on_invoke h file i) w (
              Grows-by_name (L.debug_line i) (L.called_function i)
                (λ name line. invoke_named h file name i line)
                (λ name line. Grows-invoke_named name i line)))
      go call o none q f p = rw (o, q, handle, on_call) (IsSmall-nothing w)
      go call o (some line) q none p = rw (o, q, p, handle, on_call) (record { insertions = tt })
      go call o (some line) q (some name) p =
          rw (o, q, p, handle, on_call) (call_named-IsSmall name i line w)
      go other o d q f p = rw (o, handle) (IsSmall-nothing w)

  visit-IsSmall : (i : L.Inst) (w : L.World) → IsSmall (visit h file i w)
  unfolding visit store_log load_log invoke_log
  visit-IsSmall i w = go (L.opcode i) refl
    where
      go : (o : Opcode) → L.opcode i ≡ o → IsSmall (visit h file i w)
      go store o = rw (o, visit) (IsSmall-before (store_log h file i) w (Grows-access 1 i))
      go load o = rw (o, visit) (IsSmall-after (load_log h file i) w (Grows-access 0 i))
      go invoke o =
          rw (o, visit)
            (IsSmall-before (invoke_log h file i) w (
              Grows-by_name (L.debug_line i) (L.called_function i)
                (λ name line. lock_operation h file name i line)
                (λ name line. Grows-lock_operation name i line)))
      go call o = rw (o, visit) (IsSmall-nothing w)
      go other o = rw (o, visit) (IsSmall-nothing w)

  -- If LLVM behaves as documented and `p_probe` calls `_probe_`, the loop of either pass over a
  -- block, if it ends without a fault, leaves at most six instructions for each of the block's.
  pub length-walk :
      L.callee_name h.p_probe ≡ some (codes "_probe_")
      → (block : List L.Inst) (w : L.World)
      → Bounded L block (walk (handle h file) block w)
        × Bounded L block (walk (visit h file) block w)
  length-walk named block w = (
    subst (Bounded L block) (sym (walk-handle h file law named block w))
        (annotate-Bounded (handle h file) handle-IsSmall block w),
    subst (Bounded L block) (sym (walk-visit h file law named block w))
        (annotate-Bounded (visit h file) visit-IsSmall block w),
  )
