-- ===== src/Events/FunctionPass.antt =====
-- The probes that HelloWorld/function.cpp inserts into a block.
use atomicity_violation.Base.{
  ℕ, ◌≡◌, refl, sym, ◌∙◌, subst, false, Option, none, some, List, [], Bytes,
}
use atomicity_violation.Base.Result.{ok}
use atomicity_violation.Llvm.{Llvm, IsLawful, Opcode, store, load, invoke, call, other}
use atomicity_violation.Llvm.Reading.{Reading, IsFaithful}
use atomicity_violation.Pass.{Hooks, log_access}
use atomicity_violation.Pass.Walk.{walk}
use atomicity_violation.FunctionPass.Handle.{store_log, load_log, invoke_log, lock_operation, visit}
use atomicity_violation.FunctionPass.Handle.Laws.{walk-visit}
use atomicity_violation.FunctionPass.Handle.Probes.{is_logged, visit-Comes}
use atomicity_violation.Events.Seen.{seen}
use atomicity_violation.Events.Emits.{Emits, Emits-if, Emits-pure}
use atomicity_violation.Events.Probes.{IsReady}
use atomicity_violation.Events.Due.{mangled_rules, due_by, due_at}
use atomicity_violation.Events.Operations.{
  Emits-log_access, Emits-log_argument, Emits-log_guard, Emits-log_guard_field,
}
use atomicity_violation.Events.Blocks.{
  Shows, Shows-nothing, Shows-before, Shows-after, IsUnprobed, due_block, SeenDue, annotate-SeenDue,
}

module _ {L : Llvm} (R : Reading L) (law : IsLawful L) (faithful : IsFaithful L R) (h : Hooks L)
    (is_ready : IsReady L h) (fname : Bytes) where
  Emits-lock_operation :
      (name : Bytes) (i : L.Inst) (line : ℕ)
      → Emits R
          (due_by R fname mangled_rules name i line)
          (λ _. Unit)
          (lock_operation h fname name i line)
  unfolding lock_operation
  Emits-lock_operation name i line =
      Emits-if R _ (Emits-log_argument R law faithful h is_ready fname 1 "lock" i line) (
        Emits-if R _ (Emits-log_guard_field R law faithful h is_ready fname "unlock" i line) (
          Emits-if R _
            (Emits-log_argument R law faithful h is_ready fname 0 "rwlock read lock" i line)
            (Emits-if R _
              (Emits-log_guard R law faithful h is_ready fname "rwlock read unlock" i line)
              (Emits-if R _
                (Emits-log_argument R law faithful h is_ready fname 1 "rwlock write lock" i line)
                (Emits-if R _
                  (Emits-log_guard_field R law faithful h is_ready fname "rwlock write unlock" i
                    line)
                  (Emits-pure R))))))

  visit-Shows :
      (i : L.Inst) (w : L.World) → Shows R (due_at R fname mangled_rules [] i) (visit h fname i w)
  unfolding due_at visit store_log load_log invoke_log log_access
  visit-Shows i w = go (L.opcode i) refl (L.debug_line i) refl (L.called_function i) refl
    where
      go :
          (o : Opcode)
          → L.opcode i ≡ o
          → (d : Option ℕ) → L.debug_line i ≡ d
          → (f : Option Bytes) → L.called_function i ≡ f
          → Shows R (due_at R fname mangled_rules [] i) (visit h fname i w)
      go store o none q f p = rw (o, q, due_at, visit, store_log, log_access) (Shows-nothing R w)
      go store o (some line) q f p =
          rw (o, q, due_at, visit)
            (Shows-before R _ (store_log h fname i) w
              (Emits-log_access R law faithful h is_ready fname 1 i line q))
      go load o none q f p = rw (o, q, due_at, visit, load_log, log_access) (Shows-nothing R w)
      go load o (some line) q f p =
          rw (o, q, due_at, visit)
            (Shows-after R _ (load_log h fname i) w
              (Emits-log_access R law faithful h is_ready fname 0 i line q))
      go invoke o none q f p = rw (o, q, due_at, visit, invoke_log) (Shows-nothing R w)
      go invoke o (some line) q none p =
          rw (o, q, p, due_at, visit, invoke_log) (record { insertions = tt })
      go invoke o (some line) q (some name) p =
          rw (o, q, p, due_at, visit, invoke_log)
            (Shows-before R _ (lock_operation h fname name i line) w
              (Emits-lock_operation name i line))
      go call o none q f p = rw (o, q, due_at, visit) (Shows-nothing R w)
      go call o (some line) q none p = rw (o, q, p, due_at, visit) (Shows-nothing R w)
      go call o (some line) q (some name) p = rw (o, q, p, due_at, visit) (Shows-nothing R w)
      go other o d q f p = rw (o, due_at, visit) (Shows-nothing R w)

  -- If LLVM behaves as documented and the pass is initialized, a loop of function.cpp over a block
  -- without calls of probes that ends without a fault leaves a block whose calls of probes are
  -- those that the table asks for at its instructions, in their order: each passes the line, the
  -- function's name and the operation, and an address that comes from the operand, or from the
  -- lock, of its instruction.
  pub walk-visit-due_block :
      (block : List L.Inst) (w : L.World) (block' : List L.Inst) (w' : L.World)
      → IsUnprobed R block
      → walk (visit h fname) block w ≡ ok (block', w')
      → seen R block' ≡ due_block R (λ i. false) (due_at R fname mangled_rules []) block
  walk-visit-due_block block w block' w' u done =
      subst (SeenDue R (λ i. false) (due_at R fname mangled_rules []) block)
        (sym (walk-visit h fname law is_ready.p_probe block w) ∙ done)
        (annotate-SeenDue R (λ i. false) (due_at R fname mangled_rules []) (visit h fname)
          (is_logged L) (visit-Comes law h fname) visit-Shows block w u)
