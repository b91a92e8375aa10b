-- ===== src/Events/HelloWorld.antt =====
-- The probes that HelloWorld/HelloWorld.cpp inserts into a block.
use atomicity_violation.Base.{
  ℕ, ◌≡◌, refl, sym, ◌∙◌, subst, Bool, true, false, Option, none, some, List, [], Bytes, ◌&&◌,
  if◌then◌else◌,
}
use atomicity_violation.Base.Result.{ok}
use atomicity_violation.Text.{mentions}
use atomicity_violation.Llvm.{Llvm, IsLawful, Opcode, store, load, invoke, call, other}
use atomicity_violation.Llvm.Reading.{Reading, IsFaithful}
use atomicity_violation.Pass.{next, leave, Hooks, log_access}
use atomicity_violation.Pass.Walk.{walk}
use atomicity_violation.HelloWorld.Memory.{on_store, on_load}
use atomicity_violation.HelloWorld.Locks.{on_invoke, invoke_named, on_call, call_named}
use atomicity_violation.HelloWorld.Handle.{handle}
use atomicity_violation.HelloWorld.Handle.Laws.{walk-handle}
use atomicity_violation.HelloWorld.Handle.Probes.{is_traced, is_break, handle-Comes}
use atomicity_violation.Events.Seen.{seen}
use atomicity_violation.Events.Emits.{Emits, Emits-if, Emits-pure}
use atomicity_violation.Events.Probes.{IsReady}
use atomicity_violation.Events.Due.{invoke_rules, call_rules, due_by, due_at}
use atomicity_violation.Events.Operations.{
  Emits-log_access, Emits-log_argument, Emits-log_guard, Emits-log_guard_field,
}
use atomicity_violation.Events.Blocks.{
  Shows, Shows-nothing, Shows-before, Shows-after, Shows-if, IsUnprobed, due_block, SeenDue,
  annotate-SeenDue,
}

module _ {L : Llvm} (R : Reading L) (law : IsLawful L) (faithful : IsFaithful L R) (h : Hooks L)
    (is_ready : IsReady L h) (file : Bytes) where
  Emits-invoke_named :
      (name : Bytes) (i : L.Inst) (line : ℕ)
      → Emits R
          (due_by R file invoke_rules name i line)
          (λ _. Unit)
          (invoke_named h file name i line)
  unfolding invoke_named
  Emits-invoke_named name i line =
      Emits-if R _ (Emits-log_argument R law faithful h is_ready file 1 "lock" i line) (
        Emits-if R _ (Emits-log_guard_field R law faithful h is_ready file "unlock" i line) (
          Emits-if R _
            (Emits-log_argument R law faithful h is_ready file 0 "invoke - rwlock read lock" i line)
            (Emits-if R _
              (Emits-log_guard R law faithful h is_ready file "invoke - rwlock read unlock" i line)
              (Emits-if R _
                (Emits-log_argument R law faithful h is_ready file 1 "invoke - rwlock write lock" i
                  line)
                (Emits-if R _
                  (Emits-log_guard_field R law faithful h is_ready file
                    "invoke - rwlock write unlock" i line)
                  (Emits-pure R))))))

  call_named-Shows :
      (name : Bytes) (i : L.Inst) (line : ℕ) (w : L.World)
      → Shows R (due_by R file call_rules name i line) (call_named h file name i line w)
  unfolding call_named
  call_named-Shows name i line w =
      Shows-if R _ _ _ _ w _
        (Emits-log_argument R law faithful h is_ready file 1 "call - rwlock write lock" i line)
        (Shows-if R _ _ _ _ w _
          (Emits-log_argument R law faithful h is_ready file 0 "call - rwlock read lock" i line)
          (Shows-if R _ _ _ _ w _
            (Emits-log_guard R law faithful h is_ready file "call - rwlock read unlock" i line)
            (Shows-if R _ _ _ _ w _
              (Emits-log_guard_field R law faithful h is_ready file "call - rwlock write unlock" i
                line)
              (last (mentions name "core4sync6atomic" && mentions name "Atomic")))))
    where
      last : (c : Bool) → Shows R [] (if c then ok leave else ok (next [] [] w))
      last true = record { insertions = tt }
      last false = Shows-nothing R w

  handle-Shows :
      (i : L.Inst) (w : L.World)
      → Shows R (due_at R file invoke_rules call_rules i) (handle h file i w)
  unfolding due_at handle on_store on_load on_invoke on_call log_access
  handle-Shows i w = go (L.opcode i) refl (L.debug_line i) refl (L.called_function i) refl
    where
      go :
          (o : Opcode)
          → L.opcode i ≡ o
          → (d : Option ℕ) → L.debug_line i ≡ d
          → (f : Option Bytes) → L.called_function i ≡ f
          → Shows R (due_at R file invoke_rules call_rules i) (handle h file i w)
      go store o none q f p = rw (o, q, due_at, handle, on_store, log_access) (Shows-nothing R w)
      go store o (some line) q f p =
          rw (o, q, due_at, handle)
            (Shows-before R _ (on_store h file i) w
              (Emits-log_access R law faithful h is_ready file 1 i line q))
      go load o none q f p = rw (o, q, due_at, handle, on_load, log_access) (Shows-nothing R w)
      go load o (some line) q f p =
          rw (o, q, due_at, handle)
            (Shows-after R _ (on_load h file i) w
              (Emits-log_access R law faithful h is_ready file 0 i line q))
      go invoke o none q f p = rw (o, q, due_at, handle, on_invoke) (Shows-nothing R w)
      go invoke o (some line) q none p =
          rw (o, q, p, due_at, handle, on_invoke) (record { insertions = tt })
      go invoke o (some line) q (some name) p =
          rw (o, q, p, due_at, handle, on_invoke)
            (Shows-before R _ (invoke_named h file name i line) w (Emits-invoke_named name i line))
      go call o none q f p = rw (o, q, due_at, handle, on_call) (Shows-nothing R w)
      go call o (some line) q none p =
          rw (o, q, p, due_at, handle, on_call) (record { insertions = tt })
      go call o (some line) q (some name) p =
          rw (o, q, p, due_at, handle, on_call) (call_named-Shows name i line w)
      go other o d q f p = rw (o, due_at, handle) (Shows-nothing R w)

  -- If LLVM behaves as documented and the pass is initialized, a loop over a block without calls of
  -- probes that ends without a fault leaves a block whose calls of probes are those that the tables
  -- ask for at its instructions before the first atomic operation, in their order: each passes the
  -- line, the file's path and the operation, and an address that comes from the operand, or from
  -- the lock, of its instruction.
  pub walk-due_block :
      (block : List L.Inst) (w : L.World) (block' : List L.Inst) (w' : L.World)
      → IsUnprobed R block
      → walk (handle h file) block w ≡ ok (block', w')
      → seen R block' ≡ due_block R (is_break L) (due_at R file invoke_rules call_rules) block
  walk-due_block block w block' w' u done =
      subst (SeenDue R (is_break L) (due_at R file invoke_rules call_rules) block)
        (sym (walk-handle h file law is_ready.p_probe block w) ∙ done)
        (annotate-SeenDue R (is_break L) (due_at R file invoke_rules call_rules) (handle h file)
          (is_traced L) (handle-Comes law h file) handle-Shows block w u)
