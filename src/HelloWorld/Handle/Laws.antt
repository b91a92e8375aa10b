-- ===== src/HelloWorld/Handle/Laws.antt =====
-- The handler and the loop that visits what it inserts.
use atomicity_violation.Base.{
  ℕ, ◌≡◌, refl, Option, none, some, List, [], Bool, true, false, if◌then◌else◌, Bytes, codes,
}
use atomicity_violation.Base.Result.{Result, ok}
use atomicity_violation.Text.{mentions}
use atomicity_violation.Llvm.{Llvm, IsLawful, Opcode, store, load, invoke, call, other}
use atomicity_violation.Llvm.Builder.{Build}
use atomicity_violation.Pass.{Action, next, Hooks, before}
use atomicity_violation.Pass.Walk.{walk}
use atomicity_violation.Pass.Walk.Laws.{annotate, IsInert, walk-annotate}
use atomicity_violation.Pass.Inert.{
  IsQuiet, IsQuiet-InsertsInert, nothing-IsQuiet, leave-IsQuiet, before-IsQuiet,
  after-log_access-IsQuiet,
}
use atomicity_violation.HelloWorld.Memory.{on_load, on_store}
use atomicity_violation.HelloWorld.Locks.{
  on_invoke, on_call, call_named, call_write, call_read, call_read_unlock, call_write_unlock,
}
use atomicity_violation.HelloWorld.Handle.{handle}

module _ {L : Llvm} (h : Hooks L) (file : Bytes) where
  -- An instruction of an opcode that the handler does not name is left alone.
  pub other-IsInert : (i : L.Inst) → L.opcode i ≡ other → IsInert (handle h file) i
  unfolding handle
  other-IsInert i e w = rw (e, handle)

  -- A call that the tests on the name leave alone.
  called-IsInert :
      (name : Bytes) (i : L.Inst)
      → L.opcode i ≡ call
      → L.called_function i ≡ some name
      → ((line : ℕ) (w : L.World) → call_named h file name i line w ≡ ok (next [] [] w))
      → IsInert (handle h file) i
  unfolding handle
  called-IsInert name i e f none_match w = rw (e, handle) (go (L.debug_line i) refl)
    where
      go : (d : Option ℕ) → L.debug_line i ≡ d → on_call h file i w ≡ ok (next [] [] w)
      go none q = rw (q, on_call)
      go (some line) q = rw (q, f, on_call) (none_match line w)

  -- A call of `_probe_` is left alone.
  pub probe-IsInert :
      (i : L.Inst)
      → L.opcode i ≡ call
      → L.called_function i ≡ some (codes "_probe_")
      → IsInert (handle h file) i
  unfolding call_named mentions
  probe-IsInert i e f = called-IsInert (codes "_probe_") i e f (λ line w. refl)

  -- So is a call of `_init_`.
  pub init-IsInert :
      (i : L.Inst)
      → L.opcode i ≡ call
      → L.called_function i ≡ some (codes "_init_")
      → IsInert (handle h file) i
  unfolding call_named mentions
  init-IsInert i e f = called-IsInert (codes "_init_") i e f (λ line w. refl)

  if-IsQuiet :
      (b : Bool) {x y : Result (Action L)}
      → IsQuiet (handle h file) x
      → IsQuiet (handle h file) y
      → IsQuiet (handle h file) (if b then x else y)
  if-IsQuiet true p q = p
  if-IsQuiet false p q = q

  IsQuiet-before : (m : Build L (Unit {0})) (w : L.World) → IsQuiet (handle h file) (before m w)
  IsQuiet-before m w = before-IsQuiet (handle h file) m w

  call_named-IsQuiet :
      (name : Bytes) (i : L.Inst) (line : ℕ) (w : L.World)
      → IsQuiet (handle h file) (call_named h file name i line w)
  unfolding call_named
  call_named-IsQuiet name i line w = if-IsQuiet _ (IsQuiet-before (call_write h file i line) w) (
      if-IsQuiet _ (IsQuiet-before (call_read h file i line) w) (
        if-IsQuiet _ (IsQuiet-before (call_read_unlock h file i line) w) (
          if-IsQuiet _ (IsQuiet-before (call_write_unlock h file i line) w)
            (if-IsQuiet _ (leave-IsQuiet (handle h file)) (nothing-IsQuiet (handle h file) w)))))

  on_call-IsQuiet : (i : L.Inst) (w : L.World) → IsQuiet (handle h file) (on_call h file i w)
  unfolding on_call
  on_call-IsQuiet i w = go (L.debug_line i) refl (L.called_function i) refl
    where
      go :
          (d : Option ℕ)
          → L.debug_line i ≡ d
          → (f : Option Bytes) → L.called_function i ≡ f
          → IsQuiet (handle h file) (on_call h file i w)
      go none q f p = rw (q, on_call) (nothing-IsQuiet (handle h file) w)
      go (some line) q none p = rw (q, p, on_call) (record { insertions = tt })
      go (some line) q (some name) p = rw (q, p, on_call) (call_named-IsQuiet name i line w)

  module _ (law : IsLawful L) (named : L.callee_name h.p_probe ≡ some (codes "_probe_")) where
    handle-IsQuiet : (i : L.Inst) (w : L.World) → IsQuiet (handle h file) (handle h file i w)
    unfolding handle on_load
    handle-IsQuiet i w = go (L.opcode i) refl
      where
        go : (o : Opcode) → L.opcode i ≡ o → IsQuiet (handle h file) (handle h file i w)
        go store q = rw (q, handle) (IsQuiet-before (on_store h file i) w)
        go load q =
            rw (q, handle)
              (after-log_access-IsQuiet (handle h file) law h named other-IsInert probe-IsInert file
                0 i w)
        go invoke q = rw (q, handle) (IsQuiet-before (on_invoke h file i) w)
        go call q = rw (q, handle) (on_call-IsQuiet i w)
        go other q = rw (q, handle) (nothing-IsQuiet (handle h file) w)

    -- If LLVM behaves as documented and `p_probe` calls `_probe_`, the loop over a block, which
    -- visits what it inserts behind an instruction, has the result of a pass over the original
    -- instructions alone.
    pub walk-handle :
        (block : List L.Inst) (w : L.World)
        → walk (handle h file) block w ≡ annotate (handle h file) block w
    walk-handle =
        walk-annotate (handle h file) (IsQuiet-InsertsInert (handle h file) handle-IsQuiet)
