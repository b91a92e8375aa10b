-- ===== src/FunctionPass/Handle/Probes.antt =====
-- How many probes HelloWorld/function.cpp inserts.
use Prim.Native.String.{String}
use atomicity_violation.Base.{
  ℕ, ◌+◌, ◌≡◌, refl, sym, ◌∙◌, subst, ◌⊎◌, inl, inr, Bool, true, false, ◌&&◌, Option, none, some,
  List, [], ◌∷◌, ◌++◌, arith, Bytes, codes, if◌then◌else◌,
}
use atomicity_violation.Base.Result.{Fault, Result, ok, fault, null_callee}
use atomicity_violation.Llvm.{Llvm, IsLawful, Opcode, store, load, invoke, call, other}
use atomicity_violation.Pass.{Action, next, leave, Hooks, log_access}
use atomicity_violation.Pass.Walk.{walk, prepend}
use atomicity_violation.Pass.Walk.Laws.{annotate}
use atomicity_violation.Pass.Calls.{
  calls, Adds, Adds-if, Adds-pure, Adds-log_access, Adds-log_argument, Adds-log_guard,
  Adds-log_guard_field, IsOperandFault,
}
use atomicity_violation.HelloWorld.Handle.Probes.{
  mentions_any, has_line, names, Outcome, Comes, before-Comes, after-Comes, Comes-nothing,
}
use atomicity_violation.HelloWorld.Handle.Blocks.{calls_around}
use atomicity_violation.FunctionPass.Handle.{store_log, load_log, invoke_log, lock_operation, visit}
use atomicity_violation.FunctionPass.Handle.Laws.{walk-visit}

abbrev pub mangled_patterns : List String
mangled_patterns =
    "_ZN3std4sync5mutex14Mutex$LT$T$GT$4lock"
    ∷ "_ZN4core3ptr60drop_in_place$LT$std..sync..mutex..MutexGuard"
    ∷ "_ZN3std4sync6rwlock15RwLock$LT$T$GT$4read"
    ∷ "_ZN4core3ptr66drop_in_place$LT$std..sync..rwlock..RwLockReadGuard"
    ∷ "_ZN3std4sync6rwlock15RwLock$LT$T$GT$5write"
    ∷ "_ZN4core3ptr67drop_in_place$LT$std..sync..rwlock..RwLockWriteGuard" ∷ []

module _ (L : Llvm) where
  -- Whether the instruction is probed: an access to memory, or an invoked lock operation, that the
  -- source has a line for.
  unfoldable pub is_logged : L.Inst → Bool
  is_logged i = has_line (L.debug_line i) && elim (L.opcode i) [
    | store ↦ true
    | load ↦ true
    | invoke ↦ names (mentions_any mangled_patterns) (L.called_function i)
    | call ↦ false
    | other ↦ false
  ]

  -- The probes that are due in a block.
  unfoldable pub log_count : List L.Inst → ℕ
  log_count [] = 0
  log_count (i ∷ rest) = (if is_logged i then 1 else 0) + log_count rest

  abbrev LogOutcome : List L.Inst → Result (List L.Inst × L.World) → Type 0
  LogOutcome block (ok (block', w)) = calls L block' ≡ calls L block + log_count block
  LogOutcome block (fault e) = IsOperandFault e ⊎ (e ≡ null_callee)

module _ {L : Llvm} (law : IsLawful L) (h : Hooks L) (fname : Bytes) where
  Adds-lock_operation :
      (name : Bytes) (i : L.Inst) (line : ℕ)
      → Adds
          (if mentions_any mangled_patterns name then 1 else 0)
          (lock_operation h fname name i line)
  unfolding lock_operation
  Adds-lock_operation name i line = Adds-if _ _ (Adds-log_argument law h fname 1 "lock" i line) (
      Adds-if _ _ (Adds-log_guard_field law h fname "unlock" i line) (
        Adds-if _ _ (Adds-log_argument law h fname 0 "rwlock read lock" i line) (
          Adds-if _ _ (Adds-log_guard law h fname "rwlock read unlock" i line) (
            Adds-if _ _ (Adds-log_argument law h fname 1 "rwlock write lock" i line) (
              Adds-if _ false (Adds-log_guard_field law h fname "rwlock write unlock" i line)
                (Adds-pure tt))))))

  pub visit-Comes :
      (i : L.Inst) (w : L.World)
      → Comes (is_logged L i) false (L.called_function i) (visit h fname i w)
  unfolding is_logged visit store_log load_log invoke_log log_access
  visit-Comes i w = go (L.opcode i) refl (L.debug_line i) refl (L.called_function i) refl
    where
      go :
          (o : Opcode)
          → L.opcode i ≡ o
          → (d : Option ℕ) → L.debug_line i ≡ d
          → (f : Option Bytes) → L.called_function i ≡ f
          → Comes (is_logged L i) false (L.called_function i) (visit h fname i w)
      go store o none q f p =
          rw (o, q, is_logged, visit, store_log, log_access) (Comes-nothing w (L.called_function i))
      go store o (some line) q f p =
          rw (o, q, is_logged, visit)
            (before-Comes true (L.called_function i) (store_log h fname i) w
              (Adds-log_access law h fname 1 i q))
      go load o none q f p =
          rw (o, q, is_logged, visit, load_log, log_access) (Comes-nothing w (L.called_function i))
      go load o (some line) q f p =
          rw (o, q, is_logged, visit)
            (after-Comes true (L.called_function i) (load_log h fname i) w
              (Adds-log_access law h fname 0 i q))
      go invoke o none q f p =
          rw (o, q, is_logged, visit, invoke_log) (Comes-nothing w (L.called_function i))
      go invoke o (some line) q none p =
          rw (o, q, p, is_logged, visit, invoke_log) (record { outcome = (refl, inr (refl, refl)) })
      go invoke o (some line) q (some name) p =
          rw (o, q, p, is_logged, visit, invoke_log)
            (before-Comes (mentions_any mangled_patterns name) (some name)
              (lock_operation h fname name i line) w (Adds-lock_operation name i line))
      go call o none q f p = rw (o, q, is_logged, visit) (Comes-nothing w (L.called_function i))
      go call o (some line) q f p =
          rw (o, q, is_logged, visit) (Comes-nothing w (L.called_function i))
      go other o none q f p = rw (o, q, is_logged, visit) (Comes-nothing w (L.called_function i))
      go other o (some line) q f p =
          rw (o, q, is_logged, visit) (Comes-nothing w (L.called_function i))

  annotate-LogOutcome :
      (block : List L.Inst) (w : L.World) → LogOutcome L block (annotate (visit h fname) block w)
  unfolding annotate log_count
  annotate-LogOutcome [] w = refl
  annotate-LogOutcome (i ∷ rest) w =
      go (visit h fname i w) refl (visit-Comes i w).outcome (λ w'. annotate-LogOutcome rest w')
    where
      add :
          (before after : List L.Inst) (r : Result (List L.Inst × L.World))
          → calls L (before ++ after) ≡ (if is_logged L i then 1 else 0)
          → LogOutcome L rest r
          → LogOutcome L (i ∷ rest) (prepend (visit h fname) (before ++ (i ∷ after)) r)
      add before after (ok (ys, w')) c q = omega (arith, calls_around L before i after ys)
      add before after (fault e) c q = q

      weaken :
          {e : Fault}
          → IsOperandFault e ⊎ ((e ≡ null_callee) × (L.called_function i ≡ none))
          → IsOperandFault e ⊎ (e ≡ null_callee)
      weaken (inl a) = inl a
      weaken (inr a) = inr a.0

      go :
          (r : Result (Action L))
          → visit h fname i w ≡ r
          → Outcome (is_logged L i) false (L.called_function i) (visit h fname i w)
          → ((w' : L.World) → LogOutcome L rest (annotate (visit h fname) rest w'))
          → LogOutcome L (i ∷ rest) (annotate (visit h fname) (i ∷ rest) w)
      go (fault e) q o ih = rw (q, annotate) (weaken ((rw q at o).1))
      go (ok leave) q o ih = cc (rw q at o)
      go (ok (next before after w')) q o ih =
          rw (q, annotate)
            (add before after (annotate (visit h fname) rest w') (rw q at o).1 (ih w'))

  -- If LLVM behaves as documented and `p_probe` calls `_probe_`, a loop of function.cpp over a
  -- block that ends without a fault has inserted one call for each store, load and invoked lock
  -- operation that has a debug location, and no other call.
  pub walk-log_count :
      L.callee_name h.p_probe ≡ some (codes "_probe_")
      → (block : List L.Inst) (w : L.World) (block' : List L.Inst) (w' : L.World)
      → walk (visit h fname) block w ≡ ok (block', w')
      → calls L block' ≡ calls L block + log_count L block
  walk-log_count named block w block' w' done =
      subst (LogOutcome L block) (sym (walk-visit h fname law named block w) ∙ done)
        (annotate-LogOutcome block w)
