-- ===== src/HelloWorld/Locks.antt =====
-- The probes of lock operations, by the name of the called function: lines 136 to 459 of
-- HelloWorld/HelloWorld.cpp.
use atomicity_violation.Base.{ℕ, none, some, ◌&&◌, [], Bytes, if◌then◌else◌}
use atomicity_violation.Base.Result.{Result, ok, fault, null_callee, need, pure, ◌>>=◌}
use atomicity_violation.Text.{mentions}
use atomicity_violation.Llvm.{Llvm}
use atomicity_violation.Llvm.Builder.{Build}
use atomicity_violation.Pass.{
  Action, next, leave, Hooks, before, log_argument, log_guard, log_guard_field,
}

module _ {L : Llvm} (h : Hooks L) (file : Bytes) where
  unfoldable pub invoke_lock : L.Inst → ℕ → Build L (Unit {0})
  unfolding log_argument
  invoke_lock = log_argument h file 1 "lock"

  unfoldable pub invoke_unlock : L.Inst → ℕ → Build L (Unit {0})
  unfolding log_guard_field
  invoke_unlock = log_guard_field h file "unlock"

  unfoldable pub invoke_read : L.Inst → ℕ → Build L (Unit {0})
  unfolding log_argument
  invoke_read = log_argument h file 0 "invoke - rwlock read lock"

  unfoldable pub invoke_read_unlock : L.Inst → ℕ → Build L (Unit {0})
  unfolding log_guard
  invoke_read_unlock = log_guard h file "invoke - rwlock read unlock"

  unfoldable pub invoke_write : L.Inst → ℕ → Build L (Unit {0})
  unfolding log_argument
  invoke_write = log_argument h file 1 "invoke - rwlock write lock"

  unfoldable pub invoke_write_unlock : L.Inst → ℕ → Build L (Unit {0})
  unfolding log_guard_field
  invoke_write_unlock = log_guard_field h file "invoke - rwlock write unlock"

  -- The chain of tests on the name, for an invoke with a debug location.
  unfoldable pub invoke_named : Bytes → L.Inst → ℕ → Build L (Unit {0})
  unfolding invoke_lock invoke_unlock invoke_read invoke_read_unlock invoke_write
      invoke_write_unlock
  invoke_named name inv line =
      if mentions name "std4sync5mutex14Mutex$LT$T$GT$4lock"
      then invoke_lock inv line
      else if mentions name "drop_in_place$LT$std..sync..mutex..MutexGuard"
      then invoke_unlock inv line
      else if mentions name "std4sync6rwlock15RwLock$LT$T$GT$4read"
      then invoke_read inv line
      else if mentions name "drop_in_place$LT$std..sync..rwlock..RwLockReadGuard"
      then invoke_read_unlock inv line
      else if mentions name "std4sync6rwlock15RwLock$LT$T$GT$5write"
      then invoke_write inv line
      else if mentions name "drop_in_place$LT$std..sync..rwlock..RwLockWriteGuard"
      then invoke_write_unlock inv line
      else pure tt

  unfoldable pub on_invoke : L.Inst → Build L (Unit {0})
  unfolding invoke_named
  on_invoke inv = elim (L.debug_line inv) [
    | none ↦ pure tt
    | some line ↦ do name ← need null_callee (L.called_function inv); invoke_named name inv line
  ]

  unfoldable pub call_write : L.Inst → ℕ → Build L (Unit {0})
  unfolding log_argument
  call_write = log_argument h file 1 "call - rwlock write lock"

  unfoldable pub call_read : L.Inst → ℕ → Build L (Unit {0})
  unfolding log_argument
  call_read = log_argument h file 0 "call - rwlock read lock"

  unfoldable pub call_read_unlock : L.Inst → ℕ → Build L (Unit {0})
  unfolding log_guard
  call_read_unlock = log_guard h file "call - rwlock read unlock"

  unfoldable pub call_write_unlock : L.Inst → ℕ → Build L (Unit {0})
  unfolding log_guard_field
  call_write_unlock = log_guard_field h file "call - rwlock write unlock"

  -- The chain of tests on the name, for a call with a debug location. At an atomic operation the
  -- code leaves the loop over the block; what stands behind that `break` is not reached.
  unfoldable pub call_named : Bytes → L.Inst → ℕ → L.World → Result (Action L)
  unfolding call_write call_read call_read_unlock call_write_unlock
  call_named name call line w =
      if mentions name "std4sync6rwlock15RwLock$LT$T$GT$5write"
      then before (call_write call line) w
      else if mentions name "std4sync6rwlock15RwLock$LT$T$GT$4read"
      then before (call_read call line) w
      else if mentions name "drop_in_place$LT$std..sync..rwlock..RwLockReadGuard"
      then before (call_read_unlock call line) w
      else if mentions name "drop_in_place$LT$std..sync..rwlock..RwLockWriteGuard"
      then before (call_write_unlock call line) w
      else if mentions name "core4sync6atomic" && mentions name "Atomic"
      then ok leave
      else ok (next [] [] w)

  unfoldable pub on_call : L.Inst → L.World → Result (Action L)
  unfolding call_named
  on_call call w = elim (L.debug_line call) [
    | none ↦ ok (next [] [] w)
    | some line ↦ elim (L.called_function call) [
      | none ↦ fault null_callee
      | some name ↦ call_named name call line w
    ]
  ]
