-- ===== src/FunctionPass/Handle.antt =====
-- The handlers of HelloWorld/function.cpp: lines 58 to 165 and 201 to 325.
pub mod Laws
pub mod Probes
use atomicity_violation.Base.{ℕ, none, some, [], Bytes, if◌then◌else◌}
use atomicity_violation.Base.Result.{Result, ok, null_callee, need, pure, ◌>>=◌}
use atomicity_violation.Text.{mentions}
use atomicity_violation.Llvm.{Llvm, store, load, invoke, call, other}
use atomicity_violation.Llvm.Builder.{Build}
use atomicity_violation.Pass.{
  Action, next, Hooks, before, after, log_access, log_argument, log_guard, log_guard_field,
}

module _ {L : Llvm} (h : Hooks L) (fname : Bytes) where
  unfoldable pub store_log : L.Inst → Build L (Unit {0})
  unfolding log_access
  store_log = log_access h fname 1

  unfoldable pub load_log : L.Inst → Build L (Unit {0})
  unfolding log_access
  load_log = log_access h fname 0

  unfoldable pub lock_log : L.Inst → ℕ → Build L (Unit {0})
  unfolding log_argument
  lock_log = log_argument h fname 1 "lock"

  -- The release of a mutex, written out in the loop.
  unfoldable pub release_log : L.Inst → ℕ → Build L (Unit {0})
  unfolding log_guard_field
  release_log = log_guard_field h fname "unlock"

  unfoldable pub rwlock_read_log : L.Inst → ℕ → Build L (Unit {0})
  unfolding log_argument
  rwlock_read_log = log_argument h fname 0 "rwlock read lock"

  unfoldable pub read_release_log : L.Inst → ℕ → Build L (Unit {0})
  unfolding log_guard
  read_release_log = log_guard h fname "rwlock read unlock"

  unfoldable pub rwlock_write_log : L.Inst → ℕ → Build L (Unit {0})
  unfolding log_argument
  rwlock_write_log = log_argument h fname 1 "rwlock write lock"

  unfoldable pub write_release_log : L.Inst → ℕ → Build L (Unit {0})
  unfolding log_guard_field
  write_release_log = log_guard_field h fname "rwlock write unlock"

  -- The chain of tests on the name of the called function.
  unfoldable pub lock_operation : Bytes → L.Inst → ℕ → Build L (Unit {0})
  unfolding lock_log release_log rwlock_read_log read_release_log rwlock_write_log write_release_log
  lock_operation name inv line =
      if mentions name "_ZN3std4sync5mutex14Mutex$LT$T$GT$4lock"
      then lock_log inv line
      else if mentions name "_ZN4core3ptr60drop_in_place$LT$std..sync..mutex..MutexGuard"
      then release_log inv line
      else if mentions name "_ZN3std4sync6rwlock15RwLock$LT$T$GT$4read"
      then rwlock_read_log inv line
      else if mentions name "_ZN4core3ptr66drop_in_place$LT$std..sync..rwlock..RwLockReadGuard"
      then read_release_log inv line
      else if mentions name "_ZN3std4sync6rwlock15RwLock$LT$T$GT$5write"
      then rwlock_write_log inv line
      else if mentions name "_ZN4core3ptr67drop_in_place$LT$std..sync..rwlock..RwLockWriteGuard"
      then write_release_log inv line
      else pure tt

  unfoldable pub invoke_log : L.Inst → Build L (Unit {0})
  unfolding lock_operation
  invoke_log inv = elim (L.debug_line inv) [
    | none ↦ pure tt
    | some line ↦ do name ← need null_callee (L.called_function inv); lock_operation name inv line
  ]

  -- The body of the loop over a block; calls are not logged.
  unfoldable pub visit : L.Inst → L.World → Result (Action L)
  unfolding store_log load_log invoke_log
  visit i w = elim (L.opcode i) [
    | store ↦ before (store_log i) w
    | load ↦ after (load_log i) w
    | invoke ↦ before (invoke_log i) w
    | call ↦ ok (next [] [] w)
    | other ↦ ok (next [] [] w)
  ]
