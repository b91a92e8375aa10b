-- ===== src/Events/Due.antt =====
-- The specification: which probe is due at an instruction. The lock operations are told apart by
-- tables of names.
use Prim.Native.String.{String}
use atomicity_violation.Base.{ℕ, Option, none, some, List, [], ◌∷◌, Bytes, codes, if◌then◌else◌}
use atomicity_violation.Text.{mentions}
use atomicity_violation.Llvm.{Llvm, store, load, invoke, call, other}
use atomicity_violation.Llvm.Reading.{Origin, loaded, field, Reading}
use atomicity_violation.Events.Seen.{access, lock, Event}
use atomicity_violation.Events.Probes.{probe_event}

-- Where a call of a lock operation has the lock: in an argument, in the reference that its first
-- argument points to, or in the first field of the guard that it points to.
pub data Place : Type 0 where
  argument : ℕ → Place
  guard guard_field : Place

-- What a part of the called function's name says.
pub record Rule : Type 0 where
  pub pattern : String
  pub op : String
  pub place : Place

abbrev pub rule : String → String → Place → Rule
rule p o place = record { pattern = p; op = o; place = place }

abbrev pub invoke_rules : List Rule
invoke_rules =
    rule "std4sync5mutex14Mutex$LT$T$GT$4lock" "lock" (argument 1)
    ∷ (rule "drop_in_place$LT$std..sync..mutex..MutexGuard" "unlock" guard_field
        ∷ (rule "std4sync6rwlock15RwLock$LT$T$GT$4read" "invoke - rwlock read lock" (argument 0)
            ∷ (rule "drop_in_place$LT$std..sync..rwlock..RwLockReadGuard"
                  "invoke - rwlock read unlock" guard
                ∷ (rule "std4sync6rwlock15RwLock$LT$T$GT$5write" "invoke - rwlock write lock"
                      (argument 1)
                    ∷ (rule "drop_in_place$LT$std..sync..rwlock..RwLockWriteGuard"
                          "invoke - rwlock write unlock" guard_field
                        ∷ [])))))

abbrev pub call_rules : List Rule
call_rules =
    rule "std4sync6rwlock15RwLock$LT$T$GT$5write" "call - rwlock write lock" (argument 1)
    ∷ (rule "std4sync6rwlock15RwLock$LT$T$GT$4read" "call - rwlock read lock" (argument 0)
        ∷ (rule "drop_in_place$LT$std..sync..rwlock..RwLockReadGuard" "call - rwlock read unlock"
              guard
            ∷ (rule "drop_in_place$LT$std..sync..rwlock..RwLockWriteGuard"
                  "call - rwlock write unlock" guard_field
                ∷ [])))

abbrev pub mangled_rules : List Rule
mangled_rules =
    rule "_ZN3std4sync5mutex14Mutex$LT$T$GT$4lock" "lock" (argument 1)
    ∷ (rule "_ZN4core3ptr60drop_in_place$LT$std..sync..mutex..MutexGuard" "unlock" guard_field
        ∷ (rule "_ZN3std4sync6rwlock15RwLock$LT$T$GT$4read" "rwlock read lock" (argument 0)
            ∷ (rule "_ZN4core3ptr66drop_in_place$LT$std..sync..rwlock..RwLockReadGuard"
                  "rwlock read unlock" guard
                ∷ (rule "_ZN3std4sync6rwlock15RwLock$LT$T$GT$5write" "rwlock write lock"
                      (argument 1)
                    ∷ (rule "_ZN4core3ptr67drop_in_place$LT$std..sync..rwlock..RwLockWriteGuard"
                          "rwlock write unlock" guard_field
                        ∷ [])))))

module _ {L : Llvm} (R : Reading L) where
  abbrev pub lock_origin : Place → Origin L → Origin L
  lock_origin (argument n) a = a
  lock_origin guard a = loaded a
  lock_origin guard_field a = loaded (field 0 a)

  abbrev pub place_index : Place → ℕ
  place_index (argument n) = n
  place_index guard = 0
  place_index guard_field = 0

  module _ (file : Bytes) where
    abbrev pub due_value : Option L.Value → (L.Value → Event L) → List (Event L)
    due_value none e = []
    due_value (some v) e = e v ∷ []

    abbrev pub due_lock : Bytes → Place → L.Inst → ℕ → List (Event L)
    due_lock op p i line =
        due_value (L.arg_operand i (place_index p))
          (λ v. probe_event file lock line op (lock_origin p (R.origin v)))

    abbrev pub due_access : ℕ → L.Inst → ℕ → List (Event L)
    due_access n i line =
        due_value (L.operand i n) (λ v. probe_event file access line (L.opcode_name i) (R.origin v))

    -- The first rule whose pattern stands in the name decides.
    abbrev pub due_by : List Rule → Bytes → L.Inst → ℕ → List (Event L)
    due_by [] name i line = []
    due_by (r ∷ rs) name i line =
        if mentions name r.pattern
        then due_lock (codes r.op) r.place i line
        else due_by rs name i line

    abbrev pub due_called : List Rule → Option Bytes → L.Inst → ℕ → List (Event L)
    due_called rs none i line = []
    due_called rs (some name) i line = due_by rs name i line

    -- Without a line of the source no probe is due.
    abbrev pub with_line : Option ℕ → (ℕ → List (Event L)) → List (Event L)
    with_line none f = []
    with_line (some line) f = f line

    -- The probe of an instruction.
    unfoldable pub due_at : (of_invoke of_call : List Rule) → L.Inst → List (Event L)
    due_at of_invoke of_call i = elim (L.opcode i) [
      | store ↦ with_line (L.debug_line i) (due_access 1 i)
      | load ↦ with_line (L.debug_line i) (due_access 0 i)
      | invoke ↦ with_line (L.debug_line i) (due_called of_invoke (L.called_function i) i)
      | call ↦ with_line (L.debug_line i) (due_called of_call (L.called_function i) i)
      | other ↦ []
    ]
