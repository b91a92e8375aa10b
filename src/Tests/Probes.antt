-- ===== src/Tests/Probes.antt =====
-- The calls of probes in an instrumented block.
use atomicity_violation.Base.{ℕ, ◌≡◌, refl, false, List, [], ◌∷◌, ◌++◌, Bytes, codes}
use atomicity_violation.Base.Result.{Result, ok, fault}
use atomicity_violation.Text.{mentions}
use atomicity_violation.Pass.{line_operand}
use atomicity_violation.Pass.Walk.{walk}
use atomicity_violation.Pass.Init.{Module, initialization}
use atomicity_violation.HelloWorld.Handle.{handle}
use atomicity_violation.HelloWorld.Handle.Probes.{is_break}
use atomicity_violation.FunctionPass.Handle.{visit}
use atomicity_violation.Llvm.Reading.{given, loaded, field}
use atomicity_violation.Events.Seen.{access, lock, seen, seen_at}
use atomicity_violation.Events.Probes.{IsReady, probe_event}
use atomicity_violation.Events.Due.{invoke_rules, call_rules, mangled_rules, due_at}
use atomicity_violation.Events.Blocks.{IsUnprobed, due_block}
use atomicity_violation.Events.HelloWorld.{walk-due_block}
use atomicity_violation.Events.FunctionPass.{walk-visit-due_block}
use atomicity_violation.Tests.Sample.{
  Inst, nothing, value, small, small-IsLawful, readings, readings-IsFaithful, hooks, small_module,
  front, invoke_of, atomic_call, traced_store,
}

abbrev file : Bytes
file = codes "/home/user/app/main.rs"

-- The release of a mutex, through the guard.
abbrev release : Inst
release = invoke_of (codes "_ZN4core3ptr60drop_in_place$LT$std..sync..mutex..MutexGuard$LT$i32$GT$")

abbrev whole : List Inst
whole = front ++ (release ∷ (atomic_call ∷ (traced_store ∷ [])))

value_or : List Inst × ℕ → Result (List Inst × ℕ) → List Inst × ℕ
value_or a (ok b) = b
value_or a (fault e) = a

walked : List Inst × ℕ
unfolding walk handle value_or
walked = value_or ([], 0) (walk (handle {L = small} hooks file) whole 0)

walked_done : walk (handle {L = small} hooks file) whole 0 ≡ ok (walked.0, walked.1)
unfolding walked walk handle mentions
walked_done = refl

unprobed : IsUnprobed readings whole
unfolding seen_at
unprobed = (refl, (refl, (refl, (refl, (refl, (refl, tt))))))

pub hooks-IsReady : IsReady small hooks
hooks-IsReady = record {
  int_ty = refl;
  ptr_ty = refl;
  p_init = refl;
  p_probe = refl;
  p_probe_lock = refl;
}

walked_events :
    seen readings walked.0
    ≡ probe_event file access 7 (codes "store") (given (value nothing 100))
      ∷ (probe_event file access 8 (codes "load") (given (value nothing 100))
          ∷ (probe_event file lock 9 (codes "lock") (given (value nothing 100))
              ∷ (probe_event file lock 9
                    (codes "unlock")
                    (loaded (field 0 (given (value nothing 100))))
                  ∷ [])))
unfolding walked seen_at mentions line_operand
walked_events = refl

walk-due_block_example :
    seen readings walked.0
    ≡ due_block readings (is_break small) (due_at readings file invoke_rules call_rules) whole
walk-due_block_example =
    walk-due_block {L = small} readings small-IsLawful readings-IsFaithful hooks hooks-IsReady file
      whole 0 walked.0 walked.1 unprobed walked_done

logged : List Inst × ℕ
unfolding walk visit value_or
logged = value_or ([], 0) (walk (visit {L = small} hooks (codes "app::main")) whole 0)

logged_done : walk (visit {L = small} hooks (codes "app::main")) whole 0 ≡ ok (logged.0, logged.1)
unfolding logged walk visit mentions
logged_done = refl

walk-visit-due_block_example :
    seen readings logged.0
    ≡ due_block readings (λ i. false) (due_at readings (codes "app::main") mangled_rules []) whole
walk-visit-due_block_example =
    walk-visit-due_block {L = small} readings small-IsLawful readings-IsFaithful hooks hooks-IsReady
      (codes "app::main") whole 0 logged.0 logged.1 unprobed logged_done

initialized : Module small
unfolding initialization
initialized = elim (initialization {L = small} small_module) [ ok r ↦ r.1 | fault e ↦ small_module ]

initialized_done : initialization small_module ≡ ok (hooks, initialized)
unfolding initialized initialization
initialized_done = refl
