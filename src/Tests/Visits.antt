-- ===== src/Tests/Visits.antt =====
-- The loop over a block, at a block with a store, a load, the invoke of a lock and an atomic call.
use atomicity_violation.Base.{ℕ, ◌+◌, ◌≡◌, refl, true, List, [], ◌∷◌, ◌++◌, Bytes, codes}
use atomicity_violation.Base.Result.{Result, ok, fault, null_callee}
use atomicity_violation.Text.{mentions}
use atomicity_violation.Pass.Walk.{walk}
use atomicity_violation.Pass.Walk.Laws.{annotate}
use atomicity_violation.Pass.Calls.{calls}
use atomicity_violation.HelloWorld.Handle.{handle}
use atomicity_violation.HelloWorld.Handle.Laws.{walk-handle}
use atomicity_violation.HelloWorld.Handle.Probes.{probe_count, is_break}
use atomicity_violation.HelloWorld.Handle.Blocks.{walk-probe_count, walk-is_break}
use atomicity_violation.FunctionPass.Handle.{visit}
use atomicity_violation.FunctionPass.Handle.Laws.{walk-visit}
use atomicity_violation.Growth.Blocks.{Bounded}
use atomicity_violation.Growth.Passes.{length-walk}
use atomicity_violation.Tests.Sample.{
  Inst, small, small-IsLawful, hooks, traced_store, atomic_call, indirect_invoke, front,
}

abbrev file : Bytes
file = codes "/home/user/app/main.rs"

abbrev value_or : {A : Type 0} → A → Result A → A
value_or a (ok b) = b
value_or a (fault e) = a

-- The front, the atomic call, and one more store.
abbrev whole : List Inst
whole = front ++ (atomic_call ∷ (traced_store ∷ []))

walked : List Inst × ℕ
unfolding walk handle
walked = value_or ([], 0) (walk (handle {L = small} hooks file) whole 0)

walked_done : walk (handle {L = small} hooks file) whole 0 ≡ ok (walked.0, walked.1)
unfolding walked walk handle mentions
walked_done = refl

-- A cast and a probe for each of the first three, and the rest as it was.
walked_opcodes : calls small walked.0 ≡ 4
unfolding walked mentions
walked_opcodes = refl

walk-handle_example :
    walk (handle {L = small} hooks file) whole 0 ≡ annotate (handle {L = small} hooks file) whole 0
walk-handle_example = walk-handle {L = small} hooks file small-IsLawful refl whole 0

walk-probe_count_example : calls small walked.0 ≡ calls small whole + probe_count small whole
walk-probe_count_example =
    walk-probe_count {L = small} small-IsLawful hooks file refl whole walked.0 0 walked.1
      walked_done

atomic_is_break : is_break small atomic_call ≡ true
unfolding is_break mentions
atomic_is_break = refl

walk-is_break_example :
    (front' : List Inst) × (walked.0 ≡ front' ++ (atomic_call ∷ (traced_store ∷ [])))
walk-is_break_example =
    walk-is_break {L = small} small-IsLawful hooks file refl front atomic_call (traced_store ∷ []) 0
      atomic_is_break walked_done

indirect_faults :
    walk (handle {L = small} hooks file) (traced_store ∷ (indirect_invoke ∷ [])) 0
    ≡ fault null_callee
unfolding walk handle
indirect_faults = refl

walk-visit_example :
    walk (visit {L = small} hooks (codes "app::main")) whole 0
    ≡ annotate (visit {L = small} hooks (codes "app::main")) whole 0
walk-visit_example = walk-visit {L = small} hooks (codes "app::main") small-IsLawful refl whole 0

logged : List Inst × ℕ
unfolding walk visit
logged = value_or ([], 0) (walk (visit {L = small} hooks (codes "app::main")) whole 0)

logged_done : walk (visit {L = small} hooks (codes "app::main")) whole 0 ≡ ok (logged.0, logged.1)
unfolding logged walk visit mentions
logged_done = refl

indirect_log_faults :
    walk (visit {L = small} hooks (codes "app::main")) (traced_store ∷ (indirect_invoke ∷ [])) 0
    ≡ fault null_callee
unfolding walk visit
indirect_log_faults = refl

length-walk_example :
    Bounded small whole (walk (handle {L = small} hooks file) whole 0)
    × Bounded small whole (walk (visit {L = small} hooks file) whole 0)
length-walk_example = length-walk {L = small} small-IsLawful hooks file refl whole 0
