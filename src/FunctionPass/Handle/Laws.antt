-- ===== src/FunctionPass/Handle/Laws.antt =====
-- The loop over a block in HelloWorld/function.cpp visits what it inserts, as in the other version.
use atomicity_violation.Base.{◌≡◌, refl, some, List, Bytes, codes}
use atomicity_violation.Llvm.{Llvm, IsLawful, Opcode, store, load, invoke, call, other}
use atomicity_violation.Pass.{Hooks}
use atomicity_violation.Pass.Walk.{walk}
use atomicity_violation.Pass.Walk.Laws.{annotate, IsInert, walk-annotate}
use atomicity_violation.Pass.Inert.{
  IsQuiet, IsQuiet-InsertsInert, nothing-IsQuiet, before-IsQuiet, after-log_access-IsQuiet,
}
use atomicity_violation.FunctionPass.Handle.{store_log, load_log, invoke_log, visit}

module _ {L : Llvm} (h : Hooks L) (fname : Bytes) where
  pub uncalled-IsInert : (i : L.Inst) → L.opcode i ≡ other → IsInert (visit h fname) i
  unfolding visit
  uncalled-IsInert i e w = rw (e, visit)

  pub call-IsInert : (i : L.Inst) → L.opcode i ≡ call → IsInert (visit h fname) i
  unfolding visit
  call-IsInert i e w = rw (e, visit)

  module _ (law : IsLawful L) (named : L.callee_name h.p_probe ≡ some (codes "_probe_")) where
    visit-IsQuiet : (i : L.Inst) (w : L.World) → IsQuiet (visit h fname) (visit h fname i w)
    unfolding visit load_log
    visit-IsQuiet i w = go (L.opcode i) refl
      where
        go : (o : Opcode) → L.opcode i ≡ o → IsQuiet (visit h fname) (visit h fname i w)
        go store q = rw (q, visit) (before-IsQuiet (visit h fname) (store_log h fname i) w)
        go load q =
            rw (q, visit)
              (after-log_access-IsQuiet (visit h fname) law h named uncalled-IsInert
                (λ j e f. call-IsInert j e) fname 0 i w)
        go invoke q = rw (q, visit) (before-IsQuiet (visit h fname) (invoke_log h fname i) w)
        go call q = rw (q, visit) (nothing-IsQuiet (visit h fname) w)
        go other q = rw (q, visit) (nothing-IsQuiet (visit h fname) w)

    -- If LLVM behaves as documented and `p_probe` calls `_probe_`, the loop of function.cpp over a
    -- block, which visits what it inserts behind an instruction, has the result of a pass over the
    -- original instructions alone.
    pub walk-visit :
        (block : List L.Inst) (w : L.World)
        → walk (visit h fname) block w ≡ annotate (visit h fname) block w
    walk-visit = walk-annotate (visit h fname) (IsQuiet-InsertsInert (visit h fname) visit-IsQuiet)
