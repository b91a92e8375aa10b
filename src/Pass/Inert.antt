-- ===== src/Pass/Inert.antt =====
-- What a handler of loads and of probe calls owes to the loop that visits its insertions.
use atomicity_violation.Base.{
  Bool-cases, inl, inr, ℕ, ◌≡◌, ◌≤◌, refl, subst, ◌∙◌, Option, none, some, List, [], ◌∷◌, ◌++◌,
  length, length-append, All, All-append, Bytes, codes, arith,
}
use atomicity_violation.Base.Result.{Result, ok, fault, bind}
use atomicity_violation.Llvm.{Llvm, IsLawful, call, other}
use atomicity_violation.Llvm.Builder.{Builder, Build}
use atomicity_violation.Pass.Defs.{Action, next, leave, before, after, Hooks, log_access}
use atomicity_violation.Pass.Walk.Laws.{IsInert, InsertsInert}

module _ {L : Llvm} (handle : L.Inst → L.World → Result (Action L)) where
  -- An action that inserts at most two instructions behind, all of them inert.
  abbrev pub Insertions : Result (Action L) → Type 0
  Insertions (fault e) = Unit
  Insertions (ok leave) = Unit
  Insertions (ok (next before after w)) = All (IsInert handle) after × (length after ≤ 2)

  pub record IsQuiet (r : Result (Action L)) : Type 0 where
    pub insertions : Insertions r

  pub IsQuiet-InsertsInert :
      ((i : L.Inst) (w : L.World) → IsQuiet (handle i w)) → InsertsInert handle
  IsQuiet-InsertsInert h i w before after w' e = subst Insertions e (h i w).insertions

  pub nothing-IsQuiet : (w : L.World) → IsQuiet (ok (next [] [] w))
  nothing-IsQuiet w = record { insertions = (tt, omega arith) }

  pub leave-IsQuiet : IsQuiet (ok leave)
  leave-IsQuiet = record { insertions = tt }

  -- What is inserted before an instruction is not visited.
  pub before-IsQuiet : (m : Build L (Unit {0})) (w : L.World) → IsQuiet (before m w)
  before-IsQuiet m w = go (m (record { world = w; inserted = [] }))
    where
      go :
          (r : Result (Unit {0} × Builder L))
          → IsQuiet (bind r (λ (_, b). ok (next b.inserted [] b.world)))
      go (ok (a, b)) = record { insertions = (tt, omega arith) }
      go (fault e) = record { insertions = tt }

  module _ (law : IsLawful L) (h : Hooks L)
      (named : L.callee_name h.p_probe ≡ some (codes "_probe_"))
      (other_inert : (i : L.Inst) → L.opcode i ≡ other → IsInert handle i)
      (probe_inert : (i : L.Inst)
        → L.opcode i ≡ call
        → L.called_function i ≡ some (codes "_probe_")
        → IsInert handle i) where
    All-others : (xs : List L.Inst) → All (λ i. L.opcode i ≡ other) xs → All (IsInert handle) xs
    All-others [] a = tt
    All-others (x ∷ xs) a = (other_inert x a.0, All-others xs a.1)

    cast_and_probe :
        (w w' w'' : L.World) (v : L.Value) (t : L.Ty) (args : List L.Value)
        → IsQuiet (
            ok (
              next [] ((L.create_bitcast w v t).1 ++ (L.create_call w' h.p_probe args).0 ∷ []) w''))
    cast_and_probe w w' w'' v t args = record {
      insertions = (
        All-append (IsInert handle) (L.create_bitcast w v t).1 _
            (All-others _ (law.bitcast_opcode w v t))
            (
              probe_inert _ (law.call_opcode w' h.p_probe args)
                  (law.call_function w' h.p_probe args ∙ named),
              tt,
            ),
        omega (
          arith,
          length-append (L.create_bitcast w v t).1 ((L.create_call w' h.p_probe args).0 ∷ []),
          law.bitcast_length w v t,
        ),
      );
    }

    -- A probe of a memory access inserts a cast, perhaps, and the call of `_probe_`.
    pub after-log_access-IsQuiet :
        (file : Bytes) (n : ℕ) (i : L.Inst) (w : L.World)
        → IsQuiet (after (log_access h file n i) w)
    unfolding log_access
    after-log_access-IsQuiet file n i w = go (L.debug_line i) refl (L.operand i n) refl
      where
        go :
            (d : Option ℕ)
            → L.debug_line i ≡ d
            → (o : Option L.Value) → L.operand i n ≡ o
            → IsQuiet (after (log_access h file n i) w)
        go none q o p = rw (q, log_access) (nothing-IsQuiet w)
        go (some line) q none p = rw (q, p, log_access) (record { insertions = tt })
        go (some line) q (some v) p = elim (Bool-cases (L.is_castable (L.type_of v) h.ptr_ty)) [
          | inl valid ↦ rw (q, p, log_access) (rw valid (cast_and_probe w _ _ v h.ptr_ty _))
          | inr invalid ↦ rw (q, p, log_access) (rw invalid (record { insertions = tt }))
        ]
