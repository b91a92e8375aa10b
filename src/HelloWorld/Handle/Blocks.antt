-- ===== src/HelloWorld/Handle/Blocks.antt =====
-- What the loop does to a whole block.
use atomicity_violation.Base.{
  ◌+◌, ◌≡◌, refl, ◌∙◌, sym, append_assoc, ◌⊎◌, inl, inr, subst, true, false, none, some, List, [],
  ◌∷◌, ◌++◌, arith, Bytes, codes,
}
use atomicity_violation.Base.Result.{Fault, Result, ok, fault, null_callee}
use atomicity_violation.Llvm.{Llvm, IsLawful}
use atomicity_violation.Pass.{Action, next, leave, Hooks}
use atomicity_violation.Pass.Walk.{walk, prepend}
use atomicity_violation.Pass.Walk.Laws.{annotate}
use atomicity_violation.Pass.Calls.{calls, calls-append, IsOperandFault}
use atomicity_violation.HelloWorld.Handle.{handle}
use atomicity_violation.HelloWorld.Handle.Laws.{walk-handle}
use atomicity_violation.HelloWorld.Handle.Probes.{
  Outcome, handle-Comes, is_traced, is_break, probes, probe_count,
}

module _ (L : Llvm) where
  -- A block that is done has one more call for each probe that is due; the loop stops for nothing
  -- but an operand that is missing or no pointer, or an unknown called function.
  abbrev pub BlockOutcome : List L.Inst → Result (List L.Inst × L.World) → Type 0
  BlockOutcome block (ok (block', w)) = calls L block' ≡ calls L block + probe_count L block
  BlockOutcome block (fault e) = IsOperandFault e ⊎ (e ≡ null_callee)

  pub calls_around :
      (before : List L.Inst) (i : L.Inst) (after rest : List L.Inst)
      → calls L ((before ++ (i ∷ after)) ++ rest)
        ≡ calls L (i ∷ []) + calls L (before ++ after) + calls L rest
  calls_around before i after rest = omega (
    arith,
    calls-append L (before ++ (i ∷ after)) rest,
    calls-append L before (i ∷ after),
    calls-append L before after,
  )

module _ {L : Llvm} (law : IsLawful L) (h : Hooks L) (file : Bytes) where
  annotate_outcome :
      (block : List L.Inst) (w : L.World) → BlockOutcome L block (annotate (handle h file) block w)
  unfolding annotate probe_count
  annotate_outcome [] w = refl
  annotate_outcome (i ∷ rest) w =
      go (handle h file i w) refl (handle-Comes law h file i w).outcome
        (λ w'. annotate_outcome rest w')
    where
      add :
          (before after : List L.Inst) (r : Result (List L.Inst × L.World))
          → is_break L i ≡ false
          → calls L (before ++ after) ≡ probes L i
          → BlockOutcome L rest r
          → BlockOutcome L (i ∷ rest) (prepend (handle h file) (before ++ (i ∷ after)) r)
      add before after (ok (ys, w')) b c q =
          rw (b, probe_count) (omega (arith, calls_around L before i after ys))
      add before after (fault e) b c q = q

      weaken :
          {e : Fault}
          → IsOperandFault e ⊎ ((e ≡ null_callee) × (L.called_function i ≡ none))
          → IsOperandFault e ⊎ (e ≡ null_callee)
      weaken (inl a) = inl a
      weaken (inr a) = inr a.0

      go :
          (r : Result (Action L))
          → handle h file i w ≡ r
          → Outcome (is_traced L i) (is_break L i) (L.called_function i) (handle h file i w)
          → ((w' : L.World) → BlockOutcome L rest (annotate (handle h file) rest w'))
          → BlockOutcome L (i ∷ rest) (annotate (handle h file) (i ∷ rest) w)
      go (fault e) q o ih = rw (q, annotate) (weaken ((rw q at o).1))
      go (ok leave) q o ih = rw (q, annotate) (rw ((rw q at o), probe_count) (omega arith))
      go (ok (next before after w')) q o ih =
          let (b, c) = rw q at o in
          rw (q, annotate) (add before after (annotate (handle h file) rest w') b c (ih w'))

  -- From `tail` on the block is as it was.
  abbrev EndsWith : List L.Inst → Result (List L.Inst × L.World) → Type 0
  EndsWith tail (ok (block', w)) = (front : List L.Inst) × (block' ≡ front ++ tail)
  EndsWith tail (fault e) = Unit

  handle_break : (a : L.Inst) (w : L.World) → is_break L a ≡ true → handle h file a w ≡ ok leave
  handle_break a w b = go (handle h file a w) refl (handle-Comes law h file a w).outcome
    where
      go :
          (r : Result (Action L))
          → handle h file a w ≡ r
          → Outcome (is_traced L a) (is_break L a) (L.called_function a) r
          → handle h file a w ≡ ok leave
      go (fault e) q o = cc (o.0)
      go (ok leave) q o = q
      go (ok (next before after w')) q o = cc (o.0)

  annotate_break :
      (front : List L.Inst) (a : L.Inst) (rest : List L.Inst) (w : L.World)
      → is_break L a ≡ true
      → EndsWith (a ∷ rest) (annotate (handle h file) (front ++ (a ∷ rest)) w)
  unfolding annotate
  annotate_break [] a rest w b = rw (handle_break a w b, annotate) ([], refl)
  annotate_break (i ∷ front) a rest w b =
      go (handle h file i w) refl (λ w'. annotate_break front a rest w' b)
    where
      tail : List L.Inst
      tail = a ∷ rest

      extend :
          (xs : List L.Inst) (r : Result (List L.Inst × L.World))
          → EndsWith tail r
          → EndsWith tail (prepend (handle h file) xs r)
      extend xs (ok (ys, w')) (ys', e) = (xs ++ ys', rw e (sym (append_assoc xs ys' tail)))
      extend xs (fault e) p = tt

      go :
          (r : Result (Action L))
          → handle h file i w ≡ r
          → ((w' : L.World) → EndsWith tail (annotate (handle h file) (front ++ tail) w'))
          → EndsWith tail (annotate (handle h file) (i ∷ (front ++ tail)) w)
      go (fault e) q ih = rw (q, annotate) tt
      go (ok leave) q ih = rw (q, annotate) (i ∷ front, refl)
      go (ok (next before after w')) q ih =
          rw (q, annotate)
            (extend (before ++ (i ∷ after)) (annotate (handle h file) (front ++ tail) w') (ih w'))

  module _ (named : L.callee_name h.p_probe ≡ some (codes "_probe_")) (block block' : List L.Inst)
      (w w' : L.World) (done : walk (handle h file) block w ≡ ok (block', w')) where
    annotated : annotate (handle h file) block w ≡ ok (block', w')
    annotated = sym (walk-handle h file law named block w) ∙ done

    -- If LLVM behaves as documented and `p_probe` calls `_probe_`, a loop over a block that ends
    -- without a fault has inserted one call for each traced instruction that stands before the
    -- first atomic operation, and no other call.
    pub walk-probe_count : calls L block' ≡ calls L block + probe_count L block
    walk-probe_count = subst (BlockOutcome L block) annotated (annotate_outcome block w)

  -- If LLVM behaves as documented and `p_probe` calls `_probe_`, a loop over a block that ends
  -- without a fault leaves the block as it was from any atomic operation on.
  pub walk-is_break :
      L.callee_name h.p_probe ≡ some (codes "_probe_")
      → (front : List L.Inst) (a : L.Inst) (rest : List L.Inst) (w : L.World) → is_break L a ≡ true
      → {block' : List L.Inst} {w' : L.World}
      → walk (handle h file) (front ++ (a ∷ rest)) w ≡ ok (block', w')
      → (front' : List L.Inst) × (block' ≡ front' ++ (a ∷ rest))
  walk-is_break named front a rest w b done =
      subst (EndsWith (a ∷ rest))
        (sym (walk-handle h file law named (front ++ (a ∷ rest)) w) ∙ done)
        (annotate_break front a rest w b)
