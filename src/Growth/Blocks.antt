-- ===== src/Growth/Blocks.antt =====
-- From the insertions at an instruction to the size of a block.
use atomicity_violation.Base.{
  ◌+◌, ◌*◌, ◌≤◌, ◌≡◌, refl, Bool, true, false, List, [], ◌∷◌, ◌++◌, arith, length, length-append,
  if◌then◌else◌,
}
use atomicity_violation.Base.Result.{Result, ok, fault, bind}
use atomicity_violation.Llvm.{Llvm}
use atomicity_violation.Llvm.Builder.{Builder, Build}
use atomicity_violation.Pass.{Action, next, leave, before, after}
use atomicity_violation.Pass.Walk.{prepend}
use atomicity_violation.Pass.Walk.Laws.{annotate}
use atomicity_violation.Growth.Build.{Size, Grows}

-- At most six instructions for each of the block's.
abbrev pub Bounded : (L : Llvm) → List L.Inst → Result (List L.Inst × L.World) → Type 0
Bounded L block (ok (block', w)) = length block' ≤ 6 * length block
Bounded L block (fault e) = Unit

module _ {L : Llvm} where
  -- At most five instructions are inserted.
  abbrev pub Insertions : Result (Action L) → Type 0
  Insertions (ok (next xs ys w)) = length xs + length ys ≤ 5
  Insertions (ok leave) = Unit
  Insertions (fault e) = Unit

  pub record IsSmall (r : Result (Action L)) : Type 0 where
    pub insertions : Insertions r

  pub IsSmall-nothing : (w : L.World) → IsSmall (ok (next [] [] w))
  IsSmall-nothing w = record { insertions = omega arith }

  pub IsSmall-before : (m : Build L (Unit {0})) (w : L.World) → Grows 5 m → IsSmall (before m w)
  IsSmall-before m w g = go (m start) (g.each start)
    where
      start : Builder L
      start = record { world = w; inserted = [] }

      go :
          (r : Result (Unit {0} × Builder L))
          → Size 5 start r
          → IsSmall (bind r (λ (_, b). ok (next b.inserted [] b.world)))
      go (ok (a, b)) s = record { insertions = omega arith }
      go (fault e) s = record { insertions = tt }

  pub IsSmall-after : (m : Build L (Unit {0})) (w : L.World) → Grows 5 m → IsSmall (after m w)
  IsSmall-after m w g = go (m start) (g.each start)
    where
      start : Builder L
      start = record { world = w; inserted = [] }

      go :
          (r : Result (Unit {0} × Builder L))
          → Size 5 start r
          → IsSmall (bind r (λ (_, b). ok (next [] b.inserted b.world)))
      go (ok (a, b)) s = record { insertions = omega arith }
      go (fault e) s = record { insertions = tt }

  pub IsSmall-if :
      (c : Bool) {r r' : Result (Action L)} → IsSmall r → IsSmall r' → IsSmall (if c then r else r')
  IsSmall-if true p q = p
  IsSmall-if false p q = q

  module _ (handle_one : L.Inst → L.World → Result (Action L))
      (small : (i : L.Inst) (w : L.World) → IsSmall (handle_one i w)) where
    pub annotate-Bounded :
        (block : List L.Inst) (w : L.World) → Bounded L block (annotate handle_one block w)
    unfolding annotate
    annotate-Bounded [] w = omega arith
    annotate-Bounded (i ∷ rest) w =
        go (handle_one i w) refl (small i w).insertions (λ w'. annotate-Bounded rest w')
      where
        add :
            (xs zs : List L.Inst) (r : Result (List L.Inst × L.World))
            → length xs + length zs ≤ 5
            → Bounded L rest r
            → Bounded L (i ∷ rest) (prepend handle_one (xs ++ (i ∷ zs)) r)
        add xs zs (ok (ys, w')) s q =
            omega (arith, length-append (xs ++ (i ∷ zs)) ys, length-append xs (i ∷ zs))
        add xs zs (fault e) s q = tt

        go :
            (r : Result (Action L))
            → handle_one i w ≡ r
            → Insertions (handle_one i w)
            → ((w' : L.World) → Bounded L rest (annotate handle_one rest w'))
            → Bounded L (i ∷ rest) (annotate handle_one (i ∷ rest) w)
        go (fault e) q s ih = rw (q, annotate) tt
        go (ok leave) q s ih = rw (q, annotate) (omega arith)
        go (ok (next xs ys w')) q s ih =
            rw (q, annotate) (add xs ys (annotate handle_one rest w') (rw q at s) (ih w'))
