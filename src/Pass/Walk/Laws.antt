-- ===== src/Pass/Walk/Laws.antt =====
-- The loop ends, and does what a pass over the original instructions alone would do.
use atomicity_violation.Base.{
  ℕ, zero, suc, ◌-◌, ◌*◌, ◌≤◌, ◌≡◌, refl, ◌∙◌, List, [], ◌∷◌, ◌++◌, append_assoc, arith, length,
  All,
}
use atomicity_violation.Base.Result.{Result, ok, fault}
use atomicity_violation.Llvm.{Llvm}
use atomicity_violation.Pass.Defs.{Action, next, leave}
use atomicity_violation.Pass.Walk.{Walked, prepend, walk_fuel, walk}

module _ {L : Llvm} (handle : L.Inst → L.World → Result (Action L)) where
  -- The specification: each original instruction gets its insertions, and these get none.
  unfoldable pub annotate : List L.Inst → L.World → Walked handle
  annotate [] w = ok ([], w)
  annotate (i ∷ rest) w = elim (handle i w) [
    | fault e ↦ fault e
    | ok leave ↦ ok (i ∷ rest, w)
    | ok (next before after w') ↦ prepend handle (before ++ (i ∷ after)) (annotate rest w')
  ]

  -- The handler leaves the instruction and the module alone.
  abbrev pub IsInert : L.Inst → Type 0
  IsInert i = (w : L.World) → handle i w ≡ ok (next [] [] w)

  -- What is inserted behind an instruction is inert, and at most two instructions.
  abbrev pub InsertsInert : Type 0
  InsertsInert =
      (i : L.Inst) (w : L.World) (before after : List L.Inst) (w' : L.World)
      → handle i w ≡ ok (next before after w')
      → All IsInert after × (length after ≤ 2)

  prepend-prepend :
      (xs ys : List L.Inst) (r : Walked handle)
      → prepend handle xs (prepend handle ys r) ≡ prepend handle (xs ++ ys) r
  prepend-prepend xs ys (ok (zs, w)) = rw append_assoc
  prepend-prepend xs ys (fault e) = refl

  prepend-prepend_around :
      (before : List L.Inst) (i : L.Inst) (after : List L.Inst) (r : Walked handle)
      → prepend handle (before ++ (i ∷ [])) (prepend handle after r)
        ≡ prepend handle (before ++ (i ∷ after)) r
  prepend-prepend_around before i after (ok (zs, w)) = simp append_assoc
  prepend-prepend_around before i after (fault e) = refl

  prepend-nil : (r : Walked handle) → prepend handle [] r ≡ r
  prepend-nil (ok (zs, w)) = refl
  prepend-nil (fault e) = refl

  walk_fuel_next :
      {i : L.Inst} {w : L.World} {before after : List L.Inst} {w' : L.World} (n : ℕ)
      (rest : List L.Inst)
      → handle i w ≡ ok (next before after w')
      → walk_fuel handle (suc n) (i ∷ rest) w
        ≡ prepend handle (before ++ (i ∷ [])) (walk_fuel handle n (after ++ rest) w')
  unfolding walk_fuel
  walk_fuel_next n rest e = rw (e, walk_fuel)

  skip_inert :
      (xs rest : List L.Inst) (n : ℕ) (w : L.World)
      → All IsInert xs
      → length xs ≤ n
      → walk_fuel handle n (xs ++ rest) w
        ≡ prepend handle xs (walk_fuel handle (n - length xs) rest w)
  skip_inert [] rest n w h le =
      let e : n - 0 ≡ n = omega arith in rw (e, prepend-nil (walk_fuel handle n rest w))
  skip_inert (x ∷ xs) rest zero w h le = elim le [ ]
  skip_inert (x ∷ xs) rest (suc n) w h le =
      let e : suc n - suc (length xs) ≡ n - length xs = omega arith in
      walk_fuel_next n (xs ++ rest) (h.0 w)
      ∙ rw (skip_inert xs rest n w h.1 (omega arith), e)
          (prepend-prepend (x ∷ []) xs (walk_fuel handle (n - length xs) rest w))

  pub walk_fuel-annotate :
      InsertsInert
      → (block : List L.Inst) (n : ℕ) (w : L.World) → 3 * length block ≤ n
      → walk_fuel handle n block w ≡ annotate block w
  unfolding walk_fuel annotate
  walk_fuel-annotate inserts [] n w le = refl
  walk_fuel-annotate inserts (i ∷ rest) zero w le = absurd (omega arith)
  walk_fuel-annotate inserts (i ∷ rest) (suc n) w le =
      go (handle i w) refl
        (λ after w' few. walk_fuel-annotate inserts rest (n - length after) w' (omega arith))
    where
      go :
          (r : Result (Action L))
          → handle i w ≡ r
          → ((after : List L.Inst) (w' : L.World)
              → length after ≤ 2
              → walk_fuel handle (n - length after) rest w' ≡ annotate rest w')
          → walk_fuel handle (suc n) (i ∷ rest) w ≡ annotate (i ∷ rest) w
      go (fault e) q ih = rw (q, walk_fuel, annotate)
      go (ok leave) q ih = rw (q, walk_fuel, annotate)
      go (ok (next before after w')) q ih =
          let (quiet, few) = inserts i w before after w' q in
          walk_fuel_next n rest q
          ∙ rw (skip_inert after rest n w' quiet (omega arith)) (
              rw (ih after w' few, q, annotate)
                (prepend-prepend_around before i after (annotate rest w')))

  -- The loop does what the specification says, with no round too few.
  pub walk-annotate :
      InsertsInert → (block : List L.Inst) (w : L.World) → walk handle block w ≡ annotate block w
  unfolding walk
  walk-annotate inserts block w =
      walk_fuel-annotate inserts block (3 * length block) w (omega arith)
