-- ===== src/Pass/Walk.antt =====
-- The loop `for (auto& I : B)`, whose body inserts into the block that it walks.
pub mod Laws
use atomicity_violation.Base.{ℕ, zero, suc, ◌*◌, List, [], ◌∷◌, ◌++◌, length}
use atomicity_violation.Base.Result.{Result, ok, fault, bind, out_of_fuel}
use atomicity_violation.Llvm.{Llvm}
use atomicity_violation.Pass.Defs.{Action, next, leave}

module _ {L : Llvm} (handle : L.Inst → L.World → Result (Action L)) where
  abbrev pub Walked : Type 0
  Walked = Result (List L.Inst × L.World)

  abbrev pub prepend : List L.Inst → Walked → Walked
  prepend xs r = bind r (λ (ys, w). ok (xs ++ ys, w))

  -- The iterator moves on to what stands behind the instruction when the body has run, so the
  -- instructions inserted there are visited too. `leave` is the `break`.
  pub walk_fuel : ℕ → List L.Inst → L.World → Walked
  walk_fuel n [] w = ok ([], w)
  walk_fuel zero (i ∷ rest) w = fault out_of_fuel
  walk_fuel (suc n) (i ∷ rest) w = elim (handle i w) [
    | fault e ↦ fault e
    | ok leave ↦ ok (i ∷ rest, w)
    | ok (next before after w') ↦ prepend (before ++ (i ∷ [])) (walk_fuel n (after ++ rest) w')
  ]

  -- Three rounds for each instruction: itself, and at most two that are inserted behind it.
  unfoldable pub walk : List L.Inst → L.World → Walked
  unfolding walk_fuel
  walk block w = walk_fuel (3 * length block) block w
