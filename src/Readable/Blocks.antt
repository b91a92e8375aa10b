-- ===== src/Readable/Blocks.antt =====
-- Handlers, and passes over blocks, that end without a fault.
use atomicity_violation.Base.{◌≡◌, refl, List, [], ◌∷◌, All, Bool, true, false, if◌then◌else◌}
use atomicity_violation.Base.Result.{Result, ok, fault, bind}
use atomicity_violation.Llvm.{Llvm}
use atomicity_violation.Llvm.Builder.{Build}
use atomicity_violation.Pass.{Action, next, leave, before, after}
use atomicity_violation.Pass.Walk.Laws.{annotate}
use atomicity_violation.Readable.{Choose}
use atomicity_violation.Readable.Builds.{IsOk, Ends}

pub bind-IsOk :
    {A B : Type 0} (r : Result A) (f : A → Result B)
    → IsOk r
    → ((a : A) → IsOk (f a))
    → IsOk (bind r f)
bind-IsOk (ok a) f p q = q a
bind-IsOk (fault e) f p q = elim p [ ]

module _ {L : Llvm} where
  pub before-IsOk : (m : Build L (Unit {0})) (w : L.World) → Ends {L = L} m → IsOk (before m w)
  before-IsOk m w p =
      bind-IsOk (m (record { world = w; inserted = [] })) _
        (p.each (record { world = w; inserted = [] })) (λ a. tt)

  pub after-IsOk : (m : Build L (Unit {0})) (w : L.World) → Ends {L = L} m → IsOk (after m w)
  after-IsOk m w p =
      bind-IsOk (m (record { world = w; inserted = [] })) _
        (p.each (record { world = w; inserted = [] })) (λ a. tt)

  module _ (handle : L.Inst → L.World → Result (Action L)) (readable : L.Inst → Type 0)
      (ends : (i : L.Inst) (w : L.World) → readable i → IsOk (handle i w)) where
    pub annotate-IsOk :
        (block : List L.Inst) (w : L.World) → All readable block → IsOk (annotate handle block w)
    unfolding annotate
    annotate-IsOk [] w p = tt
    annotate-IsOk (i ∷ rest) w (p, ps) =
        go (handle i w) refl (ends i w p) (λ w'. annotate-IsOk rest w' ps)
      where
        go :
            (r : Result (Action L))
            → handle i w ≡ r
            → IsOk r
            → ((w' : L.World) → IsOk (annotate handle rest w'))
            → IsOk (annotate handle (i ∷ rest) w)
        go (fault e) q g ih = elim g [ ]
        go (ok leave) q g ih = rw (q, annotate) tt
        go (ok (next xs ys w')) q g ih =
            rw (q, annotate) (bind-IsOk (annotate handle rest w') _ (ih w') (λ a. tt))

pub record Returns {A : Type 0} (r : Result A) : Type 0 where
  pub is_ok : IsOk r

-- A test for a lock operation before the other tests.
pub Returns-if :
    {L : Llvm} {A B : Type 0} (c : Bool) {m : Build L (Unit {0})} (w : L.World)
    {r : Result (Action L)}
    → (A → Ends {L = L} m)
    → (B → Returns r)
    → Choose c A B
    → Returns (if c then before m w else r)
Returns-if true {m} w f g p = record { is_ok = before-IsOk m w (f p) }
Returns-if false w f g p = g p
