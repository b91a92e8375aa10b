-- ===== src/Events/Blocks.antt =====
-- From the probes of an instruction to those of a block.
use atomicity_violation.Base.{
  ◌≡◌, refl, ◌∙◌, Bool, true, false, List, [], ◌∷◌, ◌++◌, append-nil, All, if◌then◌else◌,
}
use atomicity_violation.Base.Result.{Result, ok, fault, bind}
use atomicity_violation.Llvm.{Llvm}
use atomicity_violation.Llvm.Builder.{Builder, Build}
use atomicity_violation.Llvm.Reading.{Reading}
use atomicity_violation.Pass.{Action, next, leave, before, after}
use atomicity_violation.Pass.Walk.{prepend}
use atomicity_violation.Pass.Walk.Laws.{annotate}
use atomicity_violation.HelloWorld.Handle.Probes.{Outcome, Comes}
use atomicity_violation.Events.Seen.{Event, seen_at, seen, seen-append}
use atomicity_violation.Events.Emits.{Post, Emits}

module _ {L : Llvm} (R : Reading L) where
  -- What is seen in the insertions of an action.
  abbrev pub Insertions : List (Event L) → Result (Action L) → Type 0
  Insertions es (ok (next before after w)) = seen R (before ++ after) ≡ es
  Insertions es (ok leave) = Unit
  Insertions es (fault e) = Unit

  pub record Shows (es : List (Event L)) (r : Result (Action L)) : Type 0 where
    pub insertions : Insertions es r

  pub Shows-nothing : (w : L.World) → Shows [] (ok (next [] [] w))
  Shows-nothing w = record { insertions = refl }

  pub Shows-before :
      (es : List (Event L)) (m : Build L (Unit {0})) (w : L.World)
      → Emits R es (λ _. Unit) m
      → Shows es (before m w)
  Shows-before es m w h = go (m start) (h.each start)
    where
      start : Builder L
      start = record { world = w; inserted = [] }

      go :
          (r : Result (Unit {0} × Builder L))
          → Post R es (λ _. Unit) start r
          → Shows es (bind r (λ (_, b). ok (next b.inserted [] b.world)))
      go (ok (a, b)) p = record { insertions = rw append-nil p.0 }
      go (fault e) p = record { insertions = tt }

  pub Shows-after :
      (es : List (Event L)) (m : Build L (Unit {0})) (w : L.World)
      → Emits R es (λ _. Unit) m
      → Shows es (after m w)
  Shows-after es m w h = go (m start) (h.each start)
    where
      start : Builder L
      start = record { world = w; inserted = [] }

      go :
          (r : Result (Unit {0} × Builder L))
          → Post R es (λ _. Unit) start r
          → Shows es (bind r (λ (_, b). ok (next [] b.inserted b.world)))
      go (ok (a, b)) p = record { insertions = p.0 }
      go (fault e) p = record { insertions = tt }

  -- A test for a lock operation before the other tests.
  pub Shows-if :
      (c : Bool) (es es' : List (Event L)) (m : Build L (Unit {0})) (w : L.World)
      (r : Result (Action L))
      → Emits R es (λ _. Unit) m
      → Shows es' r
      → Shows (if c then es else es') (if c then before m w else r)
  Shows-if true es es' m w r p q = Shows-before es m w p
  Shows-if false es es' m w r p q = q

  -- The block holds no call of a probe.
  abbrev pub IsUnprobed : List L.Inst → Type 0
  IsUnprobed = All (λ i. seen_at R i ≡ [])

  seen-IsUnprobed : (block : List L.Inst) → IsUnprobed block → seen R block ≡ []
  seen-IsUnprobed [] u = refl
  seen-IsUnprobed (i ∷ rest) (e, u) = rw (e, seen-IsUnprobed rest u) refl

  seen_around :
      (before : List L.Inst) (i : L.Inst) (after rest : List L.Inst)
      → seen_at R i ≡ []
      → seen R ((before ++ (i ∷ after)) ++ rest) ≡ seen R (before ++ after) ++ seen R rest
  seen_around before i after rest e =
      rw
        (
          seen-append R (before ++ (i ∷ after)) rest,
          seen-append R before (i ∷ after),
          seen-append R before after,
          e,
        )
        refl

  module _ (breaks : L.Inst → Bool) (due : L.Inst → List (Event L)) where
    -- The specification: the probes that are due in a block, up to the instruction that ends the
    -- loop.
    abbrev pub due_block : List L.Inst → List (Event L)
    due_block [] = []
    due_block (i ∷ rest) = let more = due i ++ due_block rest in if breaks i then [] else more

    abbrev pub SeenDue : List L.Inst → Result (List L.Inst × L.World) → Type 0
    SeenDue block (ok (block', w)) = seen R block' ≡ due_block block
    SeenDue block (fault e) = Unit

    module _ (handle : L.Inst → L.World → Result (Action L)) (traced : L.Inst → Bool)
        (comes : (i : L.Inst) (w : L.World)
          → Comes (traced i) (breaks i) (L.called_function i) (handle i w))
        (shows : (i : L.Inst) (w : L.World) → Shows (due i) (handle i w)) where
      pub annotate-SeenDue :
          (block : List L.Inst) (w : L.World)
          → IsUnprobed block
          → SeenDue block (annotate handle block w)
      unfolding annotate
      annotate-SeenDue [] w u = refl
      annotate-SeenDue (i ∷ rest) w (e, u) =
          go (handle i w) refl (comes i w).outcome (shows i w).insertions
            (λ w'. annotate-SeenDue rest w' u)
        where
          add :
              (before after : List L.Inst) (r : Result (List L.Inst × L.World))
              → breaks i ≡ false
              → seen R (before ++ after) ≡ due i
              → SeenDue rest r
              → SeenDue (i ∷ rest) (prepend handle (before ++ (i ∷ after)) r)
          add before after (ok (ys, w')) b s q =
              rw b (seen_around before i after ys e ∙ rw (s, q) refl)
          add before after (fault e') b s q = tt

          go :
              (r : Result (Action L))
              → handle i w ≡ r
              → Outcome (traced i) (breaks i) (L.called_function i) (handle i w)
              → Insertions (due i) (handle i w)
              → ((w' : L.World) → SeenDue rest (annotate handle rest w'))
              → SeenDue (i ∷ rest) (annotate handle (i ∷ rest) w)
          go (fault e') q o s ih = rw (q, annotate) tt
          go (ok leave) q o s ih =
              let b : breaks i ≡ true = rw q at o in
              rw (q, annotate) (rw b (seen-IsUnprobed (i ∷ rest) (e, u)))
          go (ok (next before after w')) q o s ih =
              rw (q, annotate)
                (add before after (annotate handle rest w') (rw q at o).0 (rw q at s) (ih w'))
