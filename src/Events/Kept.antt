-- ===== src/Events/Kept.antt =====
-- A call of `_init_` in a block changes nothing of the probes that it holds or that are due in it.
use atomicity_violation.Base.{
  ℕ, ◌≡◌, refl, Option, none, some, List, [], ◌∷◌, inl, inr, subst, sym, Bytes, codes,
}
use atomicity_violation.Llvm.{Llvm}
use atomicity_violation.Llvm.Reading.{Reading}
use atomicity_violation.Pass.Entry.{IsInit}
use atomicity_violation.FunctionPass.Module.Kept.{Inserted, here, there, AllKept}
use atomicity_violation.Events.Seen.{read_call, seen_at, seen}
use atomicity_violation.Events.Due.{mangled_rules, due_at}
use atomicity_violation.Events.Blocks.{IsUnprobed}
use atomicity_violation.Events.Runs.{seen_blocks, AreUnprobed, due_blocks, due_in_function}

module _ {L : Llvm} (R : Reading L) where
  read_call-init : (vs : List L.Value) → read_call R (some (codes "_init_")) vs ≡ []
  read_call-init [] = refl
  read_call-init (l ∷ []) = refl
  read_call-init (l ∷ (f ∷ [])) = refl
  read_call-init (l ∷ (f ∷ (o ∷ []))) = refl
  read_call-init (l ∷ (f ∷ (o ∷ (a ∷ [])))) = unfold atomicity_violation.Text.same in refl
  read_call-init (l ∷ (f ∷ (o ∷ (a ∷ (x ∷ vs))))) = refl

  seen_at-init : (new : L.Inst) → IsInit L new → seen_at R new ≡ []
  unfolding seen_at
  seen_at-init new init =
      rw (init.is_call, init.calls_init, seen_at) (read_call-init (R.call_arguments new))

  due_at-init :
      (fname : Bytes) (new : L.Inst) → IsInit L new → due_at R fname mangled_rules [] new ≡ []
  unfolding due_at
  due_at-init fname new init = go (L.debug_line new) refl
    where
      go : (d : Option ℕ) → L.debug_line new ≡ d → due_at R fname mangled_rules [] new ≡ []
      go none q = rw (init.is_call, q, due_at) refl
      go (some line) q = rw (init.is_call, q, init.calls_init, due_at) refl

  seen-Inserted : {b b' : List L.Inst} → Inserted L b b' → seen R b' ≡ seen R b
  seen-Inserted (here {new} init) = rw (seen_at-init new init) refl
  seen-Inserted (there p) = rw (seen-Inserted p) refl

  IsUnprobed-Inserted : {b b' : List L.Inst} → Inserted L b b' → IsUnprobed R b → IsUnprobed R b'
  IsUnprobed-Inserted (here {new} init) u = (seen_at-init new init, u)
  IsUnprobed-Inserted (there p) (e, u) = (e, IsUnprobed-Inserted p u)

  due_in_function-Inserted :
      (fname : Bytes) {b b' : List L.Inst}
      → Inserted L b b'
      → due_in_function R fname b' ≡ due_in_function R fname b
  due_in_function-Inserted fname (here {new} init) = rw (due_at-init fname new init) refl
  due_in_function-Inserted fname (there p) = rw (due_in_function-Inserted fname p) refl

  pub seen_blocks-AllKept :
      (bs bs' : List (List L.Inst)) → AllKept L bs bs' → seen_blocks R bs' ≡ seen_blocks R bs
  seen_blocks-AllKept [] [] p = refl
  seen_blocks-AllKept [] (b' ∷ bs') p = elim p [ ]
  seen_blocks-AllKept (b ∷ bs) [] p = elim p [ ]
  seen_blocks-AllKept (b ∷ bs) (b' ∷ bs') (inl e, ps) = rw (e, seen_blocks-AllKept bs bs' ps) refl
  seen_blocks-AllKept (b ∷ bs) (b' ∷ bs') (inr p, ps) =
      rw (seen-Inserted p, seen_blocks-AllKept bs bs' ps) refl

  pub due_blocks-AllKept :
      (fname : Bytes) (bs bs' : List (List L.Inst))
      → AllKept L bs bs'
      → due_blocks R (due_in_function R fname) bs' ≡ due_blocks R (due_in_function R fname) bs
  due_blocks-AllKept fname [] [] p = refl
  due_blocks-AllKept fname [] (b' ∷ bs') p = elim p [ ]
  due_blocks-AllKept fname (b ∷ bs) [] p = elim p [ ]
  due_blocks-AllKept fname (b ∷ bs) (b' ∷ bs') (inl e, ps) =
      rw (e, due_blocks-AllKept fname bs bs' ps) refl
  due_blocks-AllKept fname (b ∷ bs) (b' ∷ bs') (inr p, ps) =
      rw (due_in_function-Inserted fname p, due_blocks-AllKept fname bs bs' ps) refl

  pub AreUnprobed-AllKept :
      (bs bs' : List (List L.Inst)) → AllKept L bs bs' → AreUnprobed R bs → AreUnprobed R bs'
  AreUnprobed-AllKept [] [] p u = tt
  AreUnprobed-AllKept [] (b' ∷ bs') p u = elim p [ ]
  AreUnprobed-AllKept (b ∷ bs) [] p u = elim p [ ]
  AreUnprobed-AllKept (b ∷ bs) (b' ∷ bs') (inl e, ps) (u, us) =
      (subst (IsUnprobed R) (sym e) u, AreUnprobed-AllKept bs bs' ps us)
  AreUnprobed-AllKept (b ∷ bs) (b' ∷ bs') (inr p, ps) (u, us) =
      (IsUnprobed-Inserted p u, AreUnprobed-AllKept bs bs' ps us)
