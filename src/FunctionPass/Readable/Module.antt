-- ===== src/FunctionPass/Readable/Module.antt =====
-- Runs of HelloWorld/function.cpp on the functions of a module end if they find all operands.
use atomicity_violation.Base.{
  ℕ, ◌≡◌, refl, sym, ◌∙◌, ap, subst, Bool-cases, inl, inr, true, Option, none, some, List, [], ◌∷◌,
  All, codes, get_elem?,
}
use atomicity_violation.Base.Result.{Result, ok, fault}
use atomicity_violation.Llvm.{Llvm, IsLawful}
use atomicity_violation.Llvm.Reading.{Reading, IsFaithful}
use atomicity_violation.Pass.{Hooks}
use atomicity_violation.Pass.Init.{Function, Module, State, fresh, initialization}
use atomicity_violation.HelloWorld.Run.{Outcome}
use atomicity_violation.FunctionPass.Run.{is_foreign, run_function}
use atomicity_violation.FunctionPass.Module.{Distinct, run_each}
use atomicity_violation.Pass.Entry.{IsInit}
use atomicity_violation.FunctionPass.Module.Kept.{
  Inserted, here, there, AllKept, SameAt, IsKeptBy, initialization-IsKeptBy,
}
use atomicity_violation.FunctionPass.Module.Laws.{Ran, run_function-Ran, foreign_run}
use atomicity_violation.FunctionPass.Module.Fresh.{ready, Starts, never, from, run_each-Starts}
use atomicity_violation.FunctionPass.Readable.{IsReadable}
use atomicity_violation.Readable.{IsAddressing, HasOperands, IfKnown}
use atomicity_violation.Events.Due.{mangled_rules}
use atomicity_violation.Readable.Builds.{IsOk}
use atomicity_violation.FunctionPass.Readable.Laws.{run_function-IsOk}
use atomicity_violation.Events.Types.{initialization-IsReady}
use atomicity_violation.Events.Module.{All-others, All-map}

module _ (L : Llvm) where
  -- There is a function, and all its instructions are readable.
  abbrev pub ReadableAt : Option (Function L) → Type 0
  ReadableAt none = ⊥
  ReadableAt (some f) = All (All (IsReadable L)) f.blocks

  abbrev pub AllReadable : Module L → List ℕ → Type 0
  AllReadable m = All (λ k. ReadableAt (get_elem? m.functions k))

  IsReadable-init : (new : L.Inst) → IsInit L new → IsReadable L new
  IsReadable-init new init = go (L.debug_line new)
    where
      go : (d : Option ℕ) → IfKnown L d (HasOperands L mangled_rules none (L.opcode new) new)
      go none = tt
      go (some line) = subst (λ o. HasOperands L mangled_rules none o new) (sym init.is_call) tt

  AllReadable-Inserted :
      {b b' : List L.Inst} → Inserted L b b' → All (IsReadable L) b → All (IsReadable L) b'
  AllReadable-Inserted (here {new} init) u = (IsReadable-init new init, u)
  AllReadable-Inserted (there p) (e, u) = (e, AllReadable-Inserted p u)

  AllReadable-AllKept :
      (bs bs' : List (List L.Inst))
      → AllKept L bs bs'
      → All (All (IsReadable L)) bs
      → All (All (IsReadable L)) bs'
  AllReadable-AllKept [] [] p u = tt
  AllReadable-AllKept [] (b' ∷ bs') p u = elim p [ ]
  AllReadable-AllKept (b ∷ bs) [] p u = elim p [ ]
  AllReadable-AllKept (b ∷ bs) (b' ∷ bs') (inl e, ps) (u, us) =
      (subst (All (IsReadable L)) (sym e) u, AllReadable-AllKept bs bs' ps us)
  AllReadable-AllKept (b ∷ bs) (b' ∷ bs') (inr p, ps) (u, us) =
      (AllReadable-Inserted p u, AllReadable-AllKept bs bs' ps us)

  ReadableAt-SameAt : (a b : Option (Function L)) → SameAt L a b → ReadableAt a → ReadableAt b
  ReadableAt-SameAt none b s u = elim u [ ]
  ReadableAt-SameAt (some f) none s u = elim s [ ]
  ReadableAt-SameAt (some f) (some f') (n, p) u = AllReadable-AllKept f.blocks f'.blocks p u

module _ {L : Llvm} (law : IsLawful L) (addressing : IsAddressing L) where
  module _ (h : Hooks L) (typed : h.ptr_ty ≡ L.int8_ptr_ty)
      (named : L.callee_name h.p_probe ≡ some (codes "_probe_")) where
    run_each-IsOk :
        (ks : List ℕ) (st : State L) (m : Module L)
        → Distinct ks
        → AllReadable L m ks
        → st.initial ≡ true
        → st.hooks ≡ some h
        → IsOk (run_each st m ks)
    unfolding run_each
    run_each-IsOk [] st m d u initialized hooked = tt
    run_each-IsOk (k ∷ ks) st m (apart, d) (u, us) initialized hooked =
        go (run_function st m k) refl (ended (get_elem? m.functions k) refl u)
          (run_function-Ran law h named st m k initialized hooked)
          (λ st' m' us' i s. run_each-IsOk ks st' m' d us' i s)
      where
        ended :
            (o : Option (Function L))
            → get_elem? m.functions k ≡ o
            → ReadableAt L o
            → IsOk (run_function st m k)
        ended none present p = elim p [ ]
        ended (some f) present p =
            run_function-IsOk law addressing h typed named st m k f present initialized hooked p

        go :
            (r : Result (Outcome L))
            → run_function st m k ≡ r
            → IsOk r
            → Ran st m k r
            → ((st' : State L) (m' : Module L)
                → AllReadable L m' ks
                → st'.initial ≡ true
                → st'.hooks ≡ some h
                → IsOk (run_each st' m' ks))
            → IsOk (run_each st m (k ∷ ks))
        go (fault e) q p run ih = elim p [ ]
        go (ok o) q p run ih =
            rw (q, run_each)
              (ih o.state o.mod_after
                (All-others k (λ j ne. subst (ReadableAt L) (sym (run.others_kept j ne))) ks apart
                  us)
                (ap (λ s. s.initial) run.state_kept ∙ initialized)
                (ap (λ s. s.hooks) run.state_kept ∙ hooked))

  module _ (R : Reading L) (faithful : IsFaithful L R) (m : Module L)
      (initializes : IsOk (initialization m)) where
    first-IsOk :
        (ks : List ℕ)
        → Distinct ks
        → AllReadable L m ks
        → Starts R law faithful m ks
        → IsOk (run_each (fresh L) m ks)
    first-IsOk ks d us (never e init q) = elim (subst IsOk init initializes) [ ]
    first-IsOk ks d us (from h m' init q) = subst IsOk (sym q) (
        run_each-IsOk h (initialization-IsReady R faithful m m' h init).ptr_ty
          (initialization-IsReady R faithful m m' h init).p_probe ks (ready h) m' d
          (All-map (λ j. ReadableAt-SameAt L _ _ (kept.functions j)) ks us) refl refl)
      where
        kept : IsKeptBy L m m'
        kept = initialization-IsKeptBy R law faithful m m' h init

    fresh-IsOk : (ks : List ℕ) → Distinct ks → AllReadable L m ks → IsOk (run_each (fresh L) m ks)
    unfolding run_each
    fresh-IsOk [] d us = tt
    fresh-IsOk (k ∷ ks) (apart, d) (u, us) =
        found (get_elem? m.functions k) refl u (fresh-IsOk ks d us)
      where
        found :
            (o : Option (Function L))
            → get_elem? m.functions k ≡ o
            → ReadableAt L o
            → IsOk (run_each (fresh L) m ks)
            → IsOk (run_each (fresh L) m (k ∷ ks))
        found none q p ih = elim p [ ]
        found (some f) q p ih = elim (Bool-cases (is_foreign m.name f.name)) [
          | inl skipped ↦ rw (foreign_run (fresh L) m k f q skipped, run_each) ih
          | inr targeted ↦
              first-IsOk (k ∷ ks) (apart, d) (u, us)
                (run_each-Starts R law faithful m k ks f q targeted)
        ]

    -- If LLVM behaves as documented, and `initialization` of a module ends without a fault, and
    -- there are functions at the given different indices, in which every instruction with a line of
    -- the source has the operands that its probe needs, of types that the casts and the steps into
    -- a guard are valid for, and, if it is an invoke, a known function, then the runs of
    -- function.cpp on them, one after the other, from a pass that is not initialized, all end
    -- without a fault.
    pub run_each-ends :
        (ks : List ℕ)
        → Distinct ks
        → AllReadable L m ks
        → (r : State L × Module L) × (run_each (fresh L) m ks ≡ ok r)
    run_each-ends ks d us = go (run_each (fresh L) m ks) refl (fresh-IsOk ks d us)
      where
        go :
            (r : Result (State L × Module L))
            → run_each (fresh L) m ks ≡ r
            → IsOk r
            → (r' : State L × Module L) × (run_each (fresh L) m ks ≡ ok r')
        go (ok r) q p = (r, q)
        go (fault e) q p = elim p [ ]
