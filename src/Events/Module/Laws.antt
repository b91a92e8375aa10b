-- ===== src/Events/Module/Laws.antt =====
-- Runs of HelloWorld/function.cpp on the functions of a module leave the probes that are due.
use atomicity_violation.Base.{
  ℕ, ◌≡◌, refl, sym, ◌∙◌, ap, subst, Bool-cases, inl, inr, true, false, Option, none, some, List,
  [], ◌∷◌, get_elem?,
}
use atomicity_violation.Base.Result.{Result, ok, fault}
use atomicity_violation.Llvm.{Llvm, IsLawful}
use atomicity_violation.Llvm.Reading.{Reading, IsFaithful}
use atomicity_violation.Pass.{Hooks}
use atomicity_violation.Pass.Init.{Function, Module, State, fresh}
use atomicity_violation.HelloWorld.Run.{Outcome}
use atomicity_violation.FunctionPass.Run.{is_foreign, run_function}
use atomicity_violation.FunctionPass.Module.{Distinct, run_each}
use atomicity_violation.FunctionPass.Module.Kept.{SameAt, IsKeptBy, initialization-IsKeptBy}
use atomicity_violation.FunctionPass.Module.Laws.{
  IsRun, Ran, run_function-Ran, foreign_run, missing_run, RanEach, run_each-RanEach,
}
use atomicity_violation.FunctionPass.Module.Fresh.{
  ready, Starts, never, from, run_each-Starts, Added, run_each-Added,
}
use atomicity_violation.Events.Probes.{IsReady}
use atomicity_violation.Events.Types.{initialization-IsReady}
use atomicity_violation.Events.Runs.{due_in_function, IsProbed, run_function-IsProbed}
use atomicity_violation.Events.Module.{
  All-others, All-map, Annotated, Unprobed, AllUnprobed, AllAnnotated, EachAnnotated, RunAnnotated,
  Annotated-SameAt, Unprobed-SameAt, Annotated-foreign,
}

module _ {L : Llvm} (R : Reading L) (law : IsLawful L) (faithful : IsFaithful L R) where
  module _ (h : Hooks L) (is_ready : IsReady L h) where
    run_function-Annotated :
        (st : State L) (m : Module L) (k : ℕ)
        → Unprobed R (get_elem? m.functions k)
        → st.initial ≡ true
        → st.hooks ≡ some h
        → RunAnnotated R m k (run_function st m k)
    run_function-Annotated st m k u initialized hooked = found (get_elem? m.functions k) refl
      where
        local :
            (f : Function L)
            → get_elem? m.functions k ≡ some f
            → is_foreign m.name f.name ≡ false
            → (r : Result (Outcome L)) → run_function st m k ≡ r
            → RunAnnotated R m k r
        local f present q (fault e) done = tt
        local f present q (ok o) done =
            let p : IsProbed R (due_in_function R f.name) k f o =
              run_function-IsProbed R law faithful h is_ready st m k f o present
                (subst (Unprobed R) present u) initialized hooked q done in
            subst (λ x. Annotated R m.name x (get_elem? o.mod_after.functions k)) (sym present)
              (subst (Annotated R m.name (some f)) (sym p.present) (p.name_kept, rw q p.events))

        skipped :
            (f : Function L)
            → get_elem? m.functions k ≡ some f
            → is_foreign m.name f.name ≡ true
            → RunAnnotated R m k (run_function st m k)
        skipped f present q =
            subst (RunAnnotated R m k) (sym (foreign_run st m k f present q))
              (subst (λ x. Annotated R m.name x x) (sym present) (refl, rw q refl))

        found :
            (o : Option (Function L))
            → get_elem? m.functions k ≡ o
            → RunAnnotated R m k (run_function st m k)
        found none present = subst (RunAnnotated R m k) (sym (missing_run st m k present)) tt
        found (some f) present = elim (Bool-cases (is_foreign m.name f.name)) [
          | inl q ↦ skipped f present q
          | inr q ↦ local f present q (run_function st m k) refl
        ]

    run_each-EachAnnotated :
        (ks : List ℕ) (st : State L) (m : Module L)
        → Distinct ks
        → AllUnprobed R m ks
        → st.initial ≡ true
        → st.hooks ≡ some h
        → EachAnnotated R m ks (run_each st m ks)
    unfolding run_each
    run_each-EachAnnotated [] st m d u initialized hooked = tt
    run_each-EachAnnotated (k ∷ ks) st m (apart, d) (u, us) initialized hooked =
        go (run_function st m k) refl
          (run_function-Ran law h is_ready.p_probe st m k initialized hooked)
          (run_function-Annotated st m k u initialized hooked)
          (λ st' m' us' i s. run_each-EachAnnotated ks st' m' d us' i s)
      where
        join :
            (o : Outcome L)
            → IsRun L st m k o
            → RunAnnotated R m k (ok o)
            → (r : Result (State L × Module L)) → RanEach o.state o.mod_after ks r
            → EachAnnotated R o.mod_after ks r
            → EachAnnotated R m (k ∷ ks) r
        join o run annotated (fault e) ran each = tt
        join o run annotated (ok (st', m')) (count, kept) each = (
          subst (Annotated R m.name (get_elem? m.functions k)) (sym (kept k apart)) annotated,
          All-others k
              (λ j ne p.
                subst (λ x. Annotated R m.name x (get_elem? m'.functions j)) (run.others_kept j ne)
                  (subst
                    (λ name.
                      Annotated R name (get_elem? o.mod_after.functions j)
                        (get_elem? m'.functions j))
                    run.name_kept p))
              ks apart each,
        )

        go :
            (r : Result (Outcome L))
            → run_function st m k ≡ r
            → Ran st m k r
            → RunAnnotated R m k r
            → ((st' : State L) (m' : Module L)
                → AllUnprobed R m' ks
                → st'.initial ≡ true
                → st'.hooks ≡ some h
                → EachAnnotated R m' ks (run_each st' m' ks))
            → EachAnnotated R m (k ∷ ks) (run_each st m (k ∷ ks))
        go (fault e) q run annotated ih = rw (q, run_each) tt
        go (ok o) q run annotated ih =
            let initialized' : o.state.initial ≡ true =
              ap (λ s. s.initial) run.state_kept ∙ initialized in
            let hooked' : o.state.hooks ≡ some h = ap (λ s. s.hooks) run.state_kept ∙ hooked in
            rw (q, run_each)
              (join o run annotated (run_each o.state o.mod_after ks)
                (run_each-RanEach law h is_ready.p_probe ks o.state o.mod_after d initialized'
                  hooked')
                (ih o.state o.mod_after
                  (All-others k (λ j ne. subst (Unprobed R) (sym (run.others_kept j ne))) ks apart
                    us)
                  initialized' hooked'))

  first-EachAnnotated :
      (m : Module L) (ks : List ℕ)
      → Distinct ks
      → AllUnprobed R m ks
      → Starts R law faithful m ks
      → EachAnnotated R m ks (run_each (fresh L) m ks)
  first-EachAnnotated m ks d us (never e init q) = subst (EachAnnotated R m ks) (sym q) tt
  first-EachAnnotated m ks d us (from h m' init q) = subst (EachAnnotated R m ks) (sym q) (
      finish (run_each (ready h) m' ks) (
        run_each-EachAnnotated h (initialization-IsReady R faithful m m' h init) ks (ready h) m' d
          (All-map (λ j. Unprobed-SameAt R _ _ (kept.functions j)) ks us) refl refl))
    where
      kept : IsKeptBy L m m'
      kept = initialization-IsKeptBy R law faithful m m' h init

      finish : (r : Result (State L × Module L)) → EachAnnotated R m' ks r → EachAnnotated R m ks r
      finish (fault e) each = tt
      finish (ok (st'', m'')) each =
          All-map
            (λ j p. Annotated-SameAt R m.name _ _ _ (kept.functions j) (
              subst
                (λ name. Annotated R name (get_elem? m'.functions j) (get_elem? m''.functions j))
                kept.name p))
            ks each

  run_each-Annotated :
      (m : Module L) (ks : List ℕ)
      → Distinct ks
      → AllUnprobed R m ks
      → EachAnnotated R m ks (run_each (fresh L) m ks)
  unfolding run_each
  run_each-Annotated m [] d us = tt
  run_each-Annotated m (k ∷ ks) (apart, d) (u, us) =
      found (get_elem? m.functions k) refl (run_each-Annotated m ks d us)
    where
      skip :
          (f : Function L)
          → get_elem? m.functions k ≡ some f
          → is_foreign m.name f.name ≡ true
          → (r : Result (State L × Module L)) → Added m ks r
          → EachAnnotated R m ks r
          → EachAnnotated R m (k ∷ ks) r
      skip f present q (fault e) added each = tt
      skip f present q (ok (st', m')) (count, others) each = (
        subst (λ x. Annotated R m.name x (get_elem? m'.functions k)) (sym present)
            (Annotated-foreign R m.name f (get_elem? m'.functions k) q
              (subst (λ x. SameAt L x (get_elem? m'.functions k)) present (others k apart))),
        each,
      )

      found :
          (o : Option (Function L))
          → get_elem? m.functions k ≡ o
          → EachAnnotated R m ks (run_each (fresh L) m ks)
          → EachAnnotated R m (k ∷ ks) (run_each (fresh L) m (k ∷ ks))
      found none q ih = rw (missing_run (fresh L) m k q, run_each) tt
      found (some f) q ih = elim (Bool-cases (is_foreign m.name f.name)) [
        | inl skipped ↦
            rw (foreign_run (fresh L) m k f q skipped, run_each)
              (skip f q skipped (run_each (fresh L) m ks) (run_each-Added R law faithful m ks d) ih)
        | inr targeted ↦
            first-EachAnnotated m (k ∷ ks) (apart, d) (u, us)
              (run_each-Starts R law faithful m k ks f q targeted)
      ]

  -- If LLVM behaves as documented, and a pass that is not initialized is run on different functions
  -- of a module, which hold no calls of probes, one after the other, and all runs end without a
  -- fault, then each of the functions keeps its name, and its blocks hold the calls of probes that
  -- the table asks for, with the function's name, if the filter lets it pass, and else no others
  -- than before.
  pub run_each-AllAnnotated :
      (m m' : Module L) (st' : State L) (ks : List ℕ)
      → Distinct ks
      → AllUnprobed R m ks
      → run_each (fresh L) m ks ≡ ok (st', m')
      → AllAnnotated R m m' ks
  run_each-AllAnnotated m m' st' ks d us e =
      subst (EachAnnotated R m ks) e (run_each-Annotated m ks d us)
