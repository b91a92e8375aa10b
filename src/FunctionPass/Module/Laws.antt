-- ===== src/FunctionPass/Module/Laws.antt =====
-- What the runs on the functions of a module add to it.
use atomicity_violation.Base.{
  ℕ, ◌+◌, ◌≡◌, ◌≢◌, refl, sym, ◌∙◌, ap, subst, true, false, Option, none, some, List, [], ◌∷◌,
  arith, All, Bytes, codes, get_elem?, Bool-cases, inl, inr,
}
use atomicity_violation.Base.Result.{Result, ok, fault, bind, no_function}
use atomicity_violation.Llvm.{Llvm, IsLawful}
use atomicity_violation.Pass.{Hooks}
use atomicity_violation.Pass.Init.{Function, Module, State}
use atomicity_violation.Pass.Init.Laws.{function_calls}
use atomicity_violation.HelloWorld.Run.{Outcome, all, instrumented, ensure_initialized}
use atomicity_violation.HelloWorld.Run.Laws.{get_elem?-set_ne}
use atomicity_violation.FunctionPass.Run.{
  is_foreign, visit_blocks, messages, log_function, run_function,
}
use atomicity_violation.FunctionPass.Run.Counts.{run_function-calls}
use atomicity_violation.FunctionPass.Module.{Outside, Distinct, run_each, due_in, due_calls}
use atomicity_violation.FunctionPass.Module.Kept.{SameAt, IsKeptBy, block_logs-AllKept}

module _ {L : Llvm} where
  due_in-SameAt :
      (name : Bytes) (o o' : Option (Function L)) → SameAt L o o' → due_in name o' ≡ due_in name o
  due_in-SameAt name none none h = refl
  due_in-SameAt name none (some f) h = elim h [ ]
  due_in-SameAt name (some f) none h = elim h [ ]
  due_in-SameAt name (some f) (some f') (n, b) =
      rw (n, block_logs-AllKept L f.blocks f'.blocks b) refl

  pub due_calls-IsKeptBy :
      (m m' : Module L) → IsKeptBy L m m' → (ks : List ℕ) → due_calls m' ks ≡ due_calls m ks
  due_calls-IsKeptBy m m' kept [] = refl
  due_calls-IsKeptBy m m' kept (k ∷ ks) =
      let here : due_in m'.name (get_elem? m'.functions k)
          ≡ due_in m.name (get_elem? m.functions k) =
        ap (λ n. due_in n (get_elem? m'.functions k)) kept.name
        ∙ due_in-SameAt m.name _ _ (kept.functions k) in
      omega (arith, here, due_calls-IsKeptBy m m' kept ks)

  due_calls-others :
      (m m' : Module L) (k : ℕ)
      → m'.name ≡ m.name
      → ((j : ℕ) → j ≢ k → get_elem? m'.functions j ≡ get_elem? m.functions j)
      → (ks : List ℕ) → All (λ j. j ≢ k) ks
      → due_calls m' ks ≡ due_calls m ks
  due_calls-others m m' k named others [] ne = refl
  due_calls-others m m' k named others (j ∷ ks) (ne, nes) =
      let here : due_in m'.name (get_elem? m'.functions j)
          ≡ due_in m.name (get_elem? m.functions j) =
        ap (λ n. due_in n (get_elem? m'.functions j)) named ∙ ap (due_in m.name) (others j ne) in
      omega (arith, here, due_calls-others m m' k named others ks nes)

-- A run once the pass is initialized.
pub record IsRun (L : Llvm) (st : State L) (m : Module L) (k : ℕ) (o : Outcome L) : Type 0 where
  pub state_kept : o.state ≡ st
  pub name_kept : o.mod_after.name ≡ m.name
  pub others_kept : (j : ℕ) → j ≢ k → get_elem? o.mod_after.functions j ≡ get_elem? m.functions j
  pub logged :
      function_calls L o.mod_after.functions
      ≡ function_calls L m.functions + due_in m.name (get_elem? m.functions k)

module _ {L : Llvm} where
  abbrev pub Ran : State L → Module L → ℕ → Result (Outcome L) → Type 0
  Ran st m k (ok o) = IsRun L st m k o
  Ran st m k (fault e) = Unit

  -- What the runs leave, if they end: as many calls more as are due, and the functions that they
  -- are not on as they were.
  abbrev pub RanEach : State L → Module L → List ℕ → Result (State L × Module L) → Type 0
  RanEach st m ks (ok (st', m')) =
      (function_calls L m'.functions ≡ function_calls L m.functions + due_calls m ks)
      × ((j : ℕ) → Outside ks j → get_elem? m'.functions j ≡ get_elem? m.functions j)
  RanEach st m ks (fault e) = Unit

  pub foreign_run :
      (st : State L) (m : Module L) (k : ℕ) (f : Function L)
      → get_elem? m.functions k ≡ some f
      → is_foreign m.name f.name ≡ true
      → run_function st m k
        ≡ ok (record { preserved = all; output = []; state = st; mod_after = m })
  unfolding run_function
  foreign_run st m k f present q = ground arith

  pub missing_run :
      (st : State L) (m : Module L) (k : ℕ)
      → get_elem? m.functions k ≡ none
      → run_function st m k ≡ fault no_function
  unfolding run_function
  missing_run st m k q = ground arith

  pub local_run :
      (st : State L) (m : Module L) (k : ℕ) (f : Function L) (h : Hooks L)
      → get_elem? m.functions k ≡ some f
      → st.initial ≡ true
      → st.hooks ≡ some h
      → is_foreign m.name f.name ≡ false
      → run_function st m k
        ≡ bind
            (visit_blocks h f.name f.blocks m.world)
            (λ done. ok (instrumented st (messages st f.name) m k f done))
  unfolding run_function log_function ensure_initialized
  local_run st m k f h present initialized hooked targeted = ground arith

module _ {L : Llvm} (law : IsLawful L) (h : Hooks L)
    (named : L.callee_name h.p_probe ≡ some (codes "_probe_")) where
  local_run-Ran :
      (st : State L) (m : Module L) (k : ℕ) (f : Function L)
      → get_elem? m.functions k ≡ some f
      → st.initial ≡ true
      → st.hooks ≡ some h
      → is_foreign m.name f.name ≡ false
      → Ran st m k (run_function st m k)
  local_run-Ran st m k f present initialized hooked targeted =
      go (visit_blocks h f.name f.blocks m.world)
        (local_run st m k f h present initialized hooked targeted)
    where
      go :
          (r : Result (List (List L.Inst) × L.World))
          → run_function st m k
            ≡ bind r (λ done. ok (instrumented st (messages st f.name) m k f done))
          → Ran st m k (run_function st m k)
      go (fault e) q = rw q tt
      go (ok (blocks, w)) q = subst (Ran st m k) (sym q) (record {
        state_kept = refl;
        name_kept = refl;
        others_kept = λ j ne. get_elem?-set_ne L m.functions k j _ ne;
        logged =
            rw (present, targeted)
              (run_function-calls law h named st m k f _ present initialized hooked targeted q);
      })

  pub run_function-Ran :
      (st : State L) (m : Module L) (k : ℕ)
      → st.initial ≡ true
      → st.hooks ≡ some h
      → Ran st m k (run_function st m k)
  run_function-Ran st m k initialized hooked = found (get_elem? m.functions k) refl
    where
      skipped :
          (f : Function L)
          → get_elem? m.functions k ≡ some f
          → is_foreign m.name f.name ≡ true
          → Ran st m k (run_function st m k)
      skipped f present q = subst (Ran st m k) (sym (foreign_run st m k f present q)) (record {
        state_kept = refl;
        name_kept = refl;
        others_kept = λ j ne. refl;
        logged = rw (present, q) (omega arith);
      })

      found :
          (o : Option (Function L)) → get_elem? m.functions k ≡ o → Ran st m k (run_function st m k)
      found none present = rw (missing_run st m k present) tt
      found (some f) present = elim (Bool-cases (is_foreign m.name f.name)) [
        | inl q ↦ skipped f present q
        | inr q ↦ local_run-Ran st m k f present initialized hooked q
      ]

  pub run_each-RanEach :
      (ks : List ℕ) (st : State L) (m : Module L)
      → Distinct ks
      → st.initial ≡ true
      → st.hooks ≡ some h
      → RanEach st m ks (run_each st m ks)
  unfolding run_each
  run_each-RanEach [] st m d initialized hooked = (omega arith, λ j out. refl)
  run_each-RanEach (k ∷ ks) st m (apart, d) initialized hooked =
      go (run_function st m k) refl (run_function-Ran st m k initialized hooked)
        (λ st' m' i s. run_each-RanEach ks st' m' d i s)
    where
      join :
          (o : Outcome L)
          → IsRun L st m k o
          → (r : Result (State L × Module L)) → RanEach o.state o.mod_after ks r
          → RanEach st m (k ∷ ks) r
      join o run (ok (st', m')) (p, kept) = (
        omega (
          arith,
          p,
          run.logged,
          due_calls-others m o.mod_after k run.name_kept run.others_kept ks apart,
        ),
        λ j (ne, nes). kept j nes ∙ run.others_kept j (λ e. ne (sym e)),
      )
      join o run (fault e) p = tt

      go :
          (r : Result (Outcome L))
          → run_function st m k ≡ r
          → Ran st m k r
          → ((st' : State L) (m' : Module L)
              → st'.initial ≡ true
              → st'.hooks ≡ some h
              → RanEach st' m' ks (run_each st' m' ks))
          → RanEach st m (k ∷ ks) (run_each st m (k ∷ ks))
      go (fault e) q run ih = rw (q, run_each) tt
      go (ok o) q run ih =
          rw (q, run_each)
            (join o run (run_each o.state o.mod_after ks) (
              ih o.state o.mod_after (ap (λ s. s.initial) run.state_kept ∙ initialized)
                (ap (λ s. s.hooks) run.state_kept ∙ hooked)))
