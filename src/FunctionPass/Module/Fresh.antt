-- ===== src/FunctionPass/Module/Fresh.antt =====
-- What the runs on the functions of a module add to it, from a pass that is not initialized: the
-- first run that the filter lets pass initializes it.
use atomicity_violation.Base.{
  ℕ, ◌+◌, ◌≡◌, refl, sym, ◌∙◌, ap, subst, true, false, Option, none, some, List, [], ◌∷◌, arith,
  get_elem?, Bool-cases, inl, inr, if◌then◌else◌,
}
use atomicity_violation.Base.Result.{Fault, Result, ok, fault, bind}
use atomicity_violation.Llvm.{Llvm, IsLawful}
use atomicity_violation.Llvm.Reading.{Reading, IsFaithful}
use atomicity_violation.Pass.{Hooks}
use atomicity_violation.Pass.Init.{Function, Module, State, fresh, has_main, initialization}
use atomicity_violation.Pass.Init.Laws.{function_calls, initialization-calls}
use atomicity_violation.HelloWorld.Run.{instrumented, ensure_initialized}
use atomicity_violation.FunctionPass.Run.{
  is_foreign, visit_blocks, messages, log_function, run_function,
}
use atomicity_violation.FunctionPass.Module.{Outside, Distinct, run_each, due_calls, any_local}
use atomicity_violation.FunctionPass.Module.Kept.{
  SameAt, SameAt-refl, IsKeptBy, initialization-IsKeptBy,
}
use atomicity_violation.FunctionPass.Module.Laws.{
  due_calls-IsKeptBy, foreign_run, missing_run, local_run, RanEach, run_each-RanEach,
}
use atomicity_violation.Events.Types.{initialization-IsReady}

module _ {L : Llvm} where
  -- The state that `initialization` leaves.
  abbrev pub ready : Hooks L → State L
  ready h = record { initial = true; hooks = some h }

  -- The calls that a pass adds: one in `main` if any function is local, and the probes.
  abbrev pub added_calls : Module L → List ℕ → ℕ
  added_calls m ks =
      (if any_local m ks then (if has_main m.functions then 1 else 0) else 0) + due_calls m ks

  abbrev pub Added : Module L → List ℕ → Result (State L × Module L) → Type 0
  Added m ks (ok (st', m')) =
      (function_calls L m'.functions ≡ function_calls L m.functions + added_calls m ks)
      × ((j : ℕ) → Outside ks j → SameAt L (get_elem? m.functions j) (get_elem? m'.functions j))
  Added m ks (fault e) = Unit

  first_fault :
      (m : Module L) (k : ℕ) (f : Function L) (e : _)
      → get_elem? m.functions k ≡ some f
      → is_foreign m.name f.name ≡ false
      → initialization m ≡ fault e
      → run_function (fresh L) m k ≡ fault e
  unfolding run_function log_function ensure_initialized
  first_fault m k f e present targeted init = ground arith

  first_run :
      (m m' : Module L) (h : Hooks L) (k : ℕ) (f f' : Function L)
      → get_elem? m.functions k ≡ some f
      → is_foreign m.name f.name ≡ false
      → initialization m ≡ ok (h, m')
      → get_elem? m'.functions k ≡ some f'
      → run_function (fresh L) m k
        ≡ bind
            (visit_blocks h f'.name f'.blocks m'.world)
            (λ done. ok (instrumented (ready h) (messages (fresh L) f.name) m' k f' done))
  unfolding run_function log_function ensure_initialized
  first_run m m' h k f f' present targeted init present' = ground arith

  -- The first local run goes on as the run of an initialized pass on the module that
  -- `initialization` leaves.
  run_each-first :
      (m m' : Module L) (h : Hooks L) (k : ℕ) (ks : List ℕ) (f f' : Function L)
      → get_elem? m.functions k ≡ some f
      → is_foreign m.name f.name ≡ false
      → initialization m ≡ ok (h, m')
      → get_elem? m'.functions k ≡ some f'
      → is_foreign m'.name f'.name ≡ false
      → run_each (fresh L) m (k ∷ ks) ≡ run_each (ready h) m' (k ∷ ks)
  unfolding run_each
  run_each-first m m' h k ks f f' present targeted init present' targeted' =
      go (visit_blocks h f'.name f'.blocks m'.world)
        (first_run m m' h k f f' present targeted init present')
        (local_run (ready h) m' k f' h present' refl refl targeted')
    where
      go :
          (r : Result (List (List L.Inst) × L.World))
          → run_function (fresh L) m k
            ≡ bind r (λ done. ok (instrumented (ready h) (messages (fresh L) f.name) m' k f' done))
          → run_function (ready h) m' k
            ≡ bind r (λ done. ok (instrumented (ready h) (messages (ready h) f'.name) m' k f' done))
          → run_each (fresh L) m (k ∷ ks) ≡ run_each (ready h) m' (k ∷ ks)
      go (ok (blocks, w)) p q = rw (p, q, run_each) refl
      go (fault e) p q = rw (p, q, run_each) refl

module _ {L : Llvm} (R : Reading L) (law : IsLawful L) (faithful : IsFaithful L R) where
  -- Runs that begin at a local function: `initialization` faults, or they go on from what it
  -- leaves.
  pub data Starts (m : Module L) (ks : List ℕ) : Type 0 where
    never :
        (e : Fault) → initialization m ≡ fault e → run_each (fresh L) m ks ≡ fault e → Starts m ks
    from :
        (h : Hooks L) (m' : Module L)
        → initialization m ≡ ok (h, m')
        → run_each (fresh L) m ks ≡ run_each (ready h) m' ks
        → Starts m ks

  pub run_each-Starts :
      (m : Module L) (k : ℕ) (ks : List ℕ) (f : Function L)
      → get_elem? m.functions k ≡ some f
      → is_foreign m.name f.name ≡ false
      → Starts m (k ∷ ks)
  unfolding run_each
  run_each-Starts m k ks f present targeted = go (initialization m) refl
    where
      moved :
          (m' : Module L) (h : Hooks L)
          → initialization m ≡ ok (h, m')
          → m'.name ≡ m.name
          → (o : Option (Function L)) → get_elem? m'.functions k ≡ o
          → SameAt L (some f) o
          → Starts m (k ∷ ks)
      moved m' h init named none q same = elim same [ ]
      moved m' h init named (some f') q (n, b) = from h m' init (
          run_each-first m m' h k ks f f' present targeted init q
            (ap (λ x. is_foreign x f'.name) named ∙ ap (is_foreign m.name) n ∙ targeted))

      go : (r : Result (Hooks L × Module L)) → initialization m ≡ r → Starts m (k ∷ ks)
      go (fault e) q = never e q (rw (first_fault m k f e present targeted q, run_each) refl)
      go (ok (h, m')) q =
          let kept : IsKeptBy L m m' = initialization-IsKeptBy R law faithful m m' h q in
          moved m' h q kept.name (get_elem? m'.functions k) refl
            (subst (λ o. SameAt L o (get_elem? m'.functions k)) present (kept.functions k))

  first-Added :
      (m : Module L) (k : ℕ) (ks : List ℕ) (f : Function L)
      → get_elem? m.functions k ≡ some f
      → is_foreign m.name f.name ≡ false
      → Distinct (k ∷ ks)
      → Added m (k ∷ ks) (run_each (fresh L) m (k ∷ ks))
  first-Added m k ks f present targeted d = go (run_each-Starts m k ks f present targeted)
    where
      finish :
          (m' : Module L) (h : Hooks L)
          → initialization m ≡ ok (h, m')
          → IsKeptBy L m m'
          → (r : Result (State L × Module L)) → RanEach (ready h) m' (k ∷ ks) r
          → Added m (k ∷ ks) r
      finish m' h init kept (ok (st'', m'')) (p, others) =
          let added : added_calls m (k ∷ ks)
              ≡ (if has_main m.functions then 1 else 0) + due_calls m (k ∷ ks) =
            rw (present, targeted) refl in
          (
            omega (
              arith,
              p,
              added,
              initialization-calls L law m m' h init,
              due_calls-IsKeptBy m m' kept (k ∷ ks),
            ),
            λ j out.
                subst (SameAt L (get_elem? m.functions j)) (sym (others j out)) (kept.functions j),
          )
      finish m' h init kept (fault e) p = tt

      go : Starts m (k ∷ ks) → Added m (k ∷ ks) (run_each (fresh L) m (k ∷ ks))
      go (never e init q) = rw q tt
      go (from h m' init q) = subst (Added m (k ∷ ks)) (sym q) (
          finish m' h init (initialization-IsKeptBy R law faithful m m' h init)
            (run_each (ready h) m' (k ∷ ks))
            (run_each-RanEach law h (initialization-IsReady R faithful m m' h init).p_probe (k ∷ ks)
              (ready h) m' d refl refl))

  pub run_each-Added :
      (m : Module L) (ks : List ℕ) → Distinct ks → Added m ks (run_each (fresh L) m ks)
  unfolding run_each
  run_each-Added m [] d = (omega arith, λ j out. SameAt-refl L (get_elem? m.functions j))
  run_each-Added m (k ∷ ks) (apart, d) =
      found (get_elem? m.functions k) refl (run_each-Added m ks d)
    where
      skip :
          (f : Function L)
          → get_elem? m.functions k ≡ some f
          → is_foreign m.name f.name ≡ true
          → (r : Result (State L × Module L)) → Added m ks r
          → Added m (k ∷ ks) r
      skip f present q (ok (st', m')) (p, others) =
          (rw (present, q) (omega (arith, p)), λ j (ne, nes). others j nes)
      skip f present q (fault e) p = tt

      found :
          (o : Option (Function L))
          → get_elem? m.functions k ≡ o
          → Added m ks (run_each (fresh L) m ks)
          → Added m (k ∷ ks) (run_each (fresh L) m (k ∷ ks))
      found none q ih = rw (missing_run (fresh L) m k q, run_each) tt
      found (some f) q ih = elim (Bool-cases (is_foreign m.name f.name)) [
        | inl skipped ↦
            rw (foreign_run (fresh L) m k f q skipped, run_each)
              (skip f q skipped (run_each (fresh L) m ks) ih)
        | inr targeted ↦ first-Added m k ks f q targeted (apart, d)
      ]

  -- If LLVM behaves as documented, and a pass that is not initialized is run on different functions
  -- of a module, one after the other, and all runs end without a fault, then each function that there
  -- was no run on keeps its name and its blocks, of which each is as it was or has got one call of
  -- `_init_`; and the whole module has one more call for each probe due in the functions that the
  -- filter lets pass, and one more if it lets any of them pass and the module has a `main`.
  pub run_each-SameAt :
      (m m' : Module L) (st' : State L) (ks : List ℕ)
      → Distinct ks
      → run_each (fresh L) m ks ≡ ok (st', m')
      → ((j : ℕ) → Outside ks j → SameAt L (get_elem? m.functions j) (get_elem? m'.functions j))
        × (function_calls L m'.functions ≡ function_calls L m.functions + added_calls m ks)
  run_each-SameAt m m' st' ks d e =
      let (calls_added, others) = subst (Added m ks) e (run_each-Added m ks d) in
      (others, calls_added)
