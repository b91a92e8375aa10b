-- ===== src/FunctionPass/Module/Begins.antt =====
-- Runs of HelloWorld/function.cpp leave a `main` that calls `_init_` before any probe.
use atomicity_violation.Base.{
  ◌≡◌, refl, sym, ◌∙◌, subst, ap, Bool-cases, inl, inr, true, Option, none, some, List, [], ◌∷◌, ℕ,
  codes, get_elem?, Bytes,
}
use atomicity_violation.Base.Result.{Result, ok, fault, bind}
use atomicity_violation.Llvm.{Llvm, IsLawful}
use atomicity_violation.Llvm.Reading.{Reading, IsFaithful}
use atomicity_violation.Pass.{Hooks}
use atomicity_violation.Pass.Init.{Function, Module, State, fresh}
use atomicity_violation.Pass.Walk.{walk}
use atomicity_violation.Pass.Entry.{
  IsPhiApart, Begins, EntryBegins, MainBegins, set-MainBegins, initialization-MainBegins,
  WalkBegins, BlocksBegin, cons-BlocksBegin, annotate-Begins,
}
use atomicity_violation.HelloWorld.Run.{Outcome, instrumented}
use atomicity_violation.FunctionPass.Handle.{visit}
use atomicity_violation.FunctionPass.Handle.Laws.{uncalled-IsInert, call-IsInert, walk-visit}
use atomicity_violation.FunctionPass.Run.{is_foreign, visit_blocks, messages, run_function}
use atomicity_violation.FunctionPass.Module.{run_each, any_local}
use atomicity_violation.FunctionPass.Module.Laws.{foreign_run, missing_run, local_run}
use atomicity_violation.FunctionPass.Module.Fresh.{ready, Starts, never, from, run_each-Starts}
use atomicity_violation.Events.Types.{initialization-IsReady}

abbrev EachBegins : (L : Llvm) → Result (State L × Module L) → Type 0
EachBegins L (ok (st, m)) = MainBegins L m.functions
EachBegins L (fault e) = Unit

module _ {L : Llvm} (law : IsLawful L) (apart : IsPhiApart L) (h : Hooks L)
    (named : L.callee_name h.p_probe ≡ some (codes "_probe_")) where
  walk-Begins :
      (fname : Bytes) {block : List L.Inst} (w : L.World)
      → Begins L block
      → WalkBegins L (walk (visit h fname) block w)
  walk-Begins fname {block} w b =
      subst (WalkBegins L) (sym (walk-visit h fname law named block w)) (
        annotate-Begins (visit h fname) apart (uncalled-IsInert h fname)
          (λ i init. call-IsInert h fname i init.is_call) w b)

  visit_blocks-Begin :
      (fname : Bytes) (bs : List (List L.Inst)) (w : L.World)
      → EntryBegins L bs
      → BlocksBegin L (visit_blocks h fname bs w)
  unfolding visit_blocks
  visit_blocks-Begin fname [] w b = elim b [ ]
  visit_blocks-Begin fname (entry ∷ bs) w b =
      cons-BlocksBegin L (walk (visit h fname) entry w) (visit_blocks h fname bs)
        (walk-Begins fname w b)

  -- The pass stays initialized, and `main` begins with the call.
  pub record IsBegun (st : State L) (o : Outcome L) : Type 0 where
    pub state_kept : o.state ≡ st
    pub begins : MainBegins L o.mod_after.functions

  abbrev RunBegins : State L → Result (Outcome L) → Type 0
  RunBegins st (ok o) = IsBegun st o
  RunBegins st (fault e) = Unit

  local-RunBegins :
      (st : State L) (m : Module L) (k : ℕ) (f : Function L)
      → get_elem? m.functions k ≡ some f
      → MainBegins L m.functions
      → (r : Result (List (List L.Inst) × L.World)) → (EntryBegins L f.blocks → BlocksBegin L r)
      → RunBegins st (bind r (λ done. ok (instrumented st (messages st f.name) m k f done)))
  local-RunBegins st m k f present b (fault e) keep = tt
  local-RunBegins st m k f present b (ok (blocks, w)) keep = record {
    state_kept = refl;
    begins = set-MainBegins L k f (record f { blocks = blocks }) present refl keep b;
  }

  run_function-RunBegins :
      (st : State L) (m : Module L) (k : ℕ)
      → st.initial ≡ true
      → st.hooks ≡ some h
      → MainBegins L m.functions
      → RunBegins st (run_function st m k)
  run_function-RunBegins st m k initialized hooked b = found (get_elem? m.functions k) refl
    where
      found :
          (o : Option (Function L))
          → get_elem? m.functions k ≡ o
          → RunBegins st (run_function st m k)
      found none present = rw (missing_run st m k present) tt
      found (some f) present = elim (Bool-cases (is_foreign m.name f.name)) [
        | inl q ↦
            subst (RunBegins st) (sym (foreign_run st m k f present q))
              (record { state_kept = refl; begins = b })
        | inr q ↦ subst (RunBegins st) (sym (local_run st m k f h present initialized hooked q)) (
            local-RunBegins st m k f present b (visit_blocks h f.name f.blocks m.world)
              (visit_blocks-Begin f.name f.blocks m.world))
      ]

  run_each-EachBegins :
      (ks : List ℕ) (st : State L) (m : Module L)
      → st.initial ≡ true
      → st.hooks ≡ some h
      → MainBegins L m.functions
      → EachBegins L (run_each st m ks)
  unfolding run_each
  run_each-EachBegins [] st m initialized hooked b = b
  run_each-EachBegins (k ∷ ks) st m initialized hooked b =
      go (run_function st m k) (run_function-RunBegins st m k initialized hooked b)
        (λ st' m'. run_each-EachBegins ks st' m')
    where
      go :
          (r : Result (Outcome L))
          → RunBegins st r
          → ((st' : State L) (m' : Module L)
              → st'.initial ≡ true
              → st'.hooks ≡ some h
              → MainBegins L m'.functions
              → EachBegins L (run_each st' m' ks))
          → EachBegins L (bind r (λ o. run_each o.state o.mod_after ks))
      go (fault e) p ih = tt
      go (ok o) p ih =
          ih o.state o.mod_after (ap (λ s. s.initial) p.state_kept ∙ initialized)
            (ap (λ s. s.hooks) p.state_kept ∙ hooked) p.begins

module _ {L : Llvm} (R : Reading L) (law : IsLawful L) (faithful : IsFaithful L R)
    (apart : IsPhiApart L) where
  first-EachBegins :
      (m : Module L) (ks : List ℕ)
      → Starts R law faithful m ks
      → EachBegins L (run_each (fresh L) m ks)
  first-EachBegins m ks (never e init q) = subst (EachBegins L) (sym q) tt
  first-EachBegins m ks (from h m' init q) = subst (EachBegins L) (sym q) (
      run_each-EachBegins law apart h (initialization-IsReady R faithful m m' h init).p_probe ks
        (ready h) m' refl refl (initialization-MainBegins R law faithful m m' h init))

  run_each-Begins :
      (m : Module L) (ks : List ℕ) → any_local m ks ≡ true → EachBegins L (run_each (fresh L) m ks)
  unfolding run_each
  run_each-Begins m [] some_local = cc some_local
  run_each-Begins m (k ∷ ks) some_local =
      found (get_elem? m.functions k) refl (run_each-Begins m ks)
    where
      found :
          (o : Option (Function L))
          → get_elem? m.functions k ≡ o
          → (any_local m ks ≡ true → EachBegins L (run_each (fresh L) m ks))
          → EachBegins L (run_each (fresh L) m (k ∷ ks))
      found none q ih = rw (missing_run (fresh L) m k q, run_each) tt
      found (some f) q ih = elim (Bool-cases (is_foreign m.name f.name)) [
        | inl skipped ↦
            rw (foreign_run (fresh L) m k f q skipped, run_each)
              (ih (rw skipped at (rw q at some_local)))
        | inr targeted ↦
            first-EachBegins m (k ∷ ks) (run_each-Starts R law faithful m k ks f q targeted)
      ]

  -- If LLVM behaves as documented, where PHI nodes have an opcode of their own, and a pass that is
  -- not initialized is run on functions of a module, one after the other, of which the filter lets
  -- at least one pass, and all runs end without a fault, then in the entry block of the first
  -- function called `main`, if the module has one, the first instruction that is no PHI node is a
  -- call of `_init_`.
  pub run_each-MainBegins :
      (m m' : Module L) (st' : State L) (ks : List ℕ)
      → any_local m ks ≡ true
      → run_each (fresh L) m ks ≡ ok (st', m')
      → MainBegins L m'.functions
  run_each-MainBegins m m' st' ks some_local e =
      subst (EachBegins L) e (run_each-Begins m ks some_local)
