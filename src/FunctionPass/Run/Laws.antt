-- ===== src/FunctionPass/Run/Laws.antt =====
-- Which functions HelloWorld/function.cpp works on, and what it says of the others.
use atomicity_violation.Base.{
  ℕ, ◌≡◌, ◌≢◌, ◌↔◌, ◌⊎◌, inl, inr, refl, sym, ◌∙◌, subst, Bool, true, false, Option, none, some,
  List, [], ◌++◌, arith, Bytes, codes, get_elem?, Bool-cases, All,
}
use atomicity_violation.Base.Result.{Result, ok, fault, bind, uninitialized}
use atomicity_violation.Text.{mentions}
use atomicity_violation.Text.Laws.{IsInfix, contains_iff, not_contains_iff, substr-find}
use atomicity_violation.Llvm.{Llvm}
use atomicity_violation.Pass.{Hooks}
use atomicity_violation.Pass.Init.{Function, Module, State, initialization}
use atomicity_violation.HelloWorld.Run.{
  all, none_of_them, Outcome, function_at, ensure_initialized, instrumented,
}
use atomicity_violation.FunctionPass.Run.{
  module_base, is_foreign, visit_blocks, messages, log_function, run_function,
}

-- A function whose name holds the base of the module's name, and neither `core` nor `std`.
pub record IsLocal (base fname : Bytes) : Type 0 where
  pub of_module : IsInfix base fname
  pub not_core : ¬ IsInfix (codes "core") fname
  pub not_std : ¬ IsInfix (codes "std") fname

-- In a module called `base.ll`, whose base holds no dot, a function is worked on exactly if its
-- name holds the base and neither `core` nor `std`.
pub is_foreign_iff :
    (base fname : Bytes)
    → All (λ c. c ≢ b'.') base
    → (is_foreign (base ++ codes ".ll") fname ≡ false) ↔ IsLocal base fname
unfolding is_foreign mentions module_base
is_foreign_iff base fname h = rw (substr-find b'.' (codes "ll") base [] h) (
  λ e. record {
    of_module = (contains_iff fname base).0 (ground arith);
    not_core = (not_contains_iff fname (codes "core")).0 (ground arith);
    not_std = (not_contains_iff fname (codes "std")).0 (ground arith);
  },
  λ t. ground (
    arith,
    (contains_iff fname base).1 t.of_module,
    (not_contains_iff fname (codes "core")).1 t.not_core,
    (not_contains_iff fname (codes "std")).1 t.not_std,
  ),
)

-- Nothing is changed, and nothing is written.
pub record IsUntouched (L : Llvm) (st : State L) (m : Module L) (o : Outcome L) : Type 0 where
  pub preserved : o.preserved ≡ all
  pub mod_kept : o.mod_after ≡ m
  pub state_kept : o.state ≡ st
  pub silent : o.output ≡ []

-- The pass is initialized, and all analyses are given up.
pub record IsLogged (L : Llvm) (o : Outcome L) : Type 0 where
  pub preserved : o.preserved ≡ none_of_them
  pub initialized : o.state.initial ≡ true

module _ {L : Llvm} (st : State L) (m : Module L) where
  abbrev Ready : Result (State L × Module L) → Type 0
  Ready (ok (st', m')) = st'.initial ≡ true
  Ready (fault e) = Unit

  ensure_initialized-Ready : Ready (ensure_initialized st m)
  unfolding ensure_initialized
  ensure_initialized-Ready = go st.initial refl (initialization m) refl
    where
      go :
          (b : Bool)
          → st.initial ≡ b
          → (r : Result (Hooks L × Module L)) → initialization m ≡ r
          → Ready (ensure_initialized st m)
      go true q r p = rw (q, ensure_initialized) q
      go false q (ok (hooks, m')) p = rw (q, p, ensure_initialized) refl
      go false q (fault e) p = rw (q, p, ensure_initialized) tt

  abbrev Logged : Result (Outcome L) → Type 0
  Logged (ok o) = IsLogged L o
  Logged (fault e) = Unit

  log_function-Logged : (k : ℕ) (f : Function L) → Logged (log_function st m k f)
  unfolding log_function
  log_function-Logged k f = go (ensure_initialized st m) ensure_initialized-Ready
    where
      done :
          (st' : State L) (m' : Module L) (f' : Function L)
          → st'.initial ≡ true
          → (r : Result (List (List L.Inst) × L.World))
          → Logged (bind r (λ d. ok (instrumented st' (messages st f.name) m' k f' d)))
      done st' m' f' i (ok (blocks, w)) = record { preserved = refl; initialized = i }
      done st' m' f' i (fault e) = tt

      hooked :
          (st' : State L) (m' : Module L) (f' : Function L)
          → st'.initial ≡ true
          → (hooks : Option (Hooks L))
          → Logged (elim hooks [
            | none ↦ fault uninitialized
            | some h ↦
                bind
                  (visit_blocks h f'.name f'.blocks m'.world)
                  (λ d. ok (instrumented st' (messages st f.name) m' k f' d))
          ])
      hooked st' m' f' i none = tt
      hooked st' m' f' i (some h) = done st' m' f' i (visit_blocks h f'.name f'.blocks m'.world)

      found :
          (st' : State L) (m' : Module L)
          → st'.initial ≡ true
          → (r : Result (Function L))
          → Logged (
              bind r λ f'. elim st'.hooks [
                | none ↦ fault uninitialized
                | some h ↦
                    bind
                      (visit_blocks h f'.name f'.blocks m'.world)
                      (λ d. ok (instrumented st' (messages st f.name) m' k f' d))
              ])
      found st' m' i (ok f') = hooked st' m' f' i st'.hooks
      found st' m' i (fault e) = tt

      go :
          (r : Result (State L × Module L))
          → Ready r
          → Logged (
              bind r λ (st', m'). bind (function_at m' k) λ f'. elim st'.hooks [
                | none ↦ fault uninitialized
                | some h ↦
                    bind
                      (visit_blocks h f'.name f'.blocks m'.world)
                      (λ d. ok (instrumented st' (messages st f.name) m' k f' d))
              ])
      go (ok (st', m')) i = found st' m' i (function_at m' k)
      go (fault e) i = tt

  -- A run on the function at an index that the filter rejects changes and writes nothing and
  -- preserves all analyses; any other run that ends leaves the pass initialized and preserves none.
  pub run_function-Outcome :
      (k : ℕ) (f : Function L) (o : Outcome L)
      → get_elem? m.functions k ≡ some f
      → run_function st m k ≡ ok o
      → ((is_foreign m.name f.name ≡ true) × IsUntouched L st m o)
        ⊎ ((is_foreign m.name f.name ≡ false) × IsLogged L o)
  unfolding run_function
  run_function-Outcome k f o present e = elim (Bool-cases (is_foreign m.name f.name)) [
    | inl skipped ↦ inl (skipped, subst Untouched (sym (skips skipped) ∙ e) untouched)
    | inr worked ↦ inr (worked, subst Logged (sym (works worked) ∙ e) (log_function-Logged k f))
  ]
    where
      skips :
          is_foreign m.name f.name ≡ true
          → run_function st m k
            ≡ ok (record { preserved = all; output = []; state = st; mod_after = m })
      skips q = ground arith

      works : is_foreign m.name f.name ≡ false → run_function st m k ≡ log_function st m k f
      works q = ground arith

      Untouched : Result (Outcome L) → Type 0
      Untouched (ok o') = IsUntouched L st m o'
      Untouched (fault e') = Unit

      untouched :
          IsUntouched L st m (record { preserved = all; output = []; state = st; mod_after = m })
      untouched = record { preserved = refl; mod_kept = refl; state_kept = refl; silent = refl }
