-- ===== src/Tests/Entries.antt =====
-- A `main` that begins with a PHI node, in a module that the filter takes it from.
use atomicity_violation.Base.{inl, inr, ◌≡◌, refl, [], ◌∷◌, codes, true}
use atomicity_violation.Base.Result.{ok, fault}
use atomicity_violation.Text.{mentions}
use atomicity_violation.Llvm.{other, call, Opcode, store, load, invoke}
use atomicity_violation.Pass.Init.{Module, State, fresh}
use atomicity_violation.Pass.Entry.{IsPhiApart, MainBegins}
use atomicity_violation.HelloWorld.Run.{Outcome, all, run_instrument}
use atomicity_violation.HelloWorld.Begins.{HasBegun, run_instrument-HasBegun}
use atomicity_violation.FunctionPass.Run.{is_foreign}
use atomicity_violation.FunctionPass.Module.{run_each, any_local}
use atomicity_violation.FunctionPass.Module.Begins.{run_each-MainBegins}
use atomicity_violation.Tests.Sample.{
  small, small-IsLawful, readings, readings-IsFaithful, main_function, small_module, plain, front,
  Inst, is_phi,
}

abbrev looping : Module small
looping = record small_module {
  name = codes "main.ll";
  functions = record main_function { blocks = (plain other [] ∷ front) ∷ [] } ∷ [];
}

abbrev none_done : Outcome small
none_done = record { preserved = all; output = []; state = fresh small; mod_after = small_module }

unfoldable ended : State small × Module small
unfolding run_each
ended = elim (run_each (fresh small) looping (0 ∷ [])) [
  | ok r ↦ r
  | fault e ↦ (fresh small, small_module)
]

ended_done : run_each (fresh small) looping (0 ∷ []) ≡ ok (ended.0, ended.1)
unfolding ended mentions
ended_done = refl

is_local_main : any_local looping (0 ∷ []) ≡ true
unfolding is_foreign
is_local_main = refl

apart_at : (i : Inst) → is_phi i ≡ true → i.op ≡ other
apart_at i e = go i.op refl
  where
    go : (o : Opcode) → i.op ≡ o → i.op ≡ other
    go other q = q
    go store q = cc (rw q at e)
    go load q = cc (rw q at e)
    go invoke q = cc (rw q at e)
    go call q = cc (rw q at e)

phi_apart : IsPhiApart small
phi_apart = record { phi_opcode = apart_at }

run_each-MainBegins_example : MainBegins small ended.1.functions
run_each-MainBegins_example =
    run_each-MainBegins {L = small} readings small-IsLawful readings-IsFaithful phi_apart looping
      ended.1 ended.0 (0 ∷ []) is_local_main ended_done

-- Two runs of HelloWorld.cpp on that `main`.
unfoldable once : Outcome small
unfolding run_instrument
once = elim (run_instrument (fresh small) looping 0) [ ok o ↦ o | fault e ↦ none_done ]

unfoldable twice : Outcome small
unfolding run_instrument once
twice = elim (run_instrument once.state once.mod_after 0) [ ok o ↦ o | fault e ↦ none_done ]

once_done : run_instrument (fresh small) looping 0 ≡ ok once
unfolding once mentions
once_done = refl

twice_done : run_instrument once.state once.mod_after 0 ≡ ok twice
unfolding twice mentions
twice_done = refl

begun_once : HasBegun small once.state once.mod_after
begun_once =
    run_instrument-HasBegun {L = small} readings small-IsLawful readings-IsFaithful phi_apart
      (fresh small) looping 0 once (inl refl) once_done

run_instrument-HasBegun_example : HasBegun small twice.state twice.mod_after
run_instrument-HasBegun_example =
    run_instrument-HasBegun {L = small} readings small-IsLawful readings-IsFaithful phi_apart
      once.state once.mod_after 0 twice (inr begun_once) twice_done
