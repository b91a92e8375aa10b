-- ===== src/Tests/Whole.antt =====
-- A module is instrumented, two threads run through its blocks, and the address is reported.
use mathlib.Core.List.{Memᴰ}
use mathlib.Core.List.Memᴰ.{head, tail}
use atomicity_violation.Base.{
  true, ℕ, ◌≡◌, ◌↔◌, refl, sym, subst, ==_iff, Bool-cases, inl, inr, List, [], ◌∷◌, codes, All,
  ◌==◌, if◌then◌else◌, arith,
}
use atomicity_violation.Text.{mentions}
use atomicity_violation.Pass.{line_operand}
use atomicity_violation.Trace.Line.{Probe}
use atomicity_violation.Trace.Threads.{init, probe, idle, Shared}
use atomicity_violation.Trace.Threads.History.{Served, of_thread}
use atomicity_violation.Trace.Threads.History.Session.{probes_in}
use atomicity_violation.Report.{run_script}
use atomicity_violation.Events.Seen.{seen_at}
use atomicity_violation.Events.Due.{due_at}
use atomicity_violation.FunctionPass.Run.{is_foreign}
use atomicity_violation.Pipeline.Contended.{IsReported, IsShared, Runs-IsShared}
use atomicity_violation.Pipeline.Whole.{
  Visit, IsPlainEntry, performed, due_probes, run_each-IsReported,
}
use atomicity_violation.Tests.Texts.{
  strokes, stroke_text, stroke_text_injective, stroke_text-IsPlain, IsPlain_lem, decode_ascii,
  decode_ascii-DecodesAscii,
}
use atomicity_violation.Tests.Modules.{three_functions, ended, ended_done, unprobed}
use atomicity_violation.Tests.Sample.{small, small-IsLawful, readings, readings-IsFaithful}
use atomicity_violation.Tests.Sessions.{Alone, pass, logged_by, whole_probe, empty_log, opened_log}

-- The store in the first function, and the one in the third.
abbrev one : Probe
one = record { line = 7; file = codes "app-1f2e_run"; op = codes "store"; addr = 5 }

abbrev other : Probe
other = record { line = 7; file = codes "app-1f2e_stop"; op = codes "store"; addr = 5 }

abbrev served : Served
served = (1, init) ∷ ((1, probe one) ∷ ((2, probe other) ∷ []))

abbrev shared : Shared
shared = logged_by 2 other (logged_by 1 one empty_log)

session : Alone 2 idle served shared
session = whole_probe other _ _ _ (pass 2 (whole_probe one _ _ _ opened_log))

plain_one : IsPlainEntry one
plain_one = (IsPlain_lem one.file refl, IsPlain_lem one.op refl)

plain_other : IsPlainEntry other
plain_other = (IsPlain_lem other.file refl, IsPlain_lem other.op refl)

Runs-IsShared_example :
    ((run_script decode_ascii shared.text).ended ≡ true)
    × ((a : ℕ)
        → IsReported decode_ascii shared.text (stroke_text a)
          ↔ IsShared strokes.pthread_self (λ i. probes_in (of_thread i served)) a)
Runs-IsShared_example =
    Runs-IsShared strokes stroke_text-IsPlain stroke_text_injective decode_ascii
      decode_ascii-DecodesAscii session.runs refl (λ e. cc) tt (plain_one, (plain_other, tt))

-- Thread 1 begins to run through the first function, and thread 2 through the third.
abbrev begun : ℕ → Visit small
begun k = record { function = k; block = 0; reached = 1; at = λ n o. 5 }

abbrev visits : ℕ → List (Visit small)
visits i = if 1 == i then begun 0 ∷ [] else if 2 == i then begun 2 ∷ [] else []

inside : (i : ℕ) → All (λ v. Memᴰ v.function (0 ∷ 1 ∷ 2 ∷ [])) (visits i)
inside i = elim (Bool-cases (1 == i)) [
  | inl first ↦ rw first (head refl, tt)
  | inr differ ↦ elim (Bool-cases (2 == i)) [
    | inl second ↦ rw (differ, second) (tail (tail (head refl)), tt)
    | inr neither ↦ rw (differ, neither) tt
  ]
]

one_due : due_probes readings three_functions (begun 0 ∷ []) ≡ one ∷ []
unfolding due_at is_foreign mentions
one_due = refl

other_due : due_probes readings three_functions (begun 2 ∷ []) ≡ other ∷ []
unfolding due_at is_foreign mentions
other_due = refl

one_performed : performed readings ended.1 (begun 0 ∷ []) ≡ one ∷ []
unfolding ended seen_at mentions line_operand
one_performed = refl

other_performed : performed readings ended.1 (begun 2 ∷ []) ≡ other ∷ []
unfolding ended seen_at mentions line_operand
other_performed = refl

plain_due : (i : ℕ) → All IsPlainEntry (due_probes readings three_functions (visits i))
plain_due i = elim (Bool-cases (1 == i)) [
  | inl first ↦ rw first (rw one_due (plain_one, tt))
  | inr differ ↦ elim (Bool-cases (2 == i)) [
    | inl second ↦ rw (differ, second) (rw other_due (plain_other, tt))
    | inr neither ↦ rw (differ, neither) tt
  ]
]

as_performed : (i : ℕ) → probes_in (of_thread i served) ≡ performed readings ended.1 (visits i)
as_performed i = elim (Bool-cases (1 == i)) [
  | inl first ↦
      subst (λ k. probes_in (of_thread k served) ≡ performed readings ended.1 (visits k))
        ((==_iff 1 i).0 first) (sym one_performed)
  | inr differ ↦ elim (Bool-cases (2 == i)) [
    | inl second ↦
        subst (λ k. probes_in (of_thread k served) ≡ performed readings ended.1 (visits k))
          ((==_iff 2 i).0 second) (sym other_performed)
    | inr neither ↦ rw (differ, neither) refl
  ]
]

run_each-IsReported_example :
    ((run_script decode_ascii shared.text).ended ≡ true)
    × ((a : ℕ)
        → IsReported decode_ascii shared.text (stroke_text a)
          ↔ IsShared strokes.pthread_self (λ i. due_probes readings three_functions (visits i)) a)
run_each-IsReported_example =
    run_each-IsReported {L = small} readings small-IsLawful readings-IsFaithful strokes
      stroke_text-IsPlain stroke_text_injective decode_ascii decode_ascii-DecodesAscii
      three_functions ended.1 ended.0 (0 ∷ 1 ∷ 2 ∷ [])
      ((omega arith, (omega arith, tt)), ((omega arith, tt), (tt, tt))) unprobed ended_done visits
      inside plain_due session.runs refl (λ e. cc) tt as_performed
