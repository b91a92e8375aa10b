-- ===== src/Pipeline/Whole.antt =====
-- The whole tool: HelloWorld/function.cpp instruments a module, lib/inttrace.c logs the runs of its
-- functions, and atom.py reports the addresses.
use mathlib.Core.List.{Memᴰ}
use atomicity_violation.Base.{
  true, ℕ, zero, suc, ◌≡◌, ◌≢◌, ◌↔◌, refl, sym, ◌∙◌, ap, ap₂, subst, Option, none, some, List, [],
  ◌∷◌, ◌++◌, Bytes, All, All-Memᴰ, Memᴰ-All, get_elem?, take,
}
use atomicity_violation.Base.Result.{ok}
use atomicity_violation.Llvm.{Llvm, IsLawful}
use atomicity_violation.Llvm.Reading.{Origin, Reading, IsFaithful}
use atomicity_violation.Pass.Init.{Function, Module, State, fresh}
use atomicity_violation.FunctionPass.Module.{Distinct, run_each}
use atomicity_violation.Events.Seen.{Event}
use atomicity_violation.Events.Runs.{seen_blocks}
use atomicity_violation.Events.Module.{left_in, Annotated, AllUnprobed, AllAnnotated}
use atomicity_violation.Events.Module.Laws.{run_each-AllAnnotated}
use atomicity_violation.Trace.Line.{Platform, Probe}
use atomicity_violation.Trace.Threads.{System, null}
use atomicity_violation.Trace.Threads.History.{Asked, Served, Runs, of_thread}
use atomicity_violation.Trace.Threads.History.Session.{
  logged_in, probes_in, IsSession, IsSession-Memᴰ,
}
use atomicity_violation.Report.{run_script}
use atomicity_violation.Pipeline.Fields.{IsPlain, IsPlainProbe, DecodesAscii}
use atomicity_violation.Pipeline.Contended.{IsShared, IsReported, Runs-IsShared}

-- A thread runs through a block of a function of the module, up to the given number of probes; an
-- address has its value when the probe of the given number is reached.
pub record Visit (L : Llvm) : Type 0 where
  pub function : ℕ
  pub block : ℕ
  pub reached : ℕ
  pub at : ℕ → Origin L → ℕ

module _ {L : Llvm} where
  -- The arguments that the runtime gets from a call of a probe.
  abbrev pub probe_of : (Origin L → ℕ) → Event L → Probe
  probe_of value e = record { line = e.line; file = e.file; op = e.op; addr = value e.address }

  abbrev pub probes_of : (ℕ → Origin L → ℕ) → ℕ → List (Event L) → List Probe
  probes_of value n [] = []
  probes_of value n (e ∷ es) = probe_of (value n) e ∷ probes_of value (suc n) es

  -- The entry of a list, or none.
  abbrev pub block_at : List (List (Event L)) → ℕ → List (Event L)
  block_at [] n = []
  block_at (b ∷ bs) zero = b
  block_at (b ∷ bs) (suc n) = block_at bs n

  abbrev pub visit_probes : Visit L → List (Event L) → List Probe
  visit_probes v es = probes_of v.at 0 (take v.reached es)

  module _ (R : Reading L) where
    -- The calls of probes in a block of a function.
    abbrev pub found_in : Option (Function L) → ℕ → List (Event L)
    found_in none n = []
    found_in (some f) n = block_at (seen_blocks R f.blocks) n

    -- The probes that function.cpp's table asks for in it.
    abbrev pub asked_in : Bytes → Option (Function L) → ℕ → List (Event L)
    asked_in name none n = []
    asked_in name (some f) n = block_at (left_in R name f) n

    -- What a thread passes to the runtime that runs through blocks of the instrumented module.
    abbrev pub performed : Module L → List (Visit L) → List Probe
    performed m [] = []
    performed m (v ∷ vs) =
        visit_probes v (found_in (get_elem? m.functions v.function) v.block) ++ performed m vs

    -- The specification: what the operations ask for, read from the module before.
    abbrev pub due_probes : Module L → List (Visit L) → List Probe
    due_probes m [] = []
    due_probes m (v ∷ vs) =
        visit_probes v (asked_in m.name (get_elem? m.functions v.function) v.block)
        ++ due_probes m vs

    found_in-Annotated :
        (name : Bytes) (o o' : Option (Function L)) (n : ℕ)
        → Annotated R name o o'
        → found_in o' n ≡ asked_in name o n
    found_in-Annotated name none none n a = refl
    found_in-Annotated name none (some f) n a = elim a [ ]
    found_in-Annotated name (some f) none n a = elim a [ ]
    found_in-Annotated name (some f) (some f') n (_, e) = ap (λ bs. block_at bs n) e

    pub performed-due_probes :
        (m m' : Module L) (ks : List ℕ) (vs : List (Visit L))
        → AllAnnotated R m m' ks
        → All (λ v. Memᴰ v.function ks) vs
        → performed m' vs ≡ due_probes m vs
    performed-due_probes m m' ks [] a i = refl
    performed-due_probes m m' ks (v ∷ vs) a (i, is) =
        ap₂ (λ es ps. visit_probes v es ++ ps)
          (found_in-Annotated m.name _ _ v.block (All-Memᴰ _ i a))
          (performed-due_probes m m' ks vs a is)

-- The threads' probes as others have them.
IsShared-cong :
    {self : ℕ → ℕ} {f g : ℕ → List Probe}
    → ((i : ℕ) → f i ≡ g i)
    → (a : ℕ) → IsShared self f a
    → IsShared self g a
IsShared-cong same a s = record {
  first = s.first;
  second = s.second;
  threads_differ = s.threads_differ;
  one = s.one;
  other = s.other;
  one_at = subst (Memᴰ s.one) (same s.first) s.one_at;
  other_at = subst (Memᴰ s.other) (same s.second) s.other_at;
  one_addr = s.one_addr;
  other_addr = s.other_addr;
}

-- The name and the operation are ASCII without a comma and an end of a line.
abbrev pub IsPlainEntry : Probe → Type 0
IsPlainEntry p = IsPlain p.file × IsPlain p.op

plain_session :
    (served : Served) (due : ℕ → List Probe)
    → IsSession served
    → ((i : ℕ) → probes_in (of_thread i served) ≡ due i)
    → ((i : ℕ) → All IsPlainEntry (due i))
    → All IsPlainProbe (logged_in [] served)
plain_session served due session same plain =
    Memᴰ-All IsPlainProbe (logged_in [] served) (λ (i, p) m.
      All-Memᴰ IsPlainEntry (subst (Memᴰ p) (same i) ((IsSession-Memᴰ served i p session).0 m))
        (plain i))

module _ {L : Llvm} (R : Reading L) (law : IsLawful L) (faithful : IsFaithful L R)
    (platform : Platform) (plain : (a : ℕ) → IsPlain (platform.print_pointer a))
    (injective : (a b : ℕ) → platform.print_pointer a ≡ platform.print_pointer b → a ≡ b)
    (decode : Bytes → Option Bytes) (ascii : DecodesAscii decode) (m m' : Module L) (st' : State L)
    (ks : List ℕ) (distinct : Distinct ks) (unprobed : AllUnprobed R m ks)
    (instrumented : run_each (fresh L) m ks ≡ ok (st', m')) where
  -- If LLVM behaves as documented, `%p` prints different pointers differently, in ASCII without
  -- commas and ends of lines, and ASCII is decoded as it is; if function.cpp has run on different
  -- functions of a module, which held no calls of probes, from a pass that was not initialized, and
  -- all runs have ended; and if the threads have then run through blocks of these functions, and
  -- what they have passed to the probes that got the lock is what these blocks hold, where all
  -- names and operations that are due are ASCII without commas and ends of lines; and if `_init_`
  -- was the first call that got the lock, and the only one of `_init_`, and could open the log:
  -- then, when the lock is free, atom.py on this log comes to its end without an error, and prints
  -- exactly the addresses that the operations of two threads with different values of
  -- `pthread_self()` were on, as the table of lock operations and the loads and stores of the
  -- module before the instrumentation say.
  pub run_each-IsReported :
      (visits : ℕ → List (Visit L)) {asked : Asked} {served : Served} {s : System}
      → ((i : ℕ) → All (λ v. Memᴰ v.function ks) (visits i))
      → ((i : ℕ) → All IsPlainEntry (due_probes R m (visits i)))
      → Runs platform asked served s
      → s.shared.owner ≡ none
      → s.shared.stream ≢ null
      → IsSession served
      → ((i : ℕ) → probes_in (of_thread i served) ≡ performed R m' (visits i))
      → ((run_script decode s.shared.text).ended ≡ true)
        × ((a : ℕ)
            → IsReported decode s.shared.text (platform.print_pointer a)
              ↔ IsShared platform.pthread_self (λ i. due_probes R m (visits i)) a)
  run_each-IsReported visits {asked} {served} {s} inside plain_due r free ne session same =
      let annotated : AllAnnotated R m m' ks =
        run_each-AllAnnotated R law faithful m m' st' ks distinct unprobed instrumented in
      let due : (i : ℕ) → probes_in (of_thread i served) ≡ due_probes R m (visits i) =
        λ i. same i ∙ performed-due_probes R m m' ks (visits i) annotated (inside i) in
      let (ended, shared) =
        Runs-IsShared platform plain injective decode ascii r free ne session
          (plain_session served (λ i. due_probes R m (visits i)) session due plain_due) in
      (
        ended,
        λ a. (
          λ x. IsShared-cong due a ((shared a).0 x),
          λ y. (shared a).1 (IsShared-cong (λ i. sym (due i)) a y),
        ),
      )
