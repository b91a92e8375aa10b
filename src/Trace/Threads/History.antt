-- ===== src/Trace/Threads/History.antt =====
-- The calls that the threads make of lib/inttrace.c, and the journal that they stand for: each call
-- takes effect at once, in the order in which the calls get the lock.
pub mod Kept
pub mod Laws
pub mod Exit
pub mod Crash
pub mod Session
use atomicity_violation.Base.{ℕ, Bytes, ◌≡◌, List, [], ◌∷◌, ◌++◌, ◌==◌, if◌then◌else◌}
use atomicity_violation.Trace.Line.{Platform, Probe}
use atomicity_violation.Trace.Threads.{
  Stream, null, opened, closed, Call, init, probe, final, Pc, idle, waiting, inside, writing,
  leaving, crashed, Shared, System, update, initial, Move,
}

-- The calls that each thread has made, and all calls that have got the lock.
abbrev pub Asked : Type 0
Asked = ℕ → List Call

abbrev pub Served : Type 0
Served = List (ℕ × Call)

-- A step of thread `i` from `p` to `p'` makes a call if it comes to wait for the lock, and the call
-- is served if it has waited.
abbrev pub call_made : Pc → List Call
call_made (waiting c) = c ∷ []
call_made _ = []

abbrev pub ask : Asked → ℕ → Pc → Asked
ask asked i p' j = if i == j then asked j ++ call_made p' else asked j

abbrev pub serve : Served → ℕ → Pc → Served
serve served i (waiting c) = served ++ ((i, c) ∷ [])
serve served i _ = served

module _ (platform : Platform) where
  -- The runs of a program, with their history.
  pub data Runs : Asked → Served → System → Type 0 where
    begin : Runs (λ _. []) [] initial
    continue :
        {asked : Asked} {served : Served} {s : System} {t : Shared} {p p' : Pc}
        → (i : ℕ) → Runs asked served s
        → s.pc i ≡ p
        → Move platform i s.shared p t p'
        → Runs (ask asked i p') (serve served i p) (record { shared = t; pc = update s.pc i p' })

-- The specification: the calls take effect one after the other. The last two arguments are the
-- stream and the probes in the file.
pub data Journal : Served → Stream → List (ℕ × Probe) → Type 0 where
  untouched : Journal [] null []
  opens :
      {cs : Served} {st : Stream} {l : List (ℕ × Probe)} (i : ℕ)
      → Journal cs st l
      → Journal (cs ++ ((i, init) ∷ [])) opened []
  fails :
      {cs : Served} {st : Stream} {l : List (ℕ × Probe)} (i : ℕ)
      → Journal cs st l
      → Journal (cs ++ ((i, init) ∷ [])) null l
  closes :
      {cs : Served} {l : List (ℕ × Probe)} (i : ℕ)
      → Journal cs opened l
      → Journal (cs ++ ((i, final) ∷ [])) closed l
  logs :
      {cs : Served} {l : List (ℕ × Probe)} (i : ℕ) (p : Probe)
      → Journal cs opened l
      → Journal (cs ++ ((i, probe p) ∷ [])) opened (l ++ ((i, p) ∷ []))

-- The served calls of one thread, in their order.
abbrev pub of_thread : ℕ → Served → List Call
of_thread j [] = []
of_thread j ((i, c) ∷ rest) = let more = of_thread j rest in if i == j then c ∷ more else more
