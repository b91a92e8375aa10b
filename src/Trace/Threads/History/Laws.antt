-- ===== src/Trace/Threads/History/Laws.antt =====
-- The threads implement the journal, and serve the calls of each thread in their order.
use atomicity_violation.Trace.Line.{Platform}
use atomicity_violation.Base.{ℕ, ◌≡◌, refl, ◌∙◌, ap, true, none, some, [], ◌++◌, ==_iff}
use atomicity_violation.Trace.Threads.{
  init, probe, final, Pc, idle, waiting, inside, writing, leaving, opening, registering, crashed,
  Shared, System, update, Move, request, exit_handler, acquire, open_log, open_fails,
  release_opened, register, register_fails, close_log, start, put, written, release, crash_probe,
  crash_final, pick, Reach, start_up, later,
}
use atomicity_violation.Trace.Threads.Invariant.{holds, lines, Reach-Inv}
use atomicity_violation.Trace.Threads.Laws.{text-lines}
use atomicity_violation.Trace.Threads.History.{
  Asked, Served, call_made, ask, serve, Runs, begin, continue, Journal, untouched, opens, fails,
  closes, logs, of_thread,
}
use atomicity_violation.Trace.Threads.History.Kept.{
  InOrder, Fell, Midway, IsKept, InOrder-request, InOrder-serve, IsKept-outside, IsKept-inside,
}

module _ (platform : Platform) where
  -- A run with its history is a run.
  pub Runs-Reach :
      {asked : Asked} {served : Served} {s : System}
      → Runs platform asked served s
      → Reach platform s
  Runs-Reach begin = start_up
  Runs-Reach (continue i r e mv) = later (Runs-Reach r) (pick i e mv)

  pub record IsJournaled (asked : Asked) (served : Served) (s : System) : Type 0 where
    pub in_order : InOrder asked served s.pc
    pub is_kept : IsKept served s.shared s.pc

  -- A step that neither makes a call nor gets the lock.
  inside_step :
      (asked : Asked) (served : Served) (s t : Shared) (pc : ℕ → Pc) (i : ℕ) (p p' : Pc)
      → s.owner ≡ some i
      → pc i ≡ p
      → t.owner ≡ s.owner
      → call_made p ≡ []
      → (Midway served s.stream s.logged i p → Midway served t.stream t.logged i p')
      → IsJournaled asked served (record { shared = s; pc = pc })
      → IsJournaled (ask asked i p') served (record { shared = t; pc = update pc i p' })
  inside_step asked served s t pc i p p' mine e o quiet step j = record {
    in_order = InOrder-request asked served pc i p' (ap call_made e ∙ quiet) j.in_order;
    is_kept = IsKept-inside served s t pc i p p' mine e o step j.is_kept;
  }

  -- A step outside of the lock.
  outside_step :
      (asked : Asked) (served : Served) (s t : Shared) (pc : ℕ → Pc) (i : ℕ) (p p' : Pc)
      → pc i ≡ p
      → call_made p ≡ []
      → t.owner ≡ s.owner
      → t.stream ≡ s.stream
      → t.logged ≡ s.logged
      → Midway served s.stream s.logged i p'
      → IsJournaled asked served (record { shared = s; pc = pc })
      → IsJournaled (ask asked i p') served (record { shared = t; pc = update pc i p' })
  outside_step asked served s t pc i p p' e quiet o st l midway j = record {
    in_order = InOrder-request asked served pc i p' (ap call_made e ∙ quiet) j.in_order;
    is_kept = record {
      kept = rw (o, st, l) ((IsKept-outside served s pc i p' midway j.is_kept).kept);
    };
  }

  owner_of :
      {i : ℕ} {s : Shared} {pc : ℕ → Pc} {p : Pc}
      → Reach platform (record { shared = s; pc = pc })
      → pc i ≡ p
      → holds p ≡ true
      → s.owner ≡ some i
  owner_of {i} r e h = (Reach-Inv platform r).exclusive i (ap holds e ∙ h)

  Move-IsJournaled :
      (asked : Asked) (served : Served) (pc : ℕ → Pc) (i : ℕ) {s t : Shared} {p p' : Pc}
      → Reach platform (record { shared = s; pc = pc })
      → Move platform i s p t p'
      → pc i ≡ p
      → IsJournaled asked served (record { shared = s; pc = pc })
      → IsJournaled (ask asked i p') (serve served i p) (record { shared = t; pc = update pc i p' })
  Move-IsJournaled asked served pc i {s} r (request c called) e j =
      outside_step asked served s _ pc i idle (waiting c) e refl refl refl refl tt j
  Move-IsJournaled asked served pc i {s} r (exit_handler q) e j =
      outside_step asked served s _ pc i idle (waiting final) e refl refl refl refl tt j
  Move-IsJournaled asked served pc i {s} r register e j =
      outside_step asked served s _ pc i registering idle e refl refl refl refl tt j
  Move-IsJournaled asked served pc i {s} r register_fails e j =
      outside_step asked served s _ pc i registering idle e refl refl refl refl tt j
  Move-IsJournaled asked served pc i {s} r (acquire {c} free) e j = record {
    in_order = InOrder-serve asked served pc i c e j.in_order;
    is_kept = record {
      kept = rw ((==_iff i i).1 refl) (served, refl, (rw free at j.is_kept.kept));
    };
  }
  Move-IsJournaled asked served pc i {s} r open_log e j =
      inside_step asked served s _ pc i (inside init) opening (owner_of r e refl) e refl refl
        (λ (cs, q, w). rw q (opens i w)) j
  Move-IsJournaled asked served pc i {s} r open_fails e j =
      inside_step asked served s _ pc i (inside init) opening (owner_of r e refl) e refl refl
        (λ (cs, q, w). rw q (fails i w)) j
  Move-IsJournaled asked served pc i {s} r (close_log o) e j =
      inside_step asked served s _ pc i (inside final) leaving (owner_of r e refl) e refl refl
        (λ (cs, q, w). rw q (closes i (rw o at w))) j
  Move-IsJournaled asked served pc i {s} r (start {p} o) e j =
      inside_step asked served s _ pc i (inside (probe p)) _ (owner_of r e refl) e refl refl
        (λ (cs, q, w). rw q (rw o (logs i p (rw o at w)))) j
  Move-IsJournaled asked served pc i {s} r (put {c} {rest}) e j =
      inside_step asked served s _ pc i _ (writing rest) (owner_of r e refl) e refl refl (λ w. w) j
  Move-IsJournaled asked served pc i {s} r written e j =
      inside_step asked served s _ pc i _ leaving (owner_of r e refl) e refl refl (λ w. w) j
  Move-IsJournaled asked served pc i {s} r release e j = record {
    in_order = InOrder-request asked served pc i idle (ap call_made e) j.in_order;
    is_kept = record { kept = rw e at (rw (owner_of r e refl) at j.is_kept.kept) };
  }
  Move-IsJournaled asked served pc i {s} r release_opened e j = record {
    in_order = InOrder-request asked served pc i registering (ap call_made e) j.in_order;
    is_kept = record { kept = rw e at (rw (owner_of r e refl) at j.is_kept.kept) };
  }
  Move-IsJournaled asked served pc i {s} r (crash_probe {p} o) e j =
      inside_step asked served s _ pc i (inside (probe p)) crashed (owner_of r e refl) e refl refl
        (λ (cs, q, w). (cs, probe p, q, w, o, λ a. cc)) j
  Move-IsJournaled asked served pc i {s} r (crash_final o) e j =
      inside_step asked served s _ pc i (inside final) crashed (owner_of r e refl) e refl refl
        (λ (cs, q, w). (cs, final, q, w, o, λ a. cc)) j

  Runs-IsJournaled :
      {asked : Asked} {served : Served} {s : System}
      → Runs platform asked served s
      → IsJournaled asked served s
  Runs-IsJournaled begin = record {
    in_order = record { each = λ j. refl };
    is_kept = record { kept = untouched };
  }
  Runs-IsJournaled (continue {asked} {served} {s} i r e mv) =
      Move-IsJournaled asked served s.pc i (Runs-Reach r) mv e (Runs-IsJournaled r)

  -- A thread that has crashed has the lock, and its call found the log not open.
  pub Runs-Fell :
      {asked : Asked} {served : Served} {s : System}
      → Runs platform asked served s
      → (i : ℕ) → s.pc i ≡ crashed
      → Fell served s.shared.stream s.shared.logged i
  Runs-Fell {served} {s} r i e =
      let mine : s.shared.owner ≡ some i = owner_of (Runs-Reach r) e refl in
      rw e at (rw mine at (Runs-IsJournaled r).is_kept.kept)

  -- When the lock is free, the threads have done what the journal says: the calls that got the lock
  -- took effect one after the other, the log is the lines of the probes that the journal keeps, and
  -- every call of a thread has been served, in the thread's order, but for one that it waits for.
  pub Runs-Journal :
      {asked : Asked} {served : Served} {s : System}
      → Runs platform asked served s
      → s.shared.owner ≡ none
      → Journal served s.shared.stream s.shared.logged
        × (s.shared.text ≡ lines platform s.shared.logged)
        × ((j : ℕ) → of_thread j served ++ call_made (s.pc j) ≡ asked j)
  Runs-Journal r free = (
    rw free at (Runs-IsJournaled r).is_kept.kept,
    text-lines platform (Runs-Reach r) free,
    (Runs-IsJournaled r).in_order.each,
  )
