-- ===== src/Tests/Schedules.antt =====
-- A schedule: thread 1 opens the log and probes a store, then thread 2 probes a load of the same
-- address.
use atomicity_violation.Base.{
  ℕ, ◌≡◌, refl, subst, none, some, [], ◌∷◌, ◌++◌, append-nil, append_assoc, Bytes, codes, ==_iff,
  ◌^◌, ◌-◌,
}
use atomicity_violation.Trace.Line.{Probe, format}
use atomicity_violation.Tests.Texts.{strokes}
use atomicity_violation.Trace.Threads.{
  opened, init, probe, Pc, idle, waiting, inside, writing, leaving, opening, registering, Shared,
  System, update, initial, request, acquire, open_log, release_opened, register, start, put,
  written, release, Reach, start_up,
}
use atomicity_violation.Trace.Threads.Invariant.{lines}
use atomicity_violation.Trace.Threads.Laws.{step_of, mutual_exclusion}
use atomicity_violation.Trace.Threads.History.{
  Asked, ask, call_made, Runs, begin, continue, Journal, of_thread,
}
use atomicity_violation.Trace.Threads.History.Laws.{Runs-Journal}
use atomicity_violation.Trace.Threads.Progress.{Frees, owner-Frees}

update_self : (pc : ℕ → Pc) (i : ℕ) (p : Pc) → update pc i p i ≡ p
update_self pc i p = rw ((==_iff i i).1 refl)

abbrev puts : ℕ → Bytes → (ℕ → Pc) → ℕ → Pc
puts i [] pc = pc
puts i (c ∷ rest) pc = puts i rest (update pc i (writing rest))

puts_self :
    (i : ℕ) (bytes : Bytes) (pc : ℕ → Pc) → pc i ≡ writing bytes → puts i bytes pc i ≡ writing []
puts_self i [] pc e = e
puts_self i (c ∷ rest) pc e =
    puts_self i rest (update pc i (writing rest)) (update_self pc i (writing rest))

puts-Reach :
    (i : ℕ) (bytes : Bytes) (s : Shared) (pc : ℕ → Pc)
    → pc i ≡ writing bytes
    → Reach strokes (record { shared = s; pc = pc })
    → Reach strokes (record { shared = record s { text = s.text ++ bytes }; pc = puts i bytes pc })
puts-Reach i [] s pc e r =
    subst (λ t. Reach strokes (record { shared = record s { text = t }; pc = pc }))
      (rw append-nil refl) r
puts-Reach i (c ∷ rest) s pc e r =
    subst
      (λ t.
        Reach strokes (record {
          shared = record s { text = t };
          pc = puts i rest (update pc i (writing rest));
        }))
      (append_assoc s.text (c ∷ []) rest)
      (puts-Reach i rest (record s { text = s.text ++ (c ∷ []) }) (update pc i (writing rest))
        (update_self pc i (writing rest)) (step_of strokes {p' = writing rest} e put r))

abbrev asked : ℕ → Probe → (ℕ → Pc) → ℕ → Pc
asked i p pc = update (update pc i (waiting (probe p))) i (inside (probe p))

abbrev started : ℕ → Probe → (ℕ → Pc) → ℕ → Pc
started i p pc = update (asked i p pc) i (writing (format strokes i p))

abbrev stopped : ℕ → (ℕ → Pc) → ℕ → Pc
stopped i pc = update (update pc i leaving) i idle

abbrev logged_by : ℕ → Probe → Shared → Shared
logged_by i p s = record s {
  owner = none;
  text = s.text ++ format strokes i p;
  logged = s.logged ++ ((i, p) ∷ []);
}

abbrev probed : ℕ → Probe → (ℕ → Pc) → ℕ → Pc
probed i p pc = stopped i (puts i (format strokes i p) (started i p pc))

-- A whole probe, from the program's own code and back.
probed-Reach :
    (i : ℕ) (p : Probe) (s : Shared) (pc : ℕ → Pc)
    → pc i ≡ idle
    → s.owner ≡ none
    → s.stream ≡ opened
    → Reach strokes (record { shared = s; pc = pc })
    → Reach strokes (record { shared = logged_by i p s; pc = probed i p pc })
probed-Reach i p s pc e free ready r =
    let begun =
      step_of strokes {p' = writing (format strokes i p)}
        (update_self (update pc i (waiting (probe p))) i (inside (probe p))) (start ready)
        (step_of strokes {p' = inside (probe p)} (update_self pc i (waiting (probe p)))
          (acquire free) (step_of strokes {p' = waiting (probe p)} e (request (probe p) tt) r)) in
    let put_all =
      puts-Reach i (format strokes i p) _ (started i p pc)
        (update_self (asked i p pc) i (writing (format strokes i p))) begun in
    step_of strokes {p' = idle}
      (update_self (puts i (format strokes i p) (started i p pc)) i leaving) release
      (step_of strokes {p' = leaving}
        (puts_self i (format strokes i p) (started i p pc)
          (update_self (asked i p pc) i (writing (format strokes i p))))
        written put_all)

abbrev pub stored : Probe
stored = record { line = 7; file = codes "main.rs"; op = codes "store"; addr = 3 }

abbrev pub loaded : Probe
loaded = record { line = 2 ^ 32 - 1; file = codes "main.rs"; op = codes "load"; addr = 3 }

abbrev unlocked_pc : ℕ → Pc
unlocked_pc =
    update (update (update (update initial.pc 1 (waiting init)) 1 (inside init)) 1 opening) 1
      registering

abbrev opened_pc : ℕ → Pc
opened_pc = update unlocked_pc 1 idle

abbrev open_shared : Shared
open_shared = record { stream = opened; owner = none; text = []; handlers = 1; logged = [] }

opened-Reach : Reach strokes (record { shared = open_shared; pc = opened_pc })
opened-Reach = step_of strokes {p' = idle} refl register (
    step_of strokes {p' = registering} refl release_opened (
      step_of strokes {p' = opening} refl open_log (
        step_of strokes {p' = inside init} refl (acquire refl)
          (step_of strokes {p' = waiting init} refl (request init tt) start_up))))

abbrev pub traced : System
traced = record {
  shared = logged_by 2 loaded (logged_by 1 stored open_shared);
  pc = probed 2 loaded (probed 1 stored opened_pc);
}

pub traced-Reach : Reach strokes traced
unfolding format
traced-Reach =
    probed-Reach 2 loaded (logged_by 1 stored open_shared) (probed 1 stored opened_pc) refl refl
      refl (probed-Reach 1 stored open_shared opened_pc refl refl refl opened-Reach)

-- Thread 1 is about to write its line.
abbrev busy : System
busy = record {
  shared = record open_shared { owner = some 1; logged = (1, stored) ∷ [] };
  pc = started 1 stored opened_pc;
}

busy-Reach : Reach strokes busy
busy-Reach = step_of strokes {p' = writing (format strokes 1 stored)} refl (start refl) (
    step_of strokes {p' = inside (probe stored)} refl (acquire refl)
      (step_of strokes {p' = waiting (probe stored)} refl (request (probe stored) tt) opened-Reach))

mutual_exclusion_example : ◌≡◌ {A = ℕ} 1 1
mutual_exclusion_example = mutual_exclusion strokes busy-Reach 1 1 refl refl

owner-Frees_example : Frees strokes 1 busy
owner-Frees_example = owner-Frees strokes busy-Reach 1 refl refl (λ e. cc)

-- Thread 1 opens the log, and thread 2 comes to wait for the lock.
abbrev queue_asked : Asked
queue_asked =
    ask
      (ask
        (ask (ask (ask (ask (λ _. []) 1 (waiting init)) 1 (inside init)) 1 opening) 1 registering) 1
        idle)
      2 (waiting (probe stored))

queue-Runs :
    Runs strokes queue_asked
      ((1, init) ∷ [])
      (record { shared = open_shared; pc = update opened_pc 2 (waiting (probe stored)) })
queue-Runs =
    continue {p' = waiting (probe stored)} 2
      (continue {p' = idle} 1
        (continue {p' = registering} 1
          (continue {p' = opening} 1
            (continue {p' = inside init} 1
              (continue {p' = waiting init} 1 begin refl (request init tt)) refl (acquire refl))
            refl open_log)
          refl release_opened)
        refl register)
      refl (request (probe stored) tt)

Runs-Journal_example :
    Journal ((1, init) ∷ []) opened []
    × (open_shared.text ≡ lines strokes open_shared.logged)
    × ((j : ℕ)
        → of_thread j ((1, init) ∷ []) ++ call_made (update opened_pc 2 (waiting (probe stored)) j)
          ≡ queue_asked j)
Runs-Journal_example = Runs-Journal strokes queue-Runs refl
