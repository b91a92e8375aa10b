-- ===== src/Trace/Threads/Laws.antt =====
-- Mutual exclusion, and what the log holds.
use atomicity_violation.Base.{ℕ, ◌≡◌, refl, sym, ◌∙◌, true, none, append-nil, ==_iff}
use mathlib.Core.Option.{some-injective}
use atomicity_violation.Trace.Line.{Platform}
use atomicity_violation.Trace.Threads.{Pc, Shared, System, update, Move, pick, Reach, later}
use atomicity_violation.Trace.Threads.Invariant.{holds, lines, Reach-Inv}

module _ (platform : Platform) where
  -- In a reachable state, two threads are never between `pthread_mutex_lock` and
  -- `pthread_mutex_unlock` together.
  pub mutual_exclusion :
      {s : System}
      → Reach platform s
      → (i j : ℕ) → holds (s.pc i) ≡ true
      → holds (s.pc j) ≡ true
      → i ≡ j
  mutual_exclusion r i j hi hj =
      some-injective i j
        (sym ((Reach-Inv platform r).exclusive i hi) ∙ (Reach-Inv platform r).exclusive j hj)

  -- In a reachable state in which the lock is free, the log is made of the whole lines of the
  -- probes since it was opened, in the order in which these got the lock.
  pub text-lines :
      {s : System}
      → Reach platform s
      → s.shared.owner ≡ none
      → s.shared.text ≡ lines platform s.shared.logged
  text-lines {s} r free = sym (append-nil s.shared.text) ∙ rw free at (Reach-Inv platform r).whole

  pub step_of :
      {i : ℕ} {s t : Shared} {p p' : Pc} {pc : ℕ → Pc}
      → pc i ≡ p
      → Move platform i s p t p'
      → Reach platform (record { shared = s; pc = pc })
      → Reach platform (record { shared = t; pc = update pc i p' })
  step_of {i} e mv r = later r (pick i e mv)

  update_self : (pc : ℕ → Pc) (i : ℕ) (p : Pc) → update pc i p i ≡ p
  update_self pc i p = rw ((==_iff i i).1 refl)
