-- ===== src/Trace/Threads/Progress.antt =====
-- The thread that holds the lock can always give it back.
use atomicity_violation.Base.{
  ℕ, ◌≡◌, ◌≢◌, refl, sym, ◌∙◌, ap, true, Option, none, some, [], ◌∷◌, Bytes, ◌==◌, ==_iff,
  Bool-cases, inl, inr,
}
use mathlib.Core.Option.{some-injective}
use atomicity_violation.Trace.Line.{Platform, format}
use atomicity_violation.Trace.Threads.{
  opened, Call, init, probe, final, Pc, idle, waiting, inside, writing, leaving, opening,
  registering, crashed, Shared, System, update, Move, request, exit_handler, acquire, open_log,
  open_fails, release_opened, register, register_fails, close_log, start, put, written, release,
  crash_probe, crash_final, pick, Reach, start_up, later, Solo, stay, further,
}
use atomicity_violation.Trace.Threads.Invariant.{holds}

-- The owner of the lock stands behind `pthread_mutex_lock`.
pub record IsHeld (o : Option ℕ) (pc : ℕ → Pc) : Type 0 where
  pub behind : (j : ℕ) → o ≡ some j → holds (pc j) ≡ true

IsHeld-update :
    (o : Option ℕ) (pc : ℕ → Pc) (i : ℕ) (p p' : Pc)
    → pc i ≡ p
    → (holds p ≡ true → holds p' ≡ true)
    → IsHeld o pc
    → IsHeld o (update pc i p')
IsHeld-update o pc i p p' e keep held = record {
  behind = λ j mine. elim (Bool-cases (i == j)) [
    | inl same ↦
        let at_i : holds (pc i) ≡ true =
          held.behind i (mine ∙ ap some (sym ((==_iff i j).0 same))) in
        rw same (keep (sym (ap holds e) ∙ at_i))
    | inr differ ↦ rw differ (held.behind j mine)
  ];
}

module _ (platform : Platform) where
  Move-IsHeld :
      {i : ℕ} {s t : Shared} {p p' : Pc} {pc : ℕ → Pc}
      → Move platform i s p t p'
      → pc i ≡ p
      → IsHeld s.owner pc
      → IsHeld t.owner (update pc i p')
  Move-IsHeld {i} {s} {pc} (request c called) e h =
      IsHeld-update s.owner pc i idle (waiting c) e (λ q. cc) h
  Move-IsHeld {i} {s} {pc} (exit_handler q) e h =
      IsHeld-update s.owner pc i idle (waiting final) e (λ q. cc) h
  Move-IsHeld {i} {s} {pc} register e h = IsHeld-update s.owner pc i registering idle e (λ q. cc) h
  Move-IsHeld {i} {s} {pc} register_fails e h =
      IsHeld-update s.owner pc i registering idle e (λ q. cc) h
  Move-IsHeld {i} {s} {pc} (acquire {c} o) e h = record {
    behind = λ j mine. rw ((==_iff i j).1 (some-injective i j mine)) refl;
  }
  Move-IsHeld {i} {s} {pc} open_log e h = IsHeld-update s.owner pc i _ opening e (λ q. refl) h
  Move-IsHeld {i} {s} {pc} open_fails e h = IsHeld-update s.owner pc i _ opening e (λ q. refl) h
  Move-IsHeld {i} {s} {pc} (close_log o) e h = IsHeld-update s.owner pc i _ leaving e (λ q. refl) h
  Move-IsHeld {i} {s} {pc} (start {p} o) e h = IsHeld-update s.owner pc i _ _ e (λ q. refl) h
  Move-IsHeld {i} {s} {pc} (put {c} {rest}) e h =
      IsHeld-update s.owner pc i _ (writing rest) e (λ q. refl) h
  Move-IsHeld {i} {s} {pc} written e h = IsHeld-update s.owner pc i _ leaving e (λ q. refl) h
  Move-IsHeld {i} {s} {pc} release e h = record { behind = λ j mine. cc mine }
  Move-IsHeld {i} {s} {pc} release_opened e h = record { behind = λ j mine. cc mine }
  Move-IsHeld {i} {s} {pc} (crash_probe o) e h =
      IsHeld-update s.owner pc i _ crashed e (λ q. refl) h
  Move-IsHeld {i} {s} {pc} (crash_final o) e h =
      IsHeld-update s.owner pc i _ crashed e (λ q. refl) h

  Reach-IsHeld : {s : System} → Reach platform s → IsHeld s.shared.owner s.pc
  Reach-IsHeld start_up = record { behind = λ j mine. cc mine }
  Reach-IsHeld (later r (pick i e mv)) = Move-IsHeld mv e (Reach-IsHeld r)

  -- By steps of thread `i` alone, the lock becomes free and `i` is back in the program's own code.
  abbrev pub Frees : ℕ → System → Type 0
  Frees i s = (t : System) × Solo platform i s t × (t.shared.owner ≡ none) × (t.pc i ≡ idle)

  update_self : (pc : ℕ → Pc) (i : ℕ) (p : Pc) → update pc i p i ≡ p
  update_self pc i p = rw ((==_iff i i).1 refl)

  leaving-Frees : {s t : System} (i : ℕ) → t.pc i ≡ leaving → Solo platform i s t → Frees i s
  leaving-Frees {t} i e r = (_, further {p' = idle} r e release, refl, update_self t.pc i idle)

  opening-Frees : {s t : System} (i : ℕ) → t.pc i ≡ opening → Solo platform i s t → Frees i s
  opening-Frees {t} i e r =
      let unlocked : ℕ → Pc = update t.pc i registering in
      (
        _,
        further {p' = idle} (further {p' = registering} r e release_opened)
            (update_self t.pc i registering) register,
        refl,
        update_self unlocked i idle,
      )

  writing-Frees :
      {s : System} (i : ℕ) (bytes : Bytes) (t : System)
      → t.pc i ≡ writing bytes
      → Solo platform i s t
      → Frees i s
  writing-Frees i [] t e r =
      leaving-Frees i (update_self t.pc i leaving) (further {p' = leaving} r e written)
  writing-Frees i (c ∷ more) t e r =
      writing-Frees i more _ (update_self t.pc i (writing more))
        (further {p' = writing more} r e put)

  inside-Frees :
      (i : ℕ) (c : Call) (s : System) → s.pc i ≡ inside c → s.shared.stream ≡ opened → Frees i s
  inside-Frees i init s e ready =
      opening-Frees i (update_self s.pc i opening) (further {p' = opening} stay e open_log)
  inside-Frees i (probe p) s e ready =
      writing-Frees i (format platform i p) _ (update_self s.pc i (writing (format platform i p)))
        (further {p' = writing (format platform i p)} stay e (start ready))
  inside-Frees i final s e ready =
      leaving-Frees i (update_self s.pc i leaving) (further {p' = leaving} stay e (close_log ready))

  -- In a reachable state in which the log is open, the thread that owns the lock, if it has not
  -- crashed, can give the lock back by steps of its own, whatever the other threads do.
  pub owner-Frees :
      {s : System}
      → Reach platform s
      → (i : ℕ) → s.shared.owner ≡ some i
      → s.shared.stream ≡ opened
      → s.pc i ≢ crashed
      → Frees i s
  owner-Frees {s} r i mine ready alive = go (s.pc i) refl
    where
      go : (p : Pc) → s.pc i ≡ p → Frees i s
      go idle e = cc (e, (Reach-IsHeld r).behind i mine)
      go (waiting c) e = cc (e, (Reach-IsHeld r).behind i mine)
      go (inside c) e = inside-Frees i c s e ready
      go (writing bytes) e = writing-Frees i bytes s e stay
      go leaving e = leaving-Frees i e stay
      go opening e = opening-Frees i e stay
      go registering e = cc (e, (Reach-IsHeld r).behind i mine)
      go crashed e = absurd (alive e)
