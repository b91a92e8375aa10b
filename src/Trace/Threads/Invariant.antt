-- ===== src/Trace/Threads/Invariant.antt =====
-- Who holds the lock, and what the text is made of.
use atomicity_violation.Base.{
  ℕ, ◌≡◌, refl, sym, ◌∙◌, ap, Bool, true, false, Option, none, some, List, [], ◌∷◌, ◌++◌,
  append-nil, append_assoc, Bytes, ◌==◌, ==_iff, Bool-cases, inl, inr,
}
use mathlib.Core.Option.{some-injective}
use atomicity_violation.Trace.Line.{Platform, Probe, format}
use atomicity_violation.Trace.Threads.{
  final, Pc, idle, waiting, inside, writing, leaving, opening, registering, crashed, Shared, System,
  update, Move, request, exit_handler, acquire, open_log, open_fails, release_opened, register,
  register_fails, close_log, start, put, written, release, crash_probe, crash_final, pick, Reach,
  start_up, later,
}

-- Between `pthread_mutex_lock` and `pthread_mutex_unlock`.
abbrev pub holds : Pc → Bool
holds idle = false
holds (waiting c) = false
holds registering = false
holds _ = true

-- The bytes that are still to be put.
abbrev pub pending : Pc → Bytes
pending (writing rest) = rest
pending _ = []

abbrev pub pending_of : Option ℕ → (ℕ → Pc) → Bytes
pending_of none pc = []
pending_of (some i) pc = pending (pc i)

module _ (platform : Platform) where
  -- The lines of the probes, one behind the other.
  unfoldable pub lines : List (ℕ × Probe) → Bytes
  lines [] = []
  lines ((i, p) ∷ rest) = format platform i p ++ lines rest

  lines-append :
      (xs : List (ℕ × Probe)) (i : ℕ) (p : Probe)
      → lines (xs ++ ((i, p) ∷ [])) ≡ lines xs ++ format platform i p
  unfolding lines
  lines-append [] i p = append-nil _
  lines-append ((j, q) ∷ xs) i p = simp (lines-append xs i p, append_assoc)

  pub record Inv (s : System) : Type 0 where
    pub exclusive : (j : ℕ) → holds (s.pc j) ≡ true → s.shared.owner ≡ some j
    pub whole : s.shared.text ++ pending_of s.shared.owner s.pc ≡ lines s.shared.logged

  pending_of-update :
      (o : Option ℕ) (pc : ℕ → Pc) (i : ℕ) (p : Pc)
      → pending (pc i) ≡ pending p
      → pending_of o (update pc i p) ≡ pending_of o pc
  pending_of-update none pc i p e = refl
  pending_of-update (some j) pc i p e = elim (Bool-cases (i == j)) [
    | inl same ↦ rw same (sym e ∙ ap (λ k. pending (pc k)) ((==_iff i j).0 same))
    | inr differ ↦ rw differ
  ]

  holds-update_ne :
      (pc : ℕ → Pc) (i j : ℕ) (p : Pc)
      → (i == j) ≡ false
      → holds (update pc i p j) ≡ true
      → holds (pc j) ≡ true
  holds-update_ne pc i j p differ h = rw differ at h

  holds-update_self :
      (pc : ℕ → Pc) (i j : ℕ) (p : Pc)
      → (i == j) ≡ true
      → holds (update pc i p j) ≡ true
      → holds p ≡ true
  holds-update_self pc i j p same h = rw same at h

  -- A step of the thread that holds the lock, and keeps it.
  inside_step :
      (i : ℕ) (s t : Shared) (pc : ℕ → Pc) (p p' : Pc)
      → pc i ≡ p
      → holds p ≡ true
      → t.owner ≡ s.owner
      → (s.text ++ pending p ≡ lines s.logged → t.text ++ pending p' ≡ lines t.logged)
      → Inv (record { shared = s; pc = pc })
      → Inv (record { shared = t; pc = update pc i p' })
  inside_step i s t pc p p' e h o keep inv = record {
    exclusive = λ j hj. o ∙ elim (Bool-cases (i == j)) [
      | inl same ↦ mine ∙ ap some ((==_iff i j).0 same)
      | inr differ ↦ inv.exclusive j (holds-update_ne pc i j p' differ hj)
    ];
    whole =
        let before : s.text ++ pending p ≡ lines s.logged = rw e at (rw mine at inv.whole) in
        rw (o ∙ mine) (rw ((==_iff i i).1 refl) (keep before));
  }
    where
      mine : s.owner ≡ some i
      mine = inv.exclusive i (ap holds e ∙ h)

  -- A step outside of the lock.
  outside_step :
      (i : ℕ) (s t : Shared) (pc : ℕ → Pc) (p p' : Pc)
      → pc i ≡ p
      → holds p' ≡ false
      → pending p ≡ []
      → pending p' ≡ []
      → t.owner ≡ s.owner
      → t.text ≡ s.text
      → t.logged ≡ s.logged
      → Inv (record { shared = s; pc = pc })
      → Inv (record { shared = t; pc = update pc i p' })
  outside_step i s t pc p p' e out none_before none_after o x l inv = record {
    exclusive = λ j h. o ∙ elim (Bool-cases (i == j)) [
      | inl same ↦ cc (out, holds-update_self pc i j p' same h)
      | inr differ ↦ inv.exclusive j (holds-update_ne pc i j p' differ h)
    ];
    whole =
        let left : pending_of t.owner (update pc i p') ≡ pending_of s.owner pc =
          ap (λ a. pending_of a (update pc i p')) o
          ∙ pending_of-update s.owner pc i p' (ap pending e ∙ none_before ∙ sym none_after) in
        rw (x, left, l) inv.whole;
  }

  -- A step that gives the lock back.
  release_step :
      (i : ℕ) (s : Shared) (pc : ℕ → Pc) (p p' : Pc)
      → pc i ≡ p
      → holds p ≡ true
      → pending p ≡ []
      → holds p' ≡ false
      → Inv (record { shared = s; pc = pc })
      → Inv (record { shared = record s { owner = none }; pc = update pc i p' })
  release_step i s pc p p' e inside_lock none_before out inv = record {
    exclusive = λ j h. elim (Bool-cases (i == j)) [
      | inl same ↦ cc (out, holds-update_self pc i j p' same h)
      | inr differ ↦
          let other : i ≡ j =
            some-injective i j (sym mine ∙ inv.exclusive j (holds-update_ne pc i j p' differ h)) in
          cc (differ, (==_iff i j).1 other)
    ];
    whole =
        ap (λ b. s.text ++ b) (sym (ap (λ a. pending_of a pc) mine ∙ ap pending e ∙ none_before))
        ∙ inv.whole;
  }
    where
      mine : s.owner ≡ some i
      mine = inv.exclusive i (ap holds e ∙ inside_lock)

  Move-Inv :
      {i : ℕ} {s t : Shared} {p p' : Pc} {pc : ℕ → Pc}
      → Move platform i s p t p'
      → pc i ≡ p
      → Inv (record { shared = s; pc = pc })
      → Inv (record { shared = t; pc = update pc i p' })
  unfolding lines
  Move-Inv {i} {s} {pc} (request c called) e inv =
      outside_step i s s pc idle (waiting c) e refl refl refl refl refl refl inv
  Move-Inv {i} {s} {pc} (exit_handler q) e inv =
      outside_step i s _ pc idle (waiting final) e refl refl refl refl refl refl inv
  Move-Inv {i} {s} {pc} register e inv =
      outside_step i s _ pc registering idle e refl refl refl refl refl refl inv
  Move-Inv {i} {s} {pc} register_fails e inv =
      outside_step i s s pc registering idle e refl refl refl refl refl refl inv
  Move-Inv {i} {s} {pc} (acquire {c} o) e inv = record {
    exclusive = λ j h. elim (Bool-cases (i == j)) [
      | inl same ↦ ap some ((==_iff i j).0 same)
      | inr differ ↦ cc (o, inv.exclusive j (holds-update_ne pc i j (inside c) differ h))
    ];
    whole = rw ((==_iff i i).1 refl) (rw o at inv.whole);
  }
  Move-Inv {i} {s} {pc} open_log e inv = inside_step i s _ pc _ opening e refl refl (λ h. refl) inv
  Move-Inv {i} {s} {pc} open_fails e inv = inside_step i s _ pc _ opening e refl refl (λ h. h) inv
  Move-Inv {i} {s} {pc} (close_log o) e inv =
      inside_step i s _ pc _ leaving e refl refl (λ h. h) inv
  Move-Inv {i} {s} {pc} (start {p} o) e inv =
      inside_step i s _ pc _ _ e refl refl
        (λ h.
          ap (λ b. b ++ format platform i p) (sym (append-nil s.text) ∙ h)
          ∙ sym (lines-append s.logged i p))
        inv
  Move-Inv {i} {s} {pc} (put {c} {rest}) e inv =
      inside_step i s _ pc _ _ e refl refl (λ h. append_assoc s.text (c ∷ []) rest ∙ h) inv
  Move-Inv {i} {s} {pc} written e inv = inside_step i s s pc _ leaving e refl refl (λ h. h) inv
  Move-Inv {i} {s} {pc} release e inv = release_step i s pc leaving idle e refl refl refl inv
  Move-Inv {i} {s} {pc} release_opened e inv =
      release_step i s pc opening registering e refl refl refl inv
  Move-Inv {i} {s} {pc} (crash_probe o) e inv =
      inside_step i s s pc _ crashed e refl refl (λ h. h) inv
  Move-Inv {i} {s} {pc} (crash_final o) e inv =
      inside_step i s s pc _ crashed e refl refl (λ h. h) inv

  pub Reach-Inv : {s : System} → Reach platform s → Inv s
  unfolding lines
  Reach-Inv start_up = record { exclusive = λ j h. cc; whole = refl }
  Reach-Inv (later r (pick i e mv)) = Move-Inv mv e (Reach-Inv r)
