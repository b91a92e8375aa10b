-- ===== src/Trace/Threads/History/Kept.antt =====
-- How the calls served so far, and the call that has the lock, stand to the journal.
use atomicity_violation.Base.{
  ℕ, ◌≡◌, ◌≢◌, refl, sym, ◌∙◌, ap, subst, Option, none, some, List, [], ◌∷◌, ◌++◌, append-nil, ◌==◌,
  ==_iff, Bool-cases, inl, inr,
}
use atomicity_violation.Trace.Line.{Probe}
use atomicity_violation.Trace.Threads.{
  Stream, opened, Call, init, Pc, waiting, inside, writing, leaving, opening, crashed, Shared,
  update,
}
use atomicity_violation.Trace.Threads.History.{Asked, Served, call_made, ask, Journal, of_thread}

of_thread-append :
    (j : ℕ) (xs ys : Served) → of_thread j (xs ++ ys) ≡ of_thread j xs ++ of_thread j ys
of_thread-append j [] ys = refl
of_thread-append j ((i, c) ∷ xs) ys = elim (Bool-cases (i == j)) [
  | inl same ↦ rw same (ap (λ cs. c ∷ cs) (of_thread-append j xs ys))
  | inr differ ↦ rw differ (of_thread-append j xs ys)
]

-- All calls of a thread are served, in their order, but for the one that it waits for.
pub record InOrder (asked : Asked) (served : Served) (pc : ℕ → Pc) : Type 0 where
  pub each : (j : ℕ) → of_thread j served ++ call_made (pc j) ≡ asked j

-- The call that got the lock last is one of thread `i`, and finds the log not open.
abbrev pub Fell : Served → Stream → List (ℕ × Probe) → ℕ → Type 0
Fell served st l i =
    (cs : Served) × (c : Call) × (served ≡ cs ++ ((i, c) ∷ []))
    × Journal cs st l
    × (st ≢ opened)
    × (c ≢ init)

-- How far the call of the thread that has the lock has come.
abbrev pub Midway : Served → Stream → List (ℕ × Probe) → ℕ → Pc → Type 0
Midway served st l i (inside c) = (cs : Served) × (served ≡ cs ++ ((i, c) ∷ [])) × Journal cs st l
Midway served st l i (writing bytes) = Journal served st l
Midway served st l i leaving = Journal served st l
Midway served st l i opening = Journal served st l
Midway served st l i crashed = Fell served st l i
Midway served st l i _ = Unit

abbrev pub Kept : Served → Stream → List (ℕ × Probe) → Option ℕ → (ℕ → Pc) → Type 0
Kept served st l none pc = Journal served st l
Kept served st l (some i) pc = Midway served st l i (pc i)

pub record IsKept (served : Served) (s : Shared) (pc : ℕ → Pc) : Type 0 where
  pub kept : Kept served s.stream s.logged s.owner pc

pub InOrder-request :
    (asked : Asked) (served : Served) (pc : ℕ → Pc) (i : ℕ) (p' : Pc)
    → call_made (pc i) ≡ []
    → InOrder asked served pc
    → InOrder (ask asked i p') served (update pc i p')
InOrder-request asked served pc i p' e o = record {
  each = λ j. elim (Bool-cases (i == j)) [
    | inl same ↦
        let at_i : call_made (pc j) ≡ [] =
          ap (λ k. call_made (pc k)) (sym ((==_iff i j).0 same)) ∙ e in
        let before : of_thread j served ≡ asked j =
          sym (append-nil _) ∙ ap (λ cs. of_thread j served ++ cs) (sym at_i) ∙ o.each j in
        rw same (ap (λ cs. cs ++ call_made p') before)
    | inr differ ↦ rw differ (o.each j)
  ];
}

pub InOrder-serve :
    (asked : Asked) (served : Served) (pc : ℕ → Pc) (i : ℕ) (c : Call)
    → pc i ≡ waiting c
    → InOrder asked served pc
    → InOrder (ask asked i (inside c)) (served ++ ((i, c) ∷ [])) (update pc i (inside c))
InOrder-serve asked served pc i c e o = record {
  each = λ j. elim (Bool-cases (i == j)) [
    | inl same ↦
        let at_i : call_made (pc j) ≡ c ∷ [] =
          ap (λ k. call_made (pc k)) (sym ((==_iff i j).0 same)) ∙ ap call_made e in
        rw (of_thread-append j served ((i, c) ∷ [])) (
          rw same (
            append-nil _
            ∙ ap (λ cs. of_thread j served ++ cs) (sym at_i)
            ∙ o.each j
            ∙ sym (append-nil _)))
    | inr differ ↦
        rw (of_thread-append j served ((i, c) ∷ []))
          (rw differ (ap (λ cs. cs ++ call_made (pc j)) (append-nil _) ∙ o.each j))
  ];
}

pub IsKept-outside :
    (served : Served) (s : Shared) (pc : ℕ → Pc) (i : ℕ) (p' : Pc)
    → Midway served s.stream s.logged i p'
    → IsKept served s pc
    → IsKept served s (update pc i p')
IsKept-outside served s pc i p' midway k = go s.owner refl
  where
    go : (o : Option ℕ) → s.owner ≡ o → IsKept served s (update pc i p')
    go none q = record { kept = rw q (rw q at k.kept) }
    go (some j) q = elim (Bool-cases (i == j)) [
      | inl same ↦
          let at_j : Midway served s.stream s.logged j p' =
            subst (λ m. Midway served s.stream s.logged m p') ((==_iff i j).0 same) midway in
          record { kept = rw q (rw same at_j) }
      | inr differ ↦ record { kept = rw q (rw differ (rw q at k.kept)) }
    ]

-- A step of the thread that has the lock, and keeps it.
pub IsKept-inside :
    (served : Served) (s t : Shared) (pc : ℕ → Pc) (i : ℕ) (p p' : Pc)
    → s.owner ≡ some i
    → pc i ≡ p
    → t.owner ≡ s.owner
    → (Midway served s.stream s.logged i p → Midway served t.stream t.logged i p')
    → IsKept served s pc
    → IsKept served t (update pc i p')
IsKept-inside served s t pc i p p' mine e o step k = record {
  kept =
      let at_p : Midway served s.stream s.logged i p = rw e at (rw mine at k.kept) in
      rw (o ∙ mine) (rw ((==_iff i i).1 refl) (step at_p));
}
