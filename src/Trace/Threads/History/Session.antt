-- ===== src/Trace/Threads/History/Session.antt =====
-- What the log of a run holds, read from the calls that have got the lock.
use mathlib.Core.List.{Memᴰ}
use mathlib.Core.List.Memᴰ.{head, tail, append_left, append_right, append_cases}
use atomicity_violation.Base.{
  ℕ, ◌≡◌, ◌≢◌, ◌↔◌, ◌⊎◌, inl, inr, refl, sym, ◌∙◌, ap, subst, List, [], ◌∷◌, ◌++◌, ◌==◌, ==_iff,
  Bool-cases, ap₂, none,
}
use atomicity_violation.Trace.Line.{Platform, Probe}
use atomicity_violation.Trace.Threads.{Stream, null, Call, init, probe, final, System}
use atomicity_violation.Trace.Threads.History.{
  Asked, Served, Runs, Journal, untouched, opens, fails, closes, logs, of_thread,
}
use atomicity_violation.Trace.Threads.History.Laws.{Runs-Journal}

-- The probes since the last `_init_`, behind those in the file before.
abbrev pub logged_in : List (ℕ × Probe) → Served → List (ℕ × Probe)
logged_in l [] = l
logged_in l ((i, init) ∷ cs) = logged_in [] cs
logged_in l ((i, probe p) ∷ cs) = logged_in (l ++ ((i, p) ∷ [])) cs
logged_in l ((i, final) ∷ cs) = logged_in l cs

logged_in-append :
    (l : List (ℕ × Probe)) (cs ds : Served) → logged_in l (cs ++ ds) ≡ logged_in (logged_in l cs) ds
logged_in-append l [] ds = refl
logged_in-append l ((i, init) ∷ cs) ds = logged_in-append [] cs ds
logged_in-append l ((i, probe p) ∷ cs) ds = logged_in-append (l ++ ((i, p) ∷ [])) cs ds
logged_in-append l ((i, final) ∷ cs) ds = logged_in-append l cs ds

Journal-logged_in :
    {cs : Served} {st : Stream} {l : List (ℕ × Probe)}
    → Journal cs st l
    → st ≢ null
    → l ≡ logged_in [] cs
Journal-logged_in untouched ne = refl
Journal-logged_in (opens {cs} i j) ne = sym (logged_in-append [] cs ((i, init) ∷ []))
Journal-logged_in (fails i j) ne = absurd (ne refl)
Journal-logged_in (closes {cs} i j) ne =
    Journal-logged_in j (λ e. cc) ∙ sym (logged_in-append [] cs ((i, final) ∷ []))
Journal-logged_in (logs {cs} i p j) ne =
    ap (λ l. l ++ ((i, p) ∷ [])) (Journal-logged_in j (λ e. cc))
    ∙ sym (logged_in-append [] cs ((i, probe p) ∷ []))

-- The probes among the calls.
abbrev pub probes_in : List Call → List Probe
probes_in [] = []
probes_in (init ∷ cs) = probes_in cs
probes_in (probe p ∷ cs) = p ∷ probes_in cs
probes_in (final ∷ cs) = probes_in cs

-- The log is opened once, before all else.
abbrev NeverOpens : Served → Type 0
NeverOpens [] = Unit
NeverOpens ((i, init) ∷ cs) = ⊥
NeverOpens ((i, _) ∷ cs) = NeverOpens cs

abbrev pub IsSession : Served → Type 0
IsSession ((i, init) ∷ cs) = NeverOpens cs
IsSession _ = ⊥

-- The probe of a thread stands in the log exactly if it is among the thread's calls.
logged_in-Memᴰ :
    (i : ℕ) (p : Probe) (l : List (ℕ × Probe)) (cs : Served)
    → NeverOpens cs
    → Memᴰ (i, p) (logged_in l cs)
    → Memᴰ (i, p) l ⊎ Memᴰ p (probes_in (of_thread i cs))
logged_in-Memᴰ i p l [] n m = inl m
logged_in-Memᴰ i p l ((j, init) ∷ cs) n m = elim n [ ]
logged_in-Memᴰ i p l ((j, final) ∷ cs) n m = elim (logged_in-Memᴰ i p l cs n m) [
  | inl old ↦ inl old
  | inr new ↦ inr (elim (Bool-cases (j == i)) [ inl e ↦ rw e new | inr d ↦ rw d new ])
]
logged_in-Memᴰ i p l ((j, probe q) ∷ cs) n m =
    elim (logged_in-Memᴰ i p (l ++ ((j, q) ∷ [])) cs n m) [
      | inl old ↦ elim (append_cases l old) [ inl older ↦ inl older | inr last ↦ inr (here last) ]
      | inr new ↦ inr (elim (Bool-cases (j == i)) [ inl e ↦ rw e (tail new) | inr d ↦ rw d new ])
    ]
  where
    here :
        Memᴰ {A = ℕ × Probe} (i, p) ((j, q) ∷ [])
        → Memᴰ p (probes_in (of_thread i ((j, probe q) ∷ cs)))
    here (head e) = rw ((==_iff j i).1 (sym (ap (λ x. x.0) e))) (head (ap (λ x. x.1) e))
    here (tail t) = elim t [ ]

Memᴰ-logged_in_old :
    (i : ℕ) (p : Probe) (l : List (ℕ × Probe)) (cs : Served)
    → NeverOpens cs
    → Memᴰ (i, p) l
    → Memᴰ (i, p) (logged_in l cs)
Memᴰ-logged_in_old i p l [] n m = m
Memᴰ-logged_in_old i p l ((j, init) ∷ cs) n m = elim n [ ]
Memᴰ-logged_in_old i p l ((j, final) ∷ cs) n m = Memᴰ-logged_in_old i p l cs n m
Memᴰ-logged_in_old i p l ((j, probe q) ∷ cs) n m =
    Memᴰ-logged_in_old i p (l ++ ((j, q) ∷ [])) cs n (append_left _ m)

Memᴰ-logged_in :
    (i : ℕ) (p : Probe) (l : List (ℕ × Probe)) (cs : Served)
    → NeverOpens cs
    → Memᴰ p (probes_in (of_thread i cs))
    → Memᴰ (i, p) (logged_in l cs)
Memᴰ-logged_in i p l [] n m = elim m [ ]
Memᴰ-logged_in i p l ((j, init) ∷ cs) n m = elim n [ ]
Memᴰ-logged_in i p l ((j, final) ∷ cs) n m = elim (Bool-cases (j == i)) [
  | inl e ↦ Memᴰ-logged_in i p l cs n (rw e at m)
  | inr d ↦ Memᴰ-logged_in i p l cs n (rw d at m)
]
Memᴰ-logged_in i p l ((j, probe q) ∷ cs) n m = elim (Bool-cases (j == i)) [
  | inl e ↦ here ((==_iff j i).0 e) (rw e at m) (Memᴰ-logged_in i p (l ++ ((j, q) ∷ [])) cs n)
  | inr d ↦ Memᴰ-logged_in i p (l ++ ((j, q) ∷ [])) cs n (rw d at m)
]
  where
    here :
        j ≡ i
        → Memᴰ p (q ∷ probes_in (of_thread i cs))
        → (Memᴰ p (probes_in (of_thread i cs)) → Memᴰ (i, p) (logged_in (l ++ ((j, q) ∷ [])) cs))
        → Memᴰ (i, p) (logged_in (l ++ ((j, q) ∷ [])) cs)
    here e (head f) later =
        Memᴰ-logged_in_old i p (l ++ ((j, q) ∷ [])) cs n
          (append_right l (head (ap₂ (λ x y. (x, y)) (sym e) f)))
    here e (tail t) later = later t

pub IsSession-Memᴰ :
    (served : Served) (i : ℕ) (p : Probe)
    → IsSession served
    → Memᴰ (i, p) (logged_in [] served) ↔ Memᴰ p (probes_in (of_thread i served))
IsSession-Memᴰ [] i p n = elim n [ ]
IsSession-Memᴰ ((j, probe q) ∷ cs) i p n = elim n [ ]
IsSession-Memᴰ ((j, final) ∷ cs) i p n = elim n [ ]
IsSession-Memᴰ ((j, init) ∷ cs) i p n = (
  λ m. elim (logged_in-Memᴰ i p [] cs n m) [ inl old ↦ elim old [ ] | inr new ↦ skip new ],
  λ m. Memᴰ-logged_in i p [] cs n (unskip m),
)
  where
    same_probes : probes_in (of_thread i ((j, init) ∷ cs)) ≡ probes_in (of_thread i cs)
    same_probes = elim (Bool-cases (j == i)) [ inl e ↦ rw e refl | inr d ↦ rw d refl ]

    skip : Memᴰ p (probes_in (of_thread i cs)) → Memᴰ p (probes_in (of_thread i ((j, init) ∷ cs)))
    skip = subst (Memᴰ p) (sym same_probes)

    unskip : Memᴰ p (probes_in (of_thread i ((j, init) ∷ cs))) → Memᴰ p (probes_in (of_thread i cs))
    unskip = subst (Memᴰ p) same_probes

-- When the lock is free and the log has been opened, it holds the probes since the last `_init_`.
pub Runs-logged_in :
    (platform : Platform) {asked : Asked} {served : Served} {s : System}
    → Runs platform asked served s
    → s.shared.owner ≡ none
    → s.shared.stream ≢ null
    → s.shared.logged ≡ logged_in [] served
Runs-logged_in platform r free ne = Journal-logged_in (Runs-Journal platform r free).0 ne
