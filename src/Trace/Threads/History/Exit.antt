-- ===== src/Trace/Threads/History/Exit.antt =====
-- The list of `atexit`: `_final_` is not called before `_init_`.
use atomicity_violation.Trace.Line.{Platform}
use atomicity_violation.Base.{
  ℕ, suc, ◌≡◌, refl, sym, ◌∙◌, ap, true, false, Bool, [], ◌∷◌, ◌++◌, ◌==◌, Bool-cases, inl, inr,
  if◌then◌else◌,
}
use atomicity_violation.Trace.Threads.{
  Call, init, probe, final, Pc, idle, waiting, inside, writing, leaving, opening, registering,
  crashed, Shared, System, update, IsCalled, Move, request, exit_handler, acquire, open_log,
  open_fails, release_opened, register, register_fails, close_log, start, put, written, release,
  crash_probe, crash_final,
}
use atomicity_violation.Trace.Threads.History.{Asked, Served, serve, Runs, begin, continue}

-- Some thread has called `_init_`.
abbrev pub initialized : Served → Bool
initialized [] = false
initialized ((i, init) ∷ cs) = true
initialized ((i, _) ∷ cs) = initialized cs

-- Each `_final_` has an `_init_` before it; the first argument is whether there was one.
abbrev pub in_order : Bool → Served → Bool
in_order b [] = true
in_order b ((i, init) ∷ cs) = in_order true cs
in_order b ((i, probe p) ∷ cs) = in_order b cs
in_order b ((i, final) ∷ cs) = if b then in_order b cs else false

initialized-append : (cs ds : Served) → initialized cs ≡ true → initialized (cs ++ ds) ≡ true
initialized-append [] ds e = cc e
initialized-append ((i, init) ∷ cs) ds e = refl
initialized-append ((i, probe p) ∷ cs) ds e = initialized-append cs ds e
initialized-append ((i, final) ∷ cs) ds e = initialized-append cs ds e

initialized-init : (cs : Served) (i : ℕ) → initialized (cs ++ ((i, init) ∷ [])) ≡ true
initialized-init [] i = refl
initialized-init ((j, init) ∷ cs) i = refl
initialized-init ((j, probe p) ∷ cs) i = initialized-init cs i
initialized-init ((j, final) ∷ cs) i = initialized-init cs i

in_order-true : (cs : Served) → in_order true cs ≡ true
in_order-true [] = refl
in_order-true ((i, init) ∷ cs) = in_order-true cs
in_order-true ((i, probe p) ∷ cs) = in_order-true cs
in_order-true ((i, final) ∷ cs) = in_order-true cs

in_order-append :
    (cs : Served) (i : ℕ) (c : Call)
    → in_order false cs ≡ true
    → (c ≡ final → initialized cs ≡ true)
    → in_order false (cs ++ ((i, c) ∷ [])) ≡ true
in_order-append [] i init e first = refl
in_order-append [] i (probe p) e first = refl
in_order-append [] i final e first = first refl
in_order-append ((j, init) ∷ cs) i c e first = in_order-true (cs ++ ((i, c) ∷ []))
in_order-append ((j, probe p) ∷ cs) i c e first = in_order-append cs i c e first
in_order-append ((j, final) ∷ cs) i c e first = cc e

-- A `_final_` at the end has an `_init_` before it.
pub in_order-final :
    (cs : Served) (i : ℕ) → in_order false (cs ++ ((i, final) ∷ [])) ≡ true → initialized cs ≡ true
in_order-final [] i e = e
in_order-final ((j, init) ∷ cs) i e = refl
in_order-final ((j, probe p) ∷ cs) i e = in_order-final cs i e
in_order-final ((j, final) ∷ cs) i e = cc e

-- What a thread can only come to behind `_init_`, or through the list of `atexit`.
abbrev is_late : Pc → Bool
is_late (waiting final) = true
is_late (inside init) = true
is_late opening = true
is_late registering = true
is_late _ = false

pub record IsStarted (served : Served) (s : System) : Type 0 where
  pub listed : (n : ℕ) → s.shared.handlers ≡ suc n → initialized served ≡ true
  pub late : (j : ℕ) → is_late (s.pc j) ≡ true → initialized served ≡ true
  pub sound : in_order false served ≡ true

late-update :
    (served : Served) (pc : ℕ → Pc) (i : ℕ) (p' : Pc)
    → (is_late p' ≡ true → initialized served ≡ true)
    → ((j : ℕ) → is_late (pc j) ≡ true → initialized served ≡ true)
    → (j : ℕ) → is_late (update pc i p' j) ≡ true
    → initialized served ≡ true
late-update served pc i p' here there j h = elim (Bool-cases (i == j)) [
  | inl same ↦ here (rw same at h)
  | inr differ ↦ there j (rw differ at h)
]

module _ (platform : Platform) where
  -- A step that gets no lock.
  unserved_step :
      (served : Served) (s t : Shared) (pc : ℕ → Pc) (i : ℕ) (p' : Pc)
      → ((n : ℕ) → t.handlers ≡ suc n → initialized served ≡ true)
      → (is_late p' ≡ true → initialized served ≡ true)
      → IsStarted served (record { shared = s; pc = pc })
      → IsStarted served (record { shared = t; pc = update pc i p' })
  unserved_step served s t pc i p' list here k = record {
    listed = list;
    late = late-update served pc i p' here k.late;
    sound = k.sound;
  }

  -- A step that neither gets the lock nor touches the list.
  quiet_step :
      (served : Served) (s t : Shared) (pc : ℕ → Pc) (i : ℕ) (p p' : Pc)
      → pc i ≡ p
      → t.handlers ≡ s.handlers
      → (is_late p' ≡ true → is_late p ≡ true)
      → IsStarted served (record { shared = s; pc = pc })
      → IsStarted served (record { shared = t; pc = update pc i p' })
  quiet_step served s t pc i p p' e same keep k =
      unserved_step served s t pc i p' (λ n q. k.listed n (sym same ∙ q))
        (λ h. k.late i (ap is_late e ∙ keep h)) k

  called_early : (c : Call) → IsCalled c → is_late (waiting c) ≡ true → is_late idle ≡ true
  called_early init called h = cc h
  called_early (probe p) called h = cc h
  called_early final called h = absurd called

  serve_step :
      (served : Served) (s : Shared) (t : Shared) (pc : ℕ → Pc) (i : ℕ) (c : Call)
      → pc i ≡ waiting c
      → t.handlers ≡ s.handlers
      → IsStarted served (record { shared = s; pc = pc })
      → IsStarted (served ++ ((i, c) ∷ [])) (record { shared = t; pc = update pc i (inside c) })
  serve_step served s t pc i c e same k = record {
    listed = λ n q. initialized-append served _ (k.listed n (sym same ∙ q));
    late =
        late-update (served ++ ((i, c) ∷ [])) pc i (inside c) (entered c)
          (λ j h. initialized-append served _ (k.late j h));
    sound =
        in_order-append served i c k.sound (λ last. k.late i (ap is_late (e ∙ ap waiting last)));
  }
    where
      entered :
          (c : Call) → is_late (inside c) ≡ true → initialized (served ++ ((i, c) ∷ [])) ≡ true
      entered init h = initialized-init served i
      entered (probe p) h = cc h
      entered final h = cc h

  Move-IsStarted :
      (served : Served) (pc : ℕ → Pc) (i : ℕ) {s t : Shared} {p p' : Pc}
      → Move platform i s p t p'
      → pc i ≡ p
      → IsStarted served (record { shared = s; pc = pc })
      → IsStarted (serve served i p) (record { shared = t; pc = update pc i p' })
  Move-IsStarted served pc i {s} (request c called) e k =
      quiet_step served s s pc i idle (waiting c) e refl (called_early c called) k
  Move-IsStarted served pc i {s} (exit_handler {n} q) e k =
      unserved_step served s _ pc i (waiting final) (λ m r. k.listed n q) (λ h. k.listed n q) k
  Move-IsStarted served pc i {s} (acquire {c} free) e k = serve_step served s _ pc i c e refl k
  Move-IsStarted served pc i {s} open_log e k =
      quiet_step served s _ pc i _ opening e refl (λ h. refl) k
  Move-IsStarted served pc i {s} open_fails e k =
      quiet_step served s _ pc i _ opening e refl (λ h. refl) k
  Move-IsStarted served pc i {s} release_opened e k =
      quiet_step served s _ pc i _ registering e refl (λ h. refl) k
  Move-IsStarted served pc i {s} register e k =
      let begun : initialized served ≡ true = k.late i (ap is_late e) in
      unserved_step served s _ pc i idle (λ m r. begun) (λ h. begun) k
  Move-IsStarted served pc i {s} register_fails e k =
      quiet_step served s s pc i _ idle e refl (λ h. refl) k
  Move-IsStarted served pc i {s} (close_log o) e k =
      quiet_step served s _ pc i _ leaving e refl (λ h. cc h) k
  Move-IsStarted served pc i {s} (start {p} o) e k =
      quiet_step served s _ pc i _ (writing _) e refl (λ h. cc h) k
  Move-IsStarted served pc i {s} (put {c} {rest}) e k =
      quiet_step served s _ pc i _ (writing rest) e refl (λ h. cc h) k
  Move-IsStarted served pc i {s} written e k =
      quiet_step served s _ pc i _ leaving e refl (λ h. cc h) k
  Move-IsStarted served pc i {s} release e k =
      quiet_step served s _ pc i _ idle e refl (λ h. cc h) k
  Move-IsStarted served pc i {s} (crash_probe o) e k =
      quiet_step served s _ pc i _ crashed e refl (λ h. cc h) k
  Move-IsStarted served pc i {s} (crash_final o) e k =
      quiet_step served s _ pc i _ crashed e refl (λ h. cc h) k

  Runs-IsStarted :
      {asked : Asked} {served : Served} {s : System}
      → Runs platform asked served s
      → IsStarted served s
  Runs-IsStarted begin = record { listed = λ n q. cc q; late = λ j h. cc h; sound = refl }
  Runs-IsStarted (continue {served} {s} i r e mv) =
      Move-IsStarted served s.pc i mv e (Runs-IsStarted r)

  -- In every run, no `_final_` gets the lock before an `_init_` has got it.
  pub Runs-in_order :
      {asked : Asked} {served : Served} {s : System}
      → Runs platform asked served s
      → in_order false served ≡ true
  Runs-in_order r = (Runs-IsStarted r).sound
