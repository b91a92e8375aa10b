-- ===== src/Tests/Sessions.antt =====
-- A session: thread 1 opens the log, and then threads 1 and 2 each probe a store to one address.
use atomicity_violation.Base.{
  ℕ, ◌≡◌, ◌≢◌, refl, sym, ◌∙◌, ap, subst, Bool-cases, inl, inr, none, List, [], ◌∷◌, ◌++◌,
  append-nil, append_assoc, Bytes, ◌==◌, ==_iff,
}
use atomicity_violation.Trace.Line.{Probe, format}
use atomicity_violation.Trace.Threads.{
  opened, init, probe, Pc, idle, waiting, inside, writing, leaving, opening, registering, Shared,
  update, initial, Move, request, acquire, open_log, release_opened, register, start, put, written,
  release,
}
use atomicity_violation.Trace.Threads.History.{Asked, Served, ask, serve, Runs, begin, continue}
use atomicity_violation.Tests.Texts.{strokes}

-- Thread `i` stands at `p`, and all others are in the program's own code.
pub record Alone (i : ℕ) (p : Pc) (served : Served) (sh : Shared) : Type 0 where
  pub asked : Asked
  pub pc : ℕ → Pc
  pub runs : Runs strokes asked served (record { shared = sh; pc = pc })
  pub here : pc i ≡ p
  pub others_idle : (j : ℕ) → j ≢ i → pc j ≡ idle

pub step :
    {i : ℕ} {p : Pc} {served : Served} {sh sh' : Shared} (p' : Pc)
    → Alone i p served sh
    → Move strokes i sh p sh' p'
    → Alone i p' (serve served i p) sh'
step {i} p' x m = record {
  asked = ask x.asked i p';
  pc = update x.pc i p';
  runs = continue i x.runs x.here m;
  here = rw ((==_iff i i).1 refl) refl;
  others_idle = λ j ne. elim (Bool-cases (i == j)) [
    | inl same ↦ absurd (ne (sym ((==_iff i j).0 same)))
    | inr differ ↦ rw differ (x.others_idle j ne)
  ];
}

-- The turn passes from a thread that is in the program's own code to another.
pub pass :
    {i : ℕ} {served : Served} {sh : Shared} (j : ℕ)
    → Alone i idle served sh
    → Alone j idle served sh
pass {i} j x = record {
  asked = x.asked;
  pc = x.pc;
  runs = x.runs;
  here = idle_at j;
  others_idle = λ k ne. idle_at k;
}
  where
    idle_at : (k : ℕ) → x.pc k ≡ idle
    idle_at k = elim (Bool-cases (k == i)) [
      | inl same ↦ ap x.pc ((==_iff k i).0 same) ∙ x.here
      | inr differ ↦ x.others_idle k (λ e. cc (differ, (==_iff k i).1 e))
    ]

puts :
    {i : ℕ} {served : Served} (bytes : Bytes) (sh : Shared)
    → Alone i (writing bytes) served sh
    → Alone i (writing []) served (record sh { text = sh.text ++ bytes })
puts {i} {served} [] sh x =
    subst (λ t. Alone i (writing []) served (record sh { text = t })) (sym (append-nil sh.text)) x
puts {i} {served} (c ∷ rest) sh x =
    subst (λ t. Alone i (writing []) served (record sh { text = t }))
      (append_assoc sh.text (c ∷ []) rest)
      (puts rest (record sh { text = sh.text ++ (c ∷ []) }) (step (writing rest) x put))

abbrev pub logged_by : ℕ → Probe → Shared → Shared
logged_by i p s = record {
  stream = opened;
  owner = none;
  handlers = s.handlers;
  text = s.text ++ format strokes i p;
  logged = s.logged ++ ((i, p) ∷ []);
}

-- A whole probe, from the program's own code and back.
pub whole_probe :
    {i : ℕ} {served : Served} (p : Probe) (text : Bytes) (handlers : ℕ) (logged : List (ℕ × Probe))
    → Alone i idle served (record {
      stream = opened;
      owner = none;
      text = text;
      handlers = handlers;
      logged = logged;
    })
    → Alone i idle (served ++ ((i, probe p) ∷ [])) (
        logged_by i p (record {
          stream = opened;
          owner = none;
          text = text;
          handlers = handlers;
          logged = logged;
        }))
whole_probe {i} p text handlers logged x =
    step idle
      (step leaving
        (puts (format strokes i p) _ (
          step (writing (format strokes i p))
            (step (inside (probe p)) (step (waiting (probe p)) x (request (probe p) tt))
              (acquire refl))
            (start refl)))
        written)
      release

abbrev pub empty_log : Shared
empty_log = record { stream = opened; owner = none; text = []; handlers = 1; logged = [] }

-- `_init_` by thread 1.
pub opened_log : Alone 1 idle ((1, init) ∷ []) empty_log
opened_log =
    step idle
      (step registering
        (step opening
          (step (inside init) (step (waiting init) at_start (request init tt)) (acquire refl))
          open_log)
        release_opened)
      register
  where
    at_start : Alone 1 idle [] initial.shared
    at_start = record {
      asked = λ _. [];
      pc = λ _. idle;
      runs = begin;
      here = refl;
      others_idle = λ j ne. refl;
    }
