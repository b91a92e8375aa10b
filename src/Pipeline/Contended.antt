-- ===== src/Pipeline/Contended.antt =====
-- Which addresses atom.py prints for the log of a run.
use mathlib.Core.List.{Memᴰ}
use mathlib.Core.List.Memᴰ.{head, tail}
use mathlib.Core.Option.{some-injective}
use atomicity_violation.Base.{
  ℕ, zero, suc, ◌≡◌, ◌≢◌, ◌↔◌, refl, sym, ◌∙◌, ap, subst, true, Bool-cases, inl, inr, Option, none,
  some, List, [], ◌∷◌, Bytes, All, if◌then◌else◌,
}
use atomicity_violation.Trace.Line.{Platform, Probe}
use atomicity_violation.Text.{same}
use atomicity_violation.Text.Laws.{same_iff}
use atomicity_violation.Trace.Threads.{System, null}
use atomicity_violation.Trace.Threads.History.{Asked, Served, Runs, of_thread}
use atomicity_violation.Trace.Threads.History.Laws.{Runs-Reach}
use atomicity_violation.Trace.Threads.History.Session.{
  logged_in, probes_in, IsSession, IsSession-Memᴰ, Runs-logged_in,
}
use atomicity_violation.Report.{Log, Groups, thread, is_printed, run_script}
use atomicity_violation.Report.Output.{
  render, address_line, render-IsKey, IsKey-render, IsKey-lookup, lookup-IsKey,
}
use atomicity_violation.Report.Laws.{At, IsContended, is_printed_iff, report, lookup}
use atomicity_violation.Pipeline.Fields.{IsPlain, IsPlainProbe, DecodesAscii, fields}
use atomicity_violation.Pipeline.Printed.{accesses, run_script-text}

-- Two threads with different values of `pthread_self()`, of which each has a probe of the address;
-- `at` gives the probes of a thread.
pub record IsShared (self : ℕ → ℕ) (at : ℕ → List Probe) (a : ℕ) : Type 0 where
  pub first : ℕ
  pub second : ℕ
  pub threads_differ : self first ≢ self second
  pub one : Probe
  pub other : Probe
  pub one_at : Memᴰ one (at first)
  pub other_at : Memᴰ other (at second)
  pub one_addr : one.addr ≡ a
  pub other_addr : other.addr ≡ a

module _ (platform : Platform)
    (injective : (a b : ℕ) → platform.print_pointer a ≡ platform.print_pointer b → a ≡ b) where
  -- An access to the address, as it stands in the log.
  pub record Access (a : ℕ) (logged : List (ℕ × Probe)) (log : Log) : Type 0 where
    pub tid : ℕ
    pub entry : Probe
    pub entry_at : Memᴰ (tid, entry) logged
    pub entry_addr : entry.addr ≡ a
    pub log_fields : log ≡ fields platform tid entry

  accesses-Access :
      (a : ℕ) (logged : List (ℕ × Probe)) (n : ℕ) (log : Log)
      → At (accesses platform (platform.print_pointer a) logged) n log
      → Access a logged log
  unfolding accesses
  accesses-Access a [] n log at = cc
  accesses-Access a ((i, p) ∷ logged) n log at =
      elim (Bool-cases (same (platform.print_pointer a) (platform.print_pointer p.addr))) [
        | inl s ↦ here s n (rw s at at) (accesses-Access a logged)
        | inr d ↦ up (accesses-Access a logged n log (rw d at at))
      ]
    where
      up : {log : Log} → Access a logged log → Access a ((i, p) ∷ logged) log
      up x = record {
        tid = x.tid;
        entry = x.entry;
        entry_at = tail x.entry_at;
        entry_addr = x.entry_addr;
        log_fields = x.log_fields;
      }

      here :
          same (platform.print_pointer a) (platform.print_pointer p.addr) ≡ true
          → (n : ℕ)
          → At (fields platform i p ∷ accesses platform (platform.print_pointer a) logged) n log
          → ((n : ℕ) (log : Log)
              → At (accesses platform (platform.print_pointer a) logged) n log
              → Access a logged log)
          → Access a ((i, p) ∷ logged) log
      here s zero at ih = record {
        tid = i;
        entry = p;
        entry_at = head refl;
        entry_addr = sym (injective a p.addr ((same_iff _ _).0 s));
        log_fields = sym (some-injective _ _ at);
      }
      here s (suc n) at ih = up (ih n log at)

  -- Every probe of the address has its entry.
  At-accesses :
      (i : ℕ) (p : Probe) (logged : List (ℕ × Probe))
      → Memᴰ (i, p) logged
      → (n : ℕ) × At
          (accesses platform (platform.print_pointer p.addr) logged)
          n
          (fields platform i p)
  unfolding accesses
  At-accesses i p [] m = elim m [ ]
  At-accesses i p ((j, q) ∷ logged) (head e) =
      let addr : q.addr ≡ p.addr = sym (ap (λ (x : ℕ × Probe). x.1.addr) e) in
      (
        0,
        rw
            ((same_iff (platform.print_pointer p.addr) (platform.print_pointer q.addr)).1
              (ap platform.print_pointer (sym addr)))
            (ap (λ (x : ℕ × Probe). some (fields platform x.0 x.1)) (sym e)),
      )
  At-accesses i p ((j, q) ∷ logged) (tail m) =
      let (n, at) = At-accesses i p logged m in
      elim (Bool-cases (same (platform.print_pointer p.addr) (platform.print_pointer q.addr))) [
        | inl s ↦ (suc n, rw s at)
        | inr d ↦ (n, rw d at)
      ]

  module _ (logged : List (ℕ × Probe)) (probes : ℕ → List Probe)
      (by_thread : (i : ℕ) (p : Probe) → Memᴰ (i, p) logged ↔ Memᴰ p (probes i)) where
    pub IsContended-IsShared :
        (a : ℕ)
        → IsContended (accesses platform (platform.print_pointer a) logged)
          ↔ IsShared platform.pthread_self probes a
    unfolding thread
    IsContended-IsShared a = (to, from)
      where
        to :
            IsContended (accesses platform (platform.print_pointer a) logged)
            → IsShared platform.pthread_self probes a
        to c =
            let x : Access a logged c.one = accesses-Access a logged c.first c.one c.first_at in
            let y : Access a logged c.other =
              accesses-Access a logged c.second c.other c.second_at in
            record {
              first = x.tid;
              second = y.tid;
              threads_differ = λ e. c.threads_differ (
                  ap thread x.log_fields
                  ∙ ap platform.print_pointer e
                  ∙ sym (ap thread y.log_fields));
              one = x.entry;
              other = y.entry;
              one_at = (by_thread x.tid x.entry).0 x.entry_at;
              other_at = (by_thread y.tid y.entry).0 y.entry_at;
              one_addr = x.entry_addr;
              other_addr = y.entry_addr;
            }

        from :
            IsShared platform.pthread_self probes a
            → IsContended (accesses platform (platform.print_pointer a) logged)
        from t =
            let (n, at) = At-accesses t.first t.one logged ((by_thread t.first t.one).1 t.one_at) in
            let (k, at') =
              At-accesses t.second t.other logged ((by_thread t.second t.other).1 t.other_at) in
            record {
              first = n;
              second = k;
              one = fields platform t.first t.one;
              other = fields platform t.second t.other;
              first_at =
                  subst
                    (λ b.
                      At (accesses platform (platform.print_pointer b) logged) n
                        (fields platform t.first t.one))
                    t.one_addr at;
              second_at =
                  subst
                    (λ b.
                      At (accesses platform (platform.print_pointer b) logged) k
                        (fields platform t.second t.other))
                    t.other_addr at';
              threads_differ = λ e.
                  t.threads_differ
                    (injective (platform.pthread_self t.first) (platform.pthread_self t.second) e);
            }

-- atom.py, on the content of a file, prints the line of an address.
abbrev pub IsReported : (Bytes → Option Bytes) → Bytes → Bytes → Type 0
IsReported decode content k = Memᴰ (address_line k) (run_script decode content).printed

lookup-IsContended :
    (k : Bytes) (dic : Groups) (logs : List Log)
    → lookup k (report dic) ≡ (if is_printed logs then logs else [])
    → (lookup k (report dic) ≢ []) ↔ IsContended logs
lookup-IsContended k dic logs e = (
  λ ne.
      (is_printed_iff logs).0
        (elim (Bool-cases (is_printed logs)) [ inl t ↦ t | inr f ↦ absurd (ne (e ∙ rw f refl)) ]),
  λ c none_left. go logs c (sym (e ∙ rw ((is_printed_iff logs).1 c) refl) ∙ none_left),
)
  where
    go : (logs : List Log) → IsContended logs → ¬ (logs ≡ [])
    go [] c q = cc (c.first_at)
    go (log ∷ logs) c q = cc (q)

IsReported-IsContended :
    (decode : Bytes → Option Bytes) (content k : Bytes) (dic : Groups) (logs : List Log)
    → run_script decode content ≡ record { printed = render (report dic); ended = true }
    → lookup k (report dic) ≡ (if is_printed logs then logs else [])
    → IsReported decode content k ↔ IsContended logs
IsReported-IsContended decode content k dic logs ran e =
    let printed : (run_script decode content).printed ≡ render (report dic) =
      ap (λ w. w.printed) ran in
    let contended = lookup-IsContended k dic logs e in
    (
      λ m. contended.0 (
          IsKey-lookup k dic
            (render-IsKey k (report dic) (subst (Memᴰ (address_line k)) printed m))),
      λ c.
          subst (Memᴰ (address_line k)) (sym printed)
            (IsKey-render k (report dic) (lookup-IsKey k (report dic) (contended.1 c))),
    )

module _ (platform : Platform) (plain : (a : ℕ) → IsPlain (platform.print_pointer a))
    (injective : (a b : ℕ) → platform.print_pointer a ≡ platform.print_pointer b → a ≡ b)
    (decode : Bytes → Option Bytes) (ascii : DecodesAscii decode) where
  -- If `%p` prints different pointers differently, in ASCII without commas and ends of lines, and
  -- the file names and the operations of the probes are ASCII without these too, and ASCII is
  -- decoded as it is, and `_init_` was the first call that got the lock, and the only one of
  -- `_init_`, and it could open the log, then, when the lock is free, atom.py on this log comes to
  -- its end without an error, and prints exactly the addresses that two threads with different
  -- values of `pthread_self()` have passed to probes.
  pub Runs-IsShared :
      {asked : Asked} {served : Served} {s : System}
      → Runs platform asked served s
      → s.shared.owner ≡ none
      → s.shared.stream ≢ null
      → IsSession served
      → All IsPlainProbe (logged_in [] served)
      → ((run_script decode s.shared.text).ended ≡ true)
        × ((a : ℕ)
            → IsReported decode s.shared.text (platform.print_pointer a)
              ↔ IsShared platform.pthread_self (λ i. probes_in (of_thread i served)) a)
  Runs-IsShared {asked} {served} {s} r free ne session plain_probes =
      let logged : s.shared.logged ≡ logged_in [] served = Runs-logged_in platform r free ne in
      let (dic, ran, nodup, look) =
        run_script-text platform plain decode ascii (Runs-Reach platform r) free
          (subst (All IsPlainProbe) (sym logged) plain_probes) in
      (
        ap (λ w. w.ended) ran,
        λ a.
            let reported =
              IsReported-IsContended decode s.shared.text (platform.print_pointer a) dic _ ran
                (look (platform.print_pointer a)) in
            let shared =
              IsContended-IsShared platform injective s.shared.logged
                (λ i. probes_in (of_thread i served))
                (λ i p.
                  subst (λ l. Memᴰ (i, p) l ↔ Memᴰ p (probes_in (of_thread i served))) (sym logged)
                    (IsSession-Memᴰ served i p session))
                a in
            (λ x. shared.0 (reported.0 x), λ y. reported.1 (shared.1 y)),
      )
