-- ===== src/Trace/Threads.antt =====
-- The threads of an instrumented program in the functions of lib/inttrace.c, interleaved in any
-- order. `fprintf` puts one byte at a time, so it is the mutex that keeps a line in one piece.
pub mod Invariant
pub mod Laws
pub mod Progress
pub mod History
use atomicity_violation.Base.{
  ℕ, suc, ◌≡◌, ◌≢◌, Bool, true, false, Option, none, some, List, [], ◌∷◌, ◌++◌, Bytes, ◌==◌,
  if◌then◌else◌,
}
use atomicity_violation.Trace.Line.{Platform, Probe, format}

-- `fp`: null, open, or a pointer that `fclose` has made dangling.
pub data Stream : Type 0 where
  null opened closed : Stream

-- A call of one of the functions: `_init_`, a probe (of either kind: their bodies are the same), or
-- `_final_`.
pub data Call : Type 0 where
  init : Call
  probe : Probe → Call
  final : Call

-- Where a thread stands.
pub data Pc : Type 0 where
  idle : Pc  -- in the program's own code
  waiting : Call → Pc  -- at `pthread_mutex_lock`
  inside : Call → Pc  -- behind it
  writing : Bytes → Pc  -- in `fprintf`, with the bytes that are still to be put
  leaving : Pc  -- at `pthread_mutex_unlock`
  opening : Pc  -- at `pthread_mutex_unlock` in `_init_`
  registering : Pc  -- at `atexit`
  crashed : Pc  -- `fprintf` or `fclose` on a stream that is not open

-- The shared state: `fp`, the owner of `fp_lock`, the text of the file, and how often `_final_`
-- stands in the list of `atexit`. `logged` is no variable of the program: it lists the probes that
-- have begun to write since the file was opened.
pub record Shared : Type 0 where
  pub stream : Stream
  pub owner : Option ℕ
  pub text : Bytes
  pub handlers : ℕ
  pub logged : List (ℕ × Probe)

pub record System : Type 0 where
  pub shared : Shared
  pub pc : ℕ → Pc

abbrev pub update : (ℕ → Pc) → ℕ → Pc → ℕ → Pc
update pc i p j = if i == j then p else pc j

abbrev pub initial : System
initial = record {
  shared = record { stream = null; owner = none; text = []; handlers = 0; logged = [] };
  pc = λ _. idle;
}

-- The program itself calls `_init_` and the probes; `exit` calls `_final_`.
abbrev pub IsCalled : Call → Type 0
IsCalled final = ⊥
IsCalled _ = Unit

module _ (platform : Platform) where
  -- One step of thread `i`.
  pub data Move (i : ℕ) (s : Shared) : Pc → Shared → Pc → Type 0 where
    request : (c : Call) → IsCalled c → Move i s idle s (waiting c)
    exit_handler :
        {n : ℕ} → s.handlers ≡ suc n → Move i s idle (record s { handlers = n }) (waiting final)
    acquire :
        {c : Call} → s.owner ≡ none → Move i s (waiting c) (record s { owner = some i }) (inside c)
    open_log : Move i s (inside init) (record s { stream = opened; text = []; logged = [] }) opening
    open_fails : Move i s (inside init) (record s { stream = null }) opening
    release_opened : Move i s opening (record s { owner = none }) registering
    register : Move i s registering (record s { handlers = suc s.handlers }) idle
    register_fails : Move i s registering s idle
    close_log : s.stream ≡ opened → Move i s (inside final) (record s { stream = closed }) leaving
    start :
        {p : Probe}
        → s.stream ≡ opened
        → Move i s
            (inside (probe p))
            (record s { logged = s.logged ++ ((i, p) ∷ []) })
            (writing (format platform i p))
    put :
        {c : ℕ} {rest : Bytes}
        → Move i s (writing (c ∷ rest)) (record s { text = s.text ++ (c ∷ []) }) (writing rest)
    written : Move i s (writing []) s leaving
    release : Move i s leaving (record s { owner = none }) idle
    crash_probe : {p : Probe} → s.stream ≢ opened → Move i s (inside (probe p)) s crashed
    crash_final : s.stream ≢ opened → Move i s (inside final) s crashed

  pub data Step (s : System) : System → Type 0 where
    pick :
        (i : ℕ) {t : Shared} {p p' : Pc}
        → s.pc i ≡ p
        → Move i s.shared p t p'
        → Step s (record { shared = t; pc = update s.pc i p' })

  -- The states that a program can reach, whatever it calls and however its threads are scheduled.
  pub data Reach : System → Type 0 where
    start_up : Reach initial
    later : {s t : System} → Reach s → Step s t → Reach t

  -- The states that thread `i` comes to while no other thread takes a step.
  pub data Solo (i : ℕ) (s : System) : System → Type 0 where
    stay : Solo i s s
    further :
        {t : System} {u : Shared} {p p' : Pc}
        → Solo i s t
        → t.pc i ≡ p
        → Move i t.shared p u p'
        → Solo i s (record { shared = u; pc = update t.pc i p' })
