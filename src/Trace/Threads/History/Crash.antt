-- ===== src/Trace/Threads/History/Crash.antt =====
-- Why a thread crashes in lib/inttrace.c.
use atomicity_violation.Base.{ℕ, ◌≡◌, ◌≢◌, refl, subst, List, [], ◌∷◌, ◌++◌, false, true}
use atomicity_violation.Trace.Line.{Platform, Probe}
use atomicity_violation.Trace.Threads.{
  Stream, null, opened, closed, Call, init, probe, final, crashed, System,
}
use atomicity_violation.Trace.Threads.History.{
  Asked, Served, Runs, Journal, untouched, opens, fails, closes, logs,
}
use atomicity_violation.Trace.Threads.History.Exit.{
  initialized, in_order, in_order-final, Runs-in_order,
}
use atomicity_violation.Trace.Threads.History.Laws.{Runs-Fell}

-- The calls before the one that crashes, that call, and what they have left of `fp`.
pub data Cause : Served → Call → Stream → Type 0 where
  never_opened : (p : Probe) → Cause [] (probe p) null
  not_opened : (cs : Served) (i : ℕ) {c : Call} → c ≢ init → Cause (cs ++ ((i, init) ∷ [])) c null
  shut : (cs : Served) (i : ℕ) {c : Call} → c ≢ init → Cause (cs ++ ((i, final) ∷ [])) c closed

Journal-Cause :
    {cs : Served} {st : Stream} {l : List (ℕ × Probe)} (c : Call)
    → Journal cs st l
    → st ≢ opened
    → c ≢ init
    → (c ≡ final → initialized cs ≡ true)
    → Cause cs c st
Journal-Cause init untouched ne other first = absurd (other refl)
Journal-Cause (probe p) untouched ne other first = never_opened p
Journal-Cause final untouched ne other first = cc (first refl)
Journal-Cause c (opens i j) ne other first = absurd (ne refl)
Journal-Cause c (fails {cs} i j) ne other first = not_opened cs i other
Journal-Cause c (closes {cs} i j) ne other first = shut cs i other
Journal-Cause c (logs i p j) ne other first = absurd (ne refl)

-- In every run in which thread `i` has crashed, the last call that got the lock is its call of a
-- probe or of `_final_`, and just before it there was either no call (it is then a probe), or an
-- `_init_` that could not open the log, or a `_final_`: never a probe, and never an `_init_` that
-- opened the log.
pub Runs-Cause :
    (platform : Platform) {asked : Asked} {served : Served} {s : System}
    → Runs platform asked served s
    → (i : ℕ) → s.pc i ≡ crashed
    → (cs : Served) × (c : Call) × (served ≡ cs ++ ((i, c) ∷ [])) × Cause cs c s.shared.stream
Runs-Cause platform {served} {s} r i e =
    let (cs, c, q, j, not_open, other) = Runs-Fell platform r i e in
    let first : c ≡ final → initialized cs ≡ true = λ last. in_order-final cs i (
      subst (λ x. in_order false (cs ++ ((i, x) ∷ [])) ≡ true) last
        (subst (λ x. in_order false x ≡ true) q (Runs-in_order platform r))) in
    (cs, c, q, Journal-Cause c j not_open other first)
