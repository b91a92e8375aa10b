-- ===== src/Events/Seen.antt =====
-- The probes in a block, read from its instructions alone.
use atomicity_violation.Base.{
  ℕ, ◌≡◌, refl, Option, none, some, List, [], ◌∷◌, ◌++◌, append_assoc, map, Bytes, codes, All,
  if◌then◌else◌,
}
use atomicity_violation.Text.{same}
use atomicity_violation.Llvm.{Llvm, call, other}
use atomicity_violation.Llvm.Reading.{Origin, Reading}

-- `_probe_` or `_probe_lock_`
pub data Kind : Type 0 where
  access lock : Kind

-- A call of a probe: the line, the file and the operation that it passes, where the address comes
-- from, and the types of the arguments.
pub record Event (L : Llvm) : Type 0 where
  pub kind : Kind
  pub line : ℕ
  pub file : Bytes
  pub op : Bytes
  pub address : Origin L
  pub types : List L.Ty

abbrev pub kind_of : Bytes → Option Kind
kind_of name =
    if same name (codes "_probe_")
    then some access
    else if same name (codes "_probe_lock_")
    then some lock
    else none

module _ {L : Llvm} (R : Reading L) where
  -- The event of a call, where all its parts can be read.
  abbrev pub event :
      Option Kind → Option ℕ → Option Bytes → Option Bytes → Origin L → List L.Ty → List (Event L)
  event (some k) (some n) (some f) (some o) a ts =
      record { kind = k; line = n; file = f; op = o; address = a; types = ts } ∷ []
  event _ _ _ _ a ts = []

  abbrev pub read_call : Option Bytes → List L.Value → List (Event L)
  read_call (some name) (l ∷ (f ∷ (o ∷ (a ∷ [])))) =
      event (kind_of name) (R.number_of l) (R.text_of f) (R.text_of o) (R.origin a)
        (map L.type_of (l ∷ (f ∷ (o ∷ (a ∷ [])))))
  read_call _ _ = []

  unfoldable pub seen_at : L.Inst → List (Event L)
  unfolding same
  seen_at i = elim (L.opcode i) [
    | call ↦ read_call (L.called_function i) (R.call_arguments i)
    | _ ↦ []
  ]

  abbrev pub seen : List L.Inst → List (Event L)
  seen [] = []
  seen (i ∷ rest) = seen_at i ++ seen rest

  pub seen-append : (xs ys : List L.Inst) → seen (xs ++ ys) ≡ seen xs ++ seen ys
  seen-append [] ys = refl
  seen-append (x ∷ xs) ys = rw (seen-append xs ys) (rw append_assoc refl)

  pub seen-other : (xs : List L.Inst) → All (λ i. L.opcode i ≡ other) xs → seen xs ≡ []
  unfolding seen_at
  seen-other [] a = refl
  seen-other (x ∷ xs) (e, a) = rw (e, seen_at) (seen-other xs a)
