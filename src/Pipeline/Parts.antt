-- ===== src/Pipeline/Parts.antt =====
-- The parts of a text and the lines of a file, one part or line at a time.
use atomicity_violation.Base.{
  ℕ, zero, suc, ◌+◌, ◌-◌, ◌/◌, ◌%◌, ◌^◌, ◌<◌, ◌≡◌, ◌≢◌, refl, List, [], ◌∷◌, ◌++◌, arith, Bytes,
  All, ltb, ◌==◌, false, ap, Bool-cases, inl, inr,
}
use atomicity_violation.Trace.Line.{print_int, digits}
use atomicity_violation.Report.{split, newlines, file_lines}

abbrev pub Lacks : ℕ → Bytes → Type 0
Lacks b = All (λ c. c ≢ b)

pub digits-Lacks :
    (b fuel n : ℕ) (out : Bytes) → b < b'0' → Lacks b out → Lacks b (digits fuel n out)
unfolding digits
digits-Lacks b zero n out h l = l
digits-Lacks b (suc fuel) n out h l = elim (Bool-cases (ltb n 10)) [
  | inl small ↦ rw (small, digits) (omega arith, l)
  | inr large ↦
      rw (large, digits) (digits-Lacks b fuel (n / 10) ((b'0' + n % 10) ∷ out) h (omega arith, l))
]

pub print_int-Lacks : (b n : ℕ) → b < b'-' → Lacks b (print_int n)
unfolding print_int
print_int-Lacks b n h = elim (Bool-cases (ltb n (2 ^ 31))) [
  | inl small ↦ rw (small, print_int) (digits-Lacks b 10 n [] (omega arith) tt)
  | inr large ↦
      rw (large, print_int) (omega arith, digits-Lacks b 10 (2 ^ 32 - n) [] (omega arith) tt)
]

-- A byte that ends no line and that is decoded alone.
abbrev pub IsLineByte : ℕ → Type 0
IsLineByte c = (c ≢ b'\n') × ((c ≢ b'\r') × (c < 128))

abbrev pub IsLine : Bytes → Type 0
IsLine = All IsLineByte

digits-IsLine : (fuel n : ℕ) (out : Bytes) → IsLine out → IsLine (digits fuel n out)
unfolding digits
digits-IsLine zero n out l = l
digits-IsLine (suc fuel) n out l = elim (Bool-cases (ltb n 10)) [
  | inl small ↦ rw (small, digits) ((omega arith, (omega arith, omega arith)), l)
  | inr large ↦
      rw (large, digits)
        (digits-IsLine fuel (n / 10) ((b'0' + n % 10) ∷ out)
          ((omega arith, (omega arith, omega arith)), l))
]

pub print_int-IsLine : (n : ℕ) → IsLine (print_int n)
unfolding print_int
print_int-IsLine n = elim (Bool-cases (ltb n (2 ^ 31))) [
  | inl small ↦ rw (small, print_int) (digits-IsLine 10 n [] tt)
  | inr large ↦
      rw (large, print_int)
        ((omega arith, (omega arith, omega arith)), digits-IsLine 10 (2 ^ 32 - n) [] tt)
]

-- A text without `\r` is left as it is.
pub newlines_lem : (s : Bytes) → Lacks b'\r' s → newlines false s ≡ s
unfolding newlines
newlines_lem [] l = refl
newlines_lem (c ∷ s) (ne, l) =
    let other : (c == b'\r') ≡ false = ground (arith, ne) in
    rw (other, newlines) (ap (λ t. c ∷ t) (newlines_lem s l))

split_cons : (sep : ℕ) (s : Bytes) → (p : Bytes) × (ps : List Bytes) × (split sep s ≡ p ∷ ps)
unfolding split
split_cons sep [] = ([], [], refl)
split_cons sep (c ∷ s) =
    let (p, ps, e) = split_cons sep s in
    elim (Bool-cases (c == sep)) [
      | inl here ↦ ([], p ∷ ps, rw (e, split) (rw here))
      | inr past ↦ (c ∷ p, ps, rw (e, split) (rw past))
    ]

pub split_part :
    (sep : ℕ) (part rest : Bytes)
    → Lacks sep part
    → split sep (part ++ (sep ∷ rest)) ≡ part ∷ split sep rest
unfolding split
split_part sep [] rest l = let (p, ps, e) = split_cons sep rest in rw (e, split) (ground arith)
split_part sep (c ∷ part) rest l = rw (split_part sep part rest l.1, split) (ground (arith, l.0))

pub split_last : (sep : ℕ) (part : Bytes) → Lacks sep part → split sep part ≡ part ∷ []
unfolding split
split_last sep [] l = refl
split_last sep (c ∷ part) l = ground (arith, split_last sep part l.1)

pub file_lines_line :
    (line rest : Bytes)
    → Lacks b'\n' line
    → file_lines (line ++ (b'\n' ∷ rest)) ≡ (line ++ (b'\n' ∷ [])) ∷ file_lines rest
unfolding file_lines
file_lines_line [] rest l = refl
file_lines_line (c ∷ line) rest l =
    rw (file_lines_line line rest l.1, file_lines) (ground (arith, l.0))
