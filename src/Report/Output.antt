-- ===== src/Report/Output.antt =====
-- What atom.py writes out.
use mathlib.Core.List.{Memᴰ}
use mathlib.Core.List.Memᴰ.{head, tail, append_right, append_cases}
use atomicity_violation.Base.{
  ℕ, zero, suc, ◌⊎◌, ◌≢◌, sym, ap, ◌∙◌, false, arith, ◌≡◌, refl, inl, inr, Option, none, some, List,
  [], ◌∷◌, ◌++◌, Bytes, codes, All, All-append, map, get_elem?, Bool-cases, true,
}
use atomicity_violation.Text.{same}
use atomicity_violation.Text.Laws.{same_iff}
use atomicity_violation.Report.Laws.{report, lookup}
use atomicity_violation.Report.{Log, Groups, add, thread, is_printed, print_entries, print_groups}

-- The entry has a fifth part.
abbrev pub IsWide : Log → Type 0
IsWide a = (op : Bytes) × (get_elem? a 4 ≡ some op)

abbrev pub AllWide : Groups → Type 0
AllWide [] = Unit
AllWide ((key, arr) ∷ rest) = All IsWide arr × AllWide rest

pub add-AllWide :
    (addr : Bytes) (log : Log) (dic : Groups)
    → IsWide log
    → AllWide dic
    → AllWide (add addr log dic)
unfolding add
add-AllWide addr log [] w a = ((w, tt), tt)
add-AllWide addr log ((key, arr) ∷ rest) w a = elim (Bool-cases (same addr key)) [
  | inl s ↦ rw (s, add) (All-append IsWide arr (log ∷ []) a.0 (w, tt), a.1)
  | inr d ↦ rw (d, add) (a.0, add-AllWide addr log rest w a.1)
]

abbrev part_or_empty : Option Bytes → Bytes
part_or_empty none = []
part_or_empty (some s) = s

-- The line of an entry, and the lines of all groups: the specification.
abbrev pub entry_line : Log → Bytes
entry_line a = codes "TID: " ++ (thread a ++ (codes " OP: " ++ part_or_empty (get_elem? a 4)))

abbrev pub address_line : Bytes → Bytes
address_line key = codes "address: [" ++ (key ++ codes "]")

abbrev pub dashes : Bytes
dashes = codes "-------------------------------------------------------"

abbrev pub render : Groups → List Bytes
render [] = []
render ((key, arr) ∷ rest) = address_line key ∷ (map entry_line arr ++ (dashes ∷ render rest))

print_entries-render :
    (arr : List Log)
    → All IsWide arr
    → print_entries arr ≡ record { printed = map entry_line arr; ended = true }
unfolding print_entries
print_entries-render [] w = refl
print_entries-render (a ∷ arr) ((op, e), w) =
    rw (e, print_entries) (rw (print_entries-render arr w) refl)

-- If all entries are wide, the second loop comes to its end, and writes out these lines.
pub print_groups-render :
    (dic : Groups)
    → AllWide dic
    → print_groups dic ≡ record { printed = render (report dic); ended = true }
unfolding print_groups report
print_groups-render [] w = refl
print_groups-render ((key, arr) ∷ rest) (w, ws) = elim (Bool-cases (is_printed arr)) [
  | inl p ↦
      rw (p, print_groups) (rw (print_entries-render arr w) (rw (print_groups-render rest ws) refl))
  | inr p ↦ rw (p, print_groups) (rw (print_groups-render rest ws) refl)
]

-- The groups have the key.
abbrev pub IsKey : Bytes → Groups → Type 0
IsKey k [] = ⊥
IsKey k ((key, arr) ∷ rest) = (k ≡ key) ⊎ IsKey k rest

abbrev first : Bytes → ℕ
first [] = 0
first (c ∷ s) = c

abbrev past : ℕ → Bytes → Bytes
past zero s = s
past (suc n) [] = []
past (suc n) (c ∷ s) = past n s

abbrev without_last : Bytes → Bytes
without_last [] = []
without_last (c ∷ []) = []
without_last (c ∷ (d ∷ s)) = c ∷ without_last (d ∷ s)

without_last-append : (s : Bytes) (c : ℕ) → without_last (s ++ (c ∷ [])) ≡ s
without_last-append [] c = refl
without_last-append (d ∷ []) c = refl
without_last-append (d ∷ (e ∷ s)) c = ap (λ x. d ∷ x) (without_last-append (e ∷ s) c)

address_line_injective : (k key : Bytes) → address_line k ≡ address_line key → k ≡ key
address_line_injective k key e =
    let inner : k ++ codes "]" ≡ key ++ codes "]" = ap (past 10) e in
    sym (without_last-append k b']') ∙ ap without_last inner ∙ without_last-append key b']'

-- The line of an address is no line of an entry.
entry_line-Memᴰ : (k : Bytes) (arr : List Log) → ¬ Memᴰ (address_line k) (map entry_line arr)
entry_line-Memᴰ k [] m = elim m [ ]
entry_line-Memᴰ k (a ∷ arr) (head e) =
    let q : ◌≡◌ {A = ℕ} b'a' b'T' = ap first e in omega (arith, q)
entry_line-Memᴰ k (a ∷ arr) (tail m) = entry_line-Memᴰ k arr m

pub render-IsKey : (k : Bytes) (dic : Groups) → Memᴰ (address_line k) (render dic) → IsKey k dic
render-IsKey k [] m = elim m [ ]
render-IsKey k ((key, arr) ∷ rest) (head e) = inl (address_line_injective k key e)
render-IsKey k ((key, arr) ∷ rest) (tail m) =
    go (append_cases (map entry_line arr) m) (render-IsKey k rest)
  where
    go :
        Memᴰ (address_line k) (map entry_line arr) ⊎ Memᴰ (address_line k) (dashes ∷ render rest)
        → (Memᴰ (address_line k) (render rest) → IsKey k rest)
        → IsKey k ((key, arr) ∷ rest)
    go (inl x) ih = absurd (entry_line-Memᴰ k arr x)
    go (inr (head e)) ih = let q : ◌≡◌ {A = ℕ} b'a' b'-' = ap first e in absurd (omega (arith, q))
    go (inr (tail x)) ih = inr (ih x)

pub IsKey-render : (k : Bytes) (dic : Groups) → IsKey k dic → Memᴰ (address_line k) (render dic)
IsKey-render k [] x = elim x [ ]
IsKey-render k ((key, arr) ∷ rest) (inl e) = head (ap address_line e)
IsKey-render k ((key, arr) ∷ rest) (inr x) =
    tail (append_right (map entry_line arr) (tail (IsKey-render k rest x)))

-- A group that is printed has entries.
printed_entries : (arr : List Log) → is_printed arr ≡ true → ¬ (arr ≡ [])
unfolding is_printed
printed_entries [] p q = cc p
printed_entries (a ∷ arr) p q = cc q

pub IsKey-lookup : (k : Bytes) (dic : Groups) → IsKey k (report dic) → lookup k (report dic) ≢ []
unfolding report
IsKey-lookup k [] = λ x. elim x [ ]
IsKey-lookup k ((key, arr) ∷ rest) = elim (Bool-cases (is_printed arr)) [
  | inl p ↦
      rw (p, report)
        (λ x. elim (Bool-cases (same k key)) [
          | inl s ↦ rw s (printed_entries arr p)
          | inr d ↦ rw d (go d x (IsKey-lookup k rest))
        ])
  | inr p ↦ rw (p, report) (IsKey-lookup k rest)
]
  where
    go :
        same k key ≡ false
        → (k ≡ key) ⊎ IsKey k (report rest)
        → (IsKey k (report rest) → lookup k (report rest) ≢ [])
        → lookup k (report rest) ≢ []
    go d (inl e) ih = cc (d, (same_iff k key).1 e)
    go d (inr x) ih = ih x

pub lookup-IsKey : (k : Bytes) (gs : Groups) → lookup k gs ≢ [] → IsKey k gs
lookup-IsKey k [] ne = absurd (ne refl)
lookup-IsKey k ((key, arr) ∷ rest) ne = elim (Bool-cases (same k key)) [
  | inl s ↦ inl ((same_iff k key).0 s)
  | inr d ↦ inr (lookup-IsKey k rest (rw d at ne))
]
