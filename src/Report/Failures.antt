-- ===== src/Report/Failures.antt =====
-- When the second loop of atom.py fails.
use atomicity_violation.Base.{
  ◌≡◌, ◌↔◌, refl, Bool, true, false, Bool-cases, inl, inr, Option, none, some, List, [], ◌∷◌, Bytes,
  All, get_elem?,
}
use atomicity_violation.Report.{
  Log, Groups, Written, then_write, is_printed, print_entries, print_groups,
}
use atomicity_violation.Report.Laws.{IsContended, is_printed_iff}
use atomicity_violation.Report.Output.{IsWide}

-- All entries of all addresses that two threads have accessed have a fifth part.
abbrev pub ContendedWide : Groups → Type 0
ContendedWide [] = Unit
ContendedWide ((key, arr) ∷ rest) = (IsContended arr → All IsWide arr) × ContendedWide rest

print_entries-ended : (arr : List Log) → (print_entries arr).ended ≡ true ↔ All IsWide arr
unfolding print_entries
print_entries-ended [] = (λ e. tt, λ w. refl)
print_entries-ended (a ∷ arr) = go (get_elem? a 4) refl (print_entries-ended arr)
  where
    go :
        (o : Option Bytes)
        → get_elem? a 4 ≡ o
        → (print_entries arr).ended ≡ true ↔ All IsWide arr
        → (print_entries (a ∷ arr)).ended ≡ true ↔ All IsWide (a ∷ arr)
    go none q ih = rw (q, print_entries) (λ e. cc e, λ ((op, w), ws). cc w)
    go (some op) q ih = rw (q, print_entries) (λ e. ((op, refl), ih.0 e), λ (w, ws). ih.1 ws)

then_write_ended :
    (x y : Written) → (then_write x y).ended ≡ true ↔ ((x.ended ≡ true) × (y.ended ≡ true))
then_write_ended x y = go x.ended refl
  where
    go :
        (b : Bool)
        → x.ended ≡ b
        → (then_write x y).ended ≡ true ↔ ((x.ended ≡ true) × (y.ended ≡ true))
    go true q = rw q (λ e. (refl, e), λ (t, e). e)
    go false q = rw q (λ e. cc e, λ (t, e). cc t)

printed_or_not : (arr : List Log) → is_printed arr ≡ false → ¬ IsContended arr
printed_or_not arr p c = cc (p, (is_printed_iff arr).1 c)

-- The second loop comes to its end, and does not fail at `a[4]`, exactly if for every address of
-- which two entries are of different threads all entries have a fifth part.
pub print_groups-ended : (dic : Groups) → (print_groups dic).ended ≡ true ↔ ContendedWide dic
unfolding print_groups
print_groups-ended [] = (λ e. tt, λ w. refl)
print_groups-ended ((key, arr) ∷ rest) = elim (Bool-cases (is_printed arr)) [
  | inl p ↦
      rw (p, print_groups)
        (
          λ e.
              let (entries_ended, later) = (then_write_ended (print_entries arr) _).0 e in
              (λ c. (print_entries-ended arr).0 entries_ended, (print_groups-ended rest).0 later),
          λ (w, ws). (then_write_ended (print_entries arr) _).1 (
            (print_entries-ended arr).1 (w ((is_printed_iff arr).0 p)),
            (print_groups-ended rest).1 ws,
          ),
        )
  | inr p ↦
      rw (p, print_groups)
        (
          λ e. (λ c. absurd (printed_or_not arr p c), (print_groups-ended rest).0 e),
          λ (w, ws). (print_groups-ended rest).1 ws,
        )
]
