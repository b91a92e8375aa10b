-- ===== src/Text/Laws.antt =====
-- What the searches find.
use atomicity_violation.Base.{
  ℕ, ◌≡◌, ◌≢◌, ◌↔◌, refl, true, false, none, some, [], ◌∷◌, ◌++◌, arith, Bytes, length, All,
  Bool-cases, ap, inl, inr, take-append_length,
}
use atomicity_violation.Text.{starts_with, find, rfind, contains, substr, same}

-- The needle stands somewhere in the text.
abbrev pub IsInfix : Bytes → Bytes → Type 0
IsInfix n s = (before : Bytes) × (after : Bytes) × (s ≡ before ++ (n ++ after))

starts_with-append : (n s : Bytes) → starts_with (n ++ s) n ≡ true
unfolding starts_with
starts_with-append [] s = refl
starts_with-append (d ∷ n) s = ground (arith, starts_with-append n s)

starts_with_sound : (s n : Bytes) → starts_with s n ≡ true → (after : Bytes) × (s ≡ n ++ after)
unfolding starts_with
starts_with_sound s [] h = (s, refl)
starts_with_sound [] (d ∷ n) h = cc
starts_with_sound (c ∷ s) (d ∷ n) h =
    let (after, e) = starts_with_sound s n (ground arith) in (after, ground arith)

contains_sound : (s n : Bytes) → contains s n ≡ true → IsInfix n s
unfolding contains
contains_sound [] n h = let (after, e) = starts_with_sound [] n (ground arith) in ([], after, e)
contains_sound (c ∷ s) n h = elim (Bool-cases (starts_with (c ∷ s) n)) [
  | inl p ↦ let (after, e) = starts_with_sound (c ∷ s) n p in ([], after, e)
  | inr p ↦
      let (before, after, e) = contains_sound s n (ground arith) in
      (c ∷ before, after, ap (λ t. c ∷ t) e)
]

contains-append : (before n after : Bytes) → contains (before ++ (n ++ after)) n ≡ true
unfolding contains
contains-append [] [] [] = refl
contains-append [] [] (c ∷ after) = refl
contains-append [] (d ∷ n) after = ground (arith, starts_with-append (d ∷ n) after)
contains-append (c ∷ before) n after = ground (arith, contains-append before n after)

-- `find` succeeds exactly on the texts that hold the needle.
pub contains_iff : (s n : Bytes) → (contains s n ≡ true) ↔ IsInfix n s
contains_iff s n = (contains_sound s n, λ (before, after, e). rw e (contains-append before n after))

-- A text does not hold the needle exactly if `find` says `npos`.
pub not_contains_iff : (s n : Bytes) → (contains s n ≡ false) ↔ (¬ IsInfix n s)
not_contains_iff s n = (
  λ e i. cc ((contains_iff s n).1 i),
  λ absent. elim (Bool-cases (contains s n)) [
    | inl there ↦ absurd (absent ((contains_iff s n).0 there))
    | inr gone ↦ gone
  ],
)

rfind_absent : (d : ℕ) (s : Bytes) → All (λ c. c ≢ d) s → rfind s (d ∷ []) ≡ none
unfolding rfind
rfind_absent d [] h = refl
rfind_absent d (c ∷ s) h = ground (arith, rfind_absent d s h.1)

rfind_last :
    (d : ℕ) (stem rest : Bytes)
    → All (λ c. c ≢ d) rest
    → rfind (stem ++ d ∷ rest) (d ∷ []) ≡ some (length stem)
unfolding rfind
rfind_last d [] rest h = ground (arith, rfind_absent d rest h)
rfind_last d (c ∷ stem) rest h = ground (arith, rfind_last d stem rest h)

-- Cutting at the last separator leaves what stands before it.
pub substr-rfind :
    (d : ℕ) (stem rest : Bytes)
    → All (λ c. c ≢ d) rest
    → substr (stem ++ d ∷ rest) (rfind (stem ++ d ∷ rest) (d ∷ [])) ≡ stem
unfolding substr
substr-rfind d stem rest h = rw (rfind_last d stem rest h) (take-append_length stem (d ∷ rest))

-- A text without the separator is left whole.
pub substr-rfind_absent : (d : ℕ) (s : Bytes) → All (λ c. c ≢ d) s → substr s (rfind s (d ∷ [])) ≡ s
unfolding substr
substr-rfind_absent d s h = rw (rfind_absent d s h)

find_first :
    (d : ℕ) (n stem rest : Bytes)
    → All (λ c. c ≢ d) stem
    → find (stem ++ (d ∷ n ++ rest)) (d ∷ n) ≡ some (length stem)
unfolding find
find_first d n [] rest h = ground (arith, starts_with-append (d ∷ n) rest)
find_first d n (c ∷ stem) rest h = ground (arith, find_first d n stem rest h.1)

-- Cutting at the first occurrence of a suffix leaves what stands before it, if that does not
-- hold the suffix's first byte.
pub substr-find :
    (d : ℕ) (n stem rest : Bytes)
    → All (λ c. c ≢ d) stem
    → substr (stem ++ (d ∷ n ++ rest)) (find (stem ++ (d ∷ n ++ rest)) (d ∷ n)) ≡ stem
unfolding substr
substr-find d n stem rest h =
    rw (find_first d n stem rest h) (take-append_length stem (d ∷ n ++ rest))

-- `same` decides equality.
pub same_iff : (s t : Bytes) → (same s t ≡ true) ↔ (s ≡ t)
unfolding same
same_iff [] [] = (λ e. refl, λ e. refl)
same_iff [] (d ∷ t) = (λ e. cc, λ e. cc)
same_iff (c ∷ s) [] = (λ e. cc, λ e. cc)
same_iff (c ∷ s) (d ∷ t) =
    (λ e. ground (arith, (same_iff s t).0), λ e. ground (arith, (same_iff s t).1))
