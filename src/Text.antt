-- ===== src/Text.antt =====
-- `std::string` as the passes use it: `find`, `rfind` and `substr` from the front.
-- A result of `npos` is `none`.
pub mod Laws
use Prim.Native.String.{String}
use mathlib.Core.Option
use atomicity_violation.Base.{
  ℕ, zero, suc, Bool, true, false, ◌&&◌, Option, none, some, List, [], ◌∷◌, Bytes, codes, take,
  ◌==◌, if◌then◌else◌,
}

-- Whether the text begins with the needle.
unfoldable pub starts_with : Bytes → Bytes → Bool
starts_with s [] = true
starts_with [] (d ∷ n) = false
starts_with (c ∷ s) (d ∷ n) = c == d && starts_with s n

-- `s.find(n)`: the first position at which `n` occurs.
unfoldable pub find : Bytes → Bytes → Option ℕ
unfolding starts_with
find [] n = if starts_with [] n then some 0 else none
find (c ∷ s) n = if starts_with (c ∷ s) n then some 0 else Option.map suc (find s n)

-- `s.rfind(n)`: the last position at which `n` occurs.
unfoldable pub rfind : Bytes → Bytes → Option ℕ
unfolding starts_with
rfind [] n = if starts_with [] n then some 0 else none
rfind (c ∷ s) n = elim (rfind s n) [
  | some i ↦ some (suc i)
  | none ↦ if starts_with (c ∷ s) n then some 0 else none
]

-- `s.find(n) != npos`
unfoldable pub contains : Bytes → Bytes → Bool
unfolding find
contains s n = elim (find s n) [ none ↦ false | some _ ↦ true ]

-- `s.substr(0, pos)`
unfoldable pub substr : Bytes → Option ℕ → Bytes
substr s none = s
substr s (some i) = take i s

-- `s.find("literal") != npos`
unfoldable pub mentions : Bytes → String → Bool
unfolding contains
mentions s n = contains s (codes n)

-- Whether two texts are equal.
unfoldable pub same : Bytes → Bytes → Bool
same [] [] = true
same (c ∷ s) (d ∷ t) = c == d && same s t
same _ _ = false
