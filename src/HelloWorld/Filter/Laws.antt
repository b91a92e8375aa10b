-- ===== src/HelloWorld/Filter/Laws.antt =====
-- The filter in terms of what the names hold.
use atomicity_violation.Base.{
  ◌≡◌, ◌≢◌, ◌↔◌, refl, true, false, [], ◌∷◌, ◌++◌, Bytes, codes, arith, All, length, ◌==◌,
}
use atomicity_violation.Text.{mentions}
use atomicity_violation.Text.Laws.{IsInfix, contains_iff, not_contains_iff, substr-rfind}
use atomicity_violation.HelloWorld.Filter.{is_skipped, module_stem}

-- The functions that the pass is meant for.
pub record IsTarget (fname filename directory : Bytes) : Type 0 where
  pub of_module : IsInfix filename fname
  pub not_core : ¬ IsInfix (codes "core") fname
  pub not_std : ¬ IsInfix (codes "std") fname
  pub located : directory ≢ []
  pub not_cargo : ¬ IsInfix (codes "cargo") directory

length_zero : (s : Bytes) → s ≡ [] → (length s == 0) ≡ true
length_zero s e = rw e

length_pos : (s : Bytes) → s ≢ [] → (length s == 0) ≡ false
length_pos [] h = absurd (h refl)
length_pos (c ∷ s) h = ground arith

-- A function is worked on exactly if its name holds the stem of the module's name and neither
-- `core` nor `std`, and its directory is known and does not hold `cargo`.
pub is_skipped_iff :
    (fname filename directory : Bytes)
    → (is_skipped fname filename directory ≡ false) ↔ IsTarget fname filename directory
unfolding is_skipped mentions
is_skipped_iff fname filename directory = (
  λ e. record {
    of_module = (contains_iff fname filename).0 (ground arith);
    not_core = (not_contains_iff fname (codes "core")).0 (ground arith);
    not_std = (not_contains_iff fname (codes "std")).0 (ground arith);
    located = λ empty. cc (length_zero directory empty, located e);
    not_cargo = (not_contains_iff directory (codes "cargo")).0 (ground arith);
  },
  λ t. ground (
    arith,
    (contains_iff fname filename).1 t.of_module,
    (not_contains_iff fname (codes "core")).1 t.not_core,
    (not_contains_iff fname (codes "std")).1 t.not_std,
    length_pos directory t.located,
    (not_contains_iff directory (codes "cargo")).1 t.not_cargo,
  ),
)
  where
    located : is_skipped fname filename directory ≡ false → (length directory == 0) ≡ false
    located e = ground arith

-- The stem of `stem-hash` is `stem`, if the hash holds no dash.
pub module_stem_dash :
    (stem hash : Bytes) → All (λ c. c ≢ b'-') hash → module_stem (stem ++ b'-' ∷ hash) ≡ stem
unfolding module_stem
module_stem_dash stem hash h = substr-rfind b'-' stem hash h
