-- ===== src/Plugin/Laws.antt =====
-- What the plugin changes in LLVM.
use atomicity_violation.Base.{
  ℕ, ◌≡◌, refl, sym, ◌∙◌, ap, Bool-cases, inl, inr, Option, none, some, [], ◌∷◌, ◌++◌, Bytes, codes,
}
use atomicity_violation.Text.{same}
use atomicity_violation.Text.Laws.{same_iff}
use atomicity_violation.Llvm.{Llvm}
use atomicity_violation.Pass.Init.{fresh}
use atomicity_violation.Plugin.{
  PassApi, IsPassApi, if_accepted, or_else, parse_element, get_hello_world_plugin_info,
  llvm_get_pass_plugin_info,
}

-- The builder `pb'` knows what `pb` knows, in the same way, and `hello-world` besides, which adds a
-- pass that is not initialized; what it knows stays the same when it is given the callback again.
pub record IsExtended {L : Llvm} (P : PassApi L) (again : P.Builder → P.Builder)
    (pb pb' : P.Builder) : Type 0 where
  pub keeps :
      (name : Bytes) (fpm fpm' : P.Manager)
      → P.parse pb name fpm ≡ some fpm'
      → P.parse pb' name fpm ≡ some fpm'
  pub accepts :
      (fpm : P.Manager)
      → P.parse pb (codes "hello-world") fpm ≡ none
      → (fpm' : P.Manager) × (P.parse pb' (codes "hello-world") fpm ≡ some fpm')
        × (P.passes fpm' ≡ P.passes fpm ++ (fresh L ∷ []))
  pub rejects :
      (name : Bytes) (fpm : P.Manager)
      → P.parse pb name fpm ≡ none
      → ¬ (name ≡ codes "hello-world")
      → P.parse pb' name fpm ≡ none
  pub once : (name : Bytes) (fpm : P.Manager) → P.parse (again pb') name fpm ≡ P.parse pb' name fpm

module _ {L : Llvm} (P : PassApi L) (law : IsPassApi P) (api_version : ℕ)
    (llvm_version : Bytes) where
  abbrev load : P.Builder → P.Builder
  load = (llvm_get_pass_plugin_info P api_version llvm_version).register_callbacks

  -- What the builder knows when the plugin is loaded.
  parse-load :
      (pb : P.Builder) (name : Bytes) (fpm : P.Manager)
      → P.parse (load pb) name fpm
        ≡ or_else (P.parse pb name fpm) (if_accepted (parse_element P name fpm))
  unfolding llvm_get_pass_plugin_info get_hello_world_plugin_info
  parse-load pb name fpm = law.parse_registered pb (parse_element P) name fpm

  accepted :
      (fpm : P.Manager)
      → if_accepted (parse_element P (codes "hello-world") fpm) ≡ some (P.add_pass fpm (fresh L))
  unfolding parse_element
  accepted fpm = refl

  rejected :
      (name : Bytes) (fpm : P.Manager)
      → ¬ (name ≡ codes "hello-world")
      → if_accepted (parse_element P name fpm) ≡ none
  unfolding parse_element
  rejected name fpm ne = elim (Bool-cases (same name (codes "hello-world"))) [
    | inl s ↦ absurd (ne ((same_iff name (codes "hello-world")).0 s))
    | inr d ↦ rw d refl
  ]

  or_else_same : {A : Type 0} (o o' : Option A) → or_else (or_else o o') o' ≡ or_else o o'
  or_else_same (some a) o' = refl
  or_else_same none none = refl
  or_else_same none (some a) = refl

  -- If LLVM behaves as documented, the callback that the plugin registers leaves all names as they
  -- were that the builder knew before; it makes `hello-world` known, if it was not, and this name
  -- appends one pass, which is not initialized, to the passes of the manager; every other name that
  -- was not known is not known still; and to register it once more changes nothing.
  pub load-IsExtended : (pb : P.Builder) → IsExtended P load pb (load pb)
  load-IsExtended pb = record {
    keeps = λ name fpm fpm' e. parse-load pb name fpm ∙ rw e refl;
    accepts = λ fpm e. (
      P.add_pass fpm (fresh L),
      parse-load pb (codes "hello-world") fpm ∙ rw e (accepted fpm),
      law.passes_add fpm (fresh L),
    );
    rejects = λ name fpm e ne. parse-load pb name fpm ∙ rw e (rejected name fpm ne);
    once = λ name fpm.
        parse-load (load pb) name fpm
        ∙ ap (λ o. or_else o (if_accepted (parse_element P name fpm))) (parse-load pb name fpm)
        ∙ or_else_same (P.parse pb name fpm) (if_accepted (parse_element P name fpm))
        ∙ sym (parse-load pb name fpm);
  }
