-- ===== src/Pass/Init.antt =====
-- The state of the pass and `initialization`: lines 470 to 496 of HelloWorld/HelloWorld.cpp, and
-- 173 to 199 of HelloWorld/function.cpp, which add a line of output. The module is a list of
-- functions, each a list of blocks.
pub mod Laws
use mathlib.Core.Bool.{decide}
use atomicity_violation.Base.{
  ℕ, Bool, true, false, Option, none, some, List, [], ◌∷◌, ◌++◌, Bytes, codes, if◌then◌else◌,
}
use atomicity_violation.Base.Result.{Result, ok, fault, bind, no_entry}
use atomicity_violation.Text.{same}
use atomicity_violation.Llvm.{Llvm, Metadata}
use atomicity_violation.Pass.Defs.{Hooks}

pub record Function (L : Llvm) : Type 0 where
  pub name : Bytes
  pub metadata : List Metadata
  pub blocks : List (List L.Inst)

pub record Module (L : Llvm) : Type 0 where
  pub name : Bytes
  pub functions : List (Function L)
  pub world : L.World

-- `struct HelloWorld`. The types and callees hold no value before `initialization`.
pub record State (L : Llvm) : Type 0 where
  pub initial : Bool
  pub hooks : Option (Hooks L)

abbrev pub fresh : (L : Llvm) → State L
fresh L = record { initial = false; hooks = none }

module _ (L : Llvm) where
  -- The type of `_init_`, and that of the probes.
  abbrev pub init_type : L.Ty
  init_type = L.function_ty L.void_ty []

  abbrev pub probe_type : L.Ty
  probe_type =
      L.function_ty L.void_ty (L.int32_ty ∷ L.int8_ptr_ty ∷ L.int8_ptr_ty ∷ L.int8_ptr_ty ∷ [])

  -- The call stands before the first instruction that is no PHI node.
  unfoldable pub insert_at_entry : L.Inst → List L.Inst → Result (List L.Inst)
  insert_at_entry new [] = fault no_entry
  insert_at_entry new (i ∷ rest) =
      let later = bind (insert_at_entry new rest) (λ rest'. ok (i ∷ rest')) in
      if L.is_phi i then later else ok (new ∷ (i ∷ rest))

module _ {L : Llvm} where
  -- The function with the call in its entry block.
  unfoldable pub call_at_entry : L.Inst → Function L → Result (Function L)
  unfolding insert_at_entry
  call_at_entry new f = elim f.blocks [
    | [] ↦ fault no_entry
    | entry ∷ blocks ↦
        bind (insert_at_entry L new entry) (λ entry'. ok (record f { blocks = entry' ∷ blocks }))
  ]

  -- The call of `_init_` in the first function called `main`; a module without one is left.
  unfoldable pub call_in_main : L.Inst → List (Function L) → Result (List (Function L))
  unfolding call_at_entry same
  call_in_main new [] = ok []
  call_in_main new (f ∷ fs) =
      let later = bind (call_in_main new fs) (λ fs'. ok (f ∷ fs')) in
      if same f.name (codes "main") then bind (call_at_entry new f) (λ f'. ok (f' ∷ fs)) else later

  -- Whether the module has a function called `main`.
  unfoldable pub has_main : List (Function L) → Bool
  unfolding same
  has_main [] = false
  has_main (f ∷ fs) = if same f.name (codes "main") then true else has_main fs

  unfoldable pub initialization : Module L → Result (Hooks L × Module L)
  unfolding call_in_main has_main
  initialization m =
      let (p_init, w₁) = L.insert_function m.world (codes "_init_") (init_type L) in
      let (p_probe, w₂) = L.insert_function w₁ (codes "_probe_") (probe_type L) in
      let (p_probe_lock, w₃) = L.insert_function w₂ (codes "_probe_lock_") (probe_type L) in
      let hooks : Hooks L = record {
        int_ty = L.int32_ty;
        ptr_ty = L.int8_ptr_ty;
        void_ty = L.void_ty;
        bool_ty = L.int1_ty;
        p_init = p_init;
        p_probe = p_probe;
        p_probe_lock = p_probe_lock;
      } in
      let (new, w₄) = L.create_call w₃ p_init [] in
      let called =
        bind (call_in_main new m.functions)
          (λ fs. ok (hooks, record m { functions = fs; world = w₄ })) in
      if has_main m.functions then called else ok (hooks, record m { world = w₃ })
