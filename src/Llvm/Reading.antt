-- ===== src/Llvm/Reading.antt =====
-- Reading back what the builder has made: the arguments of a call, and what a value stands for.
-- LLVM is not part of the repository, so the readings are parameters, with their documented
-- behaviour.
use atomicity_violation.Base.{ℕ, ◌%◌, ◌^◌, ◌≡◌, Option, none, some, List, [], ◌∷◌, Bytes, codes}
use atomicity_violation.Llvm.{Llvm}

-- Where a value comes from, seen through casts: a value of the program, what a load reads at an
-- address, or the address of a field.
pub data Origin (L : Llvm) : Type 0 where
  given : L.Value → Origin L
  loaded : Origin L → Origin L
  field : ℕ → Origin L → Origin L

pub record Reading (L : Llvm) : Type 0 where
  pub call_arguments : L.Inst → List L.Value  -- the arguments of a call
  pub origin : L.Value → Origin L
  pub text_of : L.Value → Option Bytes  -- the constant string that a pointer points to
  pub number_of : L.Value → Option ℕ  -- a constant, as the bits of its type

-- No function, or one of the type.
abbrev pub IsFree : {A : Type 0} → Option A → A → Type 0
IsFree none t = Unit
IsFree (some t') t = t' ≡ t

pub record IsFaithful (L : Llvm) (R : Reading L) : Type 0 where
  -- a call gets the arguments it is created with
  pub call_arguments :
      (w : L.World) (f : L.Callee) (args : List L.Value)
      → R.call_arguments (L.create_call w f args).0 ≡ args
  -- a constant is cut to the bits of its type
  pub number_of : (n : ℕ) → R.number_of (L.constant_int L.int32_ty n) ≡ some (n % 2 ^ 32)
  pub text_of : (w : L.World) (s : Bytes) → R.text_of (L.create_global_string w s).0 ≡ some s
  pub origin_cast :
      (w : L.World) (v : L.Value) (t : L.Ty) → R.origin (L.create_bitcast w v t).0 ≡ R.origin v
  pub origin_load :
      (w : L.World) (t : L.Ty) (p : L.Value)
      → R.origin (L.create_load w t p).0 ≡ Origin.loaded (R.origin p)
  pub origin_field :
      (w : L.World) (t : L.Ty) (p : L.Value) (n : ℕ)
      → R.origin (L.create_struct_gep w t p n).0 ≡ Origin.field n (R.origin p)
  -- the types of created values
  pub constant_type : (t : L.Ty) (n : ℕ) → L.type_of (L.constant_int t n) ≡ t
  pub text_type :
      (w : L.World) (s : Bytes) → L.type_of (L.create_global_string w s).0 ≡ L.int8_ptr_ty
  pub cast_type : (w : L.World) (v : L.Value) (t : L.Ty) → L.type_of (L.create_bitcast w v t).0 ≡ t
  -- `getOrInsertFunction` gives a function of that name, unless there is one of another type: then
  -- it gives a cast, and a call of it has no called function
  pub function_name :
      (w : L.World) (name : Bytes) (t : L.Ty)
      → IsFree (L.declared w name) t
      → L.callee_name (L.insert_function w name t).0 ≡ some name
  -- the modules that are modelled have no functions of these names and of other types
  pub init_free :
      (w : L.World) → IsFree (L.declared w (codes "_init_")) (L.function_ty L.void_ty [])
  pub probe_free :
      (w : L.World)
      → IsFree (L.declared w (codes "_probe_")) (
          L.function_ty L.void_ty
            (L.int32_ty ∷ (L.int8_ptr_ty ∷ (L.int8_ptr_ty ∷ (L.int8_ptr_ty ∷ [])))))
  pub probe_lock_free :
      (w : L.World)
      → IsFree (L.declared w (codes "_probe_lock_")) (
          L.function_ty L.void_ty
            (L.int32_ty ∷ (L.int8_ptr_ty ∷ (L.int8_ptr_ty ∷ (L.int8_ptr_ty ∷ [])))))
