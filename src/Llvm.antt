-- ===== src/Llvm.antt =====
-- What the passes use of LLVM, which is not part of the repository: an interface whose types and
-- operations are parameters of the model, and the documented behaviour that the proofs rely on.
pub mod Builder
pub mod Reading
use atomicity_violation.Base.{
  ℕ, suc, ◌≤◌, ◌≡◌, Bool, true, false, Option, none, some, List, [], ◌∷◌, Bytes, length, All,
}

-- `Instruction::getOpcode()`, as far as the passes tell opcodes apart.
pub data Opcode : Type 0 where
  store load invoke call other : Opcode

-- The values that `getAllMetadata` lists: a null node, a `DISubprogram`, or another node.
pub data Metadata : Type 0 where
  null_node other_node : Metadata
  subprogram : (filename directory : Bytes) → Metadata

pub record Llvm : Type 1 where
  pub World : Type 0  -- the context and the module, without the instructions of its blocks
  pub Ty : Type 0
  pub Value : Type 0
  pub Inst : Type 0
  pub Callee : Type 0
  -- reading an instruction; a null or missing result is `none`
  pub opcode : Inst → Opcode
  pub opcode_name : Inst → Bytes
  pub is_phi : Inst → Bool
  pub debug_line : Inst → Option ℕ
  pub operand : Inst → ℕ → Option Value
  pub arg_operand : Inst → ℕ → Option Value
  pub called_function : Inst → Option Bytes
  -- types and constants
  pub int1_ty : Ty
  pub int32_ty : Ty
  pub int8_ptr_ty : Ty
  pub void_ty : Ty
  pub function_ty : Ty → List Ty → Ty
  pub type_of : Value → Ty
  pub element_type : Ty → Option Ty
  -- whether a bit cast from the one type to the other is valid, and the type of a field of a struct
  pub is_castable : Ty → Ty → Bool
  pub field_type : Ty → ℕ → Option Ty
  pub constant_int : Ty → ℕ → Value
  -- what changes the module: `getOrInsertFunction` and the builder's `Create…`, with the
  -- instructions that a builder call inserts where they may be none (a folded constant)
  pub insert_function : World → Bytes → Ty → Callee × World
  pub create_global_string : World → Bytes → Value × World
  pub create_bitcast : World → Value → Ty → Value × List Inst × World
  pub create_struct_gep : World → Ty → Value → ℕ → Value × List Inst × World
  pub create_load : World → Ty → Value → Value × Inst × World
  pub create_call : World → Callee → List Value → Inst × World
  -- the type of the module's function of a name, if it has one
  pub declared : World → Bytes → Option Ty
  -- the name of the function that a call through the callee calls, if it is direct
  pub callee_name : Callee → Option Bytes

pub record IsLawful (L : Llvm) : Type 0 where
  -- a bit cast is one instruction of its own opcode, or folded away
  pub bitcast_length :
      (w : L.World) (v : L.Value) (t : L.Ty) → length (L.create_bitcast w v t).1 ≤ 1
  pub bitcast_opcode :
      (w : L.World) (v : L.Value) (t : L.Ty)
      → All (λ i. L.opcode i ≡ other) (L.create_bitcast w v t).1
  -- a field's address is computed by at most one instruction, which is no call
  pub struct_gep_length :
      (w : L.World) (t : L.Ty) (v : L.Value) (n : ℕ) → length (L.create_struct_gep w t v n).1 ≤ 1
  pub struct_gep_opcode :
      (w : L.World) (t : L.Ty) (v : L.Value) (n : ℕ)
      → All (λ i. L.opcode i ≡ other) (L.create_struct_gep w t v n).1
  -- a created load has the opcode `Load`
  pub load_opcode : (w : L.World) (t : L.Ty) (p : L.Value) → L.opcode (L.create_load w t p).1 ≡ load
  -- a created call has the opcode `Call` and calls the function of its callee
  pub call_opcode :
      (w : L.World) (f : L.Callee) (args : List L.Value)
      → L.opcode (L.create_call w f args).0 ≡ call
  pub call_function :
      (w : L.World) (f : L.Callee) (args : List L.Value)
      → L.called_function (L.create_call w f args).0 ≡ L.callee_name f
