-- ===== src/Tests/Sample.antt =====
-- A small LLVM, in which a value is its type and a number, and a small module.
use atomicity_violation.Base.{
  ◌%◌, ◌^◌, ℕ, suc, arith, refl, Bool, Option, none, some, List, [], ◌∷◌, Bytes, codes, get_elem?,
}
use atomicity_violation.Llvm.{
  Llvm, IsLawful, Opcode, store, load, invoke, call, other, null_node, subprogram,
}
use atomicity_violation.Llvm.Reading.{Origin, given, loaded, field, Reading, IsFaithful}
use atomicity_violation.Pass.{Hooks}
use atomicity_violation.Pass.Init.{Function, Module, State}

pub data Ty : Type 0 where
  number : ℕ → Ty
  nothing function : Ty
  pointer struct : Ty → Ty

-- What a value was made from.
pub data Source : Type 0 where
  known : ℕ → Source
  read_at : Source → Source
  part : ℕ → Source → Source

pub record Value : Type 0 where
  pub ty : Ty
  pub id : ℕ
  pub text : Option Bytes
  pub source : Source

abbrev pub value : Ty → ℕ → Value
value t n = record { ty = t; id = n; text = none; source = known n }

pub record Inst : Type 0 where
  pub op : Opcode
  pub line : Option ℕ
  pub operands : List Value
  pub callee : Option Bytes

abbrev pub opcode_name : Inst → Bytes
opcode_name i = elim i.op [
  | store ↦ codes "store"
  | load ↦ codes "load"
  | invoke ↦ codes "invoke"
  | call ↦ codes "call"
  | other ↦ codes "bitcast"
]

abbrev pub element_type : Ty → Option Ty
element_type (pointer t) = some t
element_type _ = none

-- Pointers can be cast to each other.
abbrev pub is_castable : Ty → Ty → Bool
is_castable (pointer s) (pointer t) = Bool.true
is_castable _ _ = Bool.false

-- A struct of the sample has fields of one type.
abbrev pub field_type : Ty → ℕ → Option Ty
field_type (struct t) n = some t
field_type _ n = none

-- The pointer to a field.
abbrev pub field_pointer : Ty → ℕ → Ty
field_pointer t n = elim (field_type t n) [ some f ↦ pointer f | none ↦ nothing ]

abbrev pub plain : Opcode → List Value → Inst
plain op vs = record { op = op; line = none; operands = vs; callee = none }

-- A PHI node of the sample has no operands.
abbrev pub is_phi : Inst → Bool
is_phi i = elim i.op [
  | other ↦ elim i.operands [ [] ↦ Bool.true | v ∷ vs ↦ Bool.false ]
  | store ↦ Bool.false
  | load ↦ Bool.false
  | invoke ↦ Bool.false
  | call ↦ Bool.false
]

abbrev pub small : Llvm
small = record {
  World = ℕ;
  Ty = Ty;
  Value = Value;
  Inst = Inst;
  Callee = Bytes;
  opcode = λ i. i.op;
  opcode_name = opcode_name;
  is_phi = is_phi;
  debug_line = λ i. i.line;
  operand = λ i n. get_elem? i.operands n;
  arg_operand = λ i n. get_elem? i.operands n;
  called_function = λ i. i.callee;
  int1_ty = number 1;
  int32_ty = number 32;
  int8_ptr_ty = pointer (number 8);
  void_ty = nothing;
  function_ty = λ r args. function;
  type_of = λ v. v.ty;
  element_type = element_type;
  is_castable = is_castable;
  field_type = field_type;
  constant_int = value;
  insert_function = λ w name t. (name, w);
  create_global_string = λ w s. (record (value (pointer (number 8)) w) { text = some s }, suc w);
  create_bitcast =
      λ w v t. (record (value t w) { source = v.source }, plain other (v ∷ []) ∷ [], suc w);
  create_struct_gep = λ w t v n. (
    record (value (field_pointer t n) w) { source = part n v.source },
    plain other (v ∷ []) ∷ [],
    suc w,
  );
  create_load =
      λ w t p. (record (value t w) { source = read_at p.source }, plain load (p ∷ []), suc w);
  create_call =
      λ w f args. (record { op = call; line = none; operands = args; callee = some f }, suc w);
  declared = λ w name. none;
  callee_name = λ f. some f;
}

pub small-IsLawful : IsLawful small
small-IsLawful = record {
  bitcast_length = λ w v t. omega arith;
  bitcast_opcode = λ w v t. (refl, tt);
  struct_gep_length = λ w t v n. omega arith;
  struct_gep_opcode = λ w t v n. (refl, tt);
  load_opcode = λ w t p. refl;
  call_opcode = λ w f args. refl;
  call_function = λ w f args. refl;
}

abbrev pub origin_of : Source → Origin small
origin_of (known n) = given (value nothing n)
origin_of (read_at s) = loaded (origin_of s)
origin_of (part n s) = field n (origin_of s)

abbrev pub readings : Reading small
readings = record {
  call_arguments = λ i. i.operands;
  origin = λ v. origin_of v.source;
  text_of = λ v. v.text;
  number_of = λ v. some (v.id % 2 ^ 32);
}

pub readings-IsFaithful : IsFaithful small readings
readings-IsFaithful = record {
  call_arguments = λ w f args. refl;
  number_of = λ n. refl;
  text_of = λ w s. refl;
  origin_cast = λ w v t. refl;
  origin_load = λ w t p. refl;
  origin_field = λ w t p n. refl;
  constant_type = λ t n. refl;
  text_type = λ w s. refl;
  cast_type = λ w v t. refl;
  function_name = λ w name t free. refl;
  init_free = λ w. tt;
  probe_free = λ w. tt;
  probe_lock_free = λ w. tt;
}

abbrev pub hooks : Hooks small
hooks = record {
  int_ty = number 32;
  ptr_ty = pointer (number 8);
  void_ty = nothing;
  bool_ty = number 1;
  p_init = codes "_init_";
  p_probe = codes "_probe_";
  p_probe_lock = codes "_probe_lock_";
}

abbrev pub flag : Value
flag = value (pointer (struct (pointer (number 8)))) 100

abbrev pub traced_store : Inst
traced_store = record {
  op = store;
  line = some 7;
  operands = value (number 8) 1 ∷ (flag ∷ []);
  callee = none;
}

abbrev pub traced_load : Inst
traced_load = record { op = load; line = some 8; operands = flag ∷ []; callee = none }

abbrev pub invoke_of : Bytes → Inst
invoke_of name = record {
  op = invoke;
  line = some 9;
  operands = flag ∷ (flag ∷ []);
  callee = some name;
}

abbrev pub atomic_call : Inst
atomic_call = record {
  op = call;
  line = some 10;
  operands = flag ∷ [];
  callee = some (codes "_ZN4core4sync6atomic10AtomicBool4load");
}

-- A call through a pointer.
abbrev pub indirect_invoke : Inst
indirect_invoke = record { op = invoke; line = some 11; operands = flag ∷ []; callee = none }

abbrev pub front : List Inst
front =
    traced_store
    ∷ (traced_load ∷ (invoke_of (codes "_ZN3std4sync5mutex14Mutex$LT$T$GT$4lock17h") ∷ []))

abbrev pub main_function : Function small
main_function = record {
  name = codes "main";
  metadata = null_node ∷ (subprogram (codes "main.rs") (codes "/home/user/app") ∷ []);
  blocks = front ∷ [];
}

abbrev pub small_module : Module small
small_module = record { name = codes "app-1f2e"; functions = main_function ∷ []; world = 0 }

abbrev pub later : State small
later = record { initial = Bool.true; hooks = some hooks }
