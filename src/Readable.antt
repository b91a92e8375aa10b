-- ===== src/Readable.antt =====
-- When a pass finds all operands that it reads.
pub mod Builds
pub mod Blocks
use atomicity_violation.Base.{
  ℕ, Bool, true, false, Option, none, some, List, [], ◌∷◌, All, Bytes, ◌≡◌,
}
use atomicity_violation.Text.{mentions}
use atomicity_violation.Llvm.{Llvm, Opcode, store, load, invoke, call, other}
use atomicity_violation.Events.Due.{Place, argument, guard, guard_field, Rule}

-- The first that the test decides for.
abbrev pub Choose : Bool → Type 0 → Type 0 → Type 0
Choose true A B = A
Choose false A B = B

-- The types of what the builder creates: a load has the type that is loaded, and the address of a
-- field that the struct has points to the field's type.
pub record IsAddressing (L : Llvm) : Type 0 where
  pub load_type : (w : L.World) (t : L.Ty) (p : L.Value) → L.type_of (L.create_load w t p).0 ≡ t
  pub field_pointer :
      (w : L.World) (t : L.Ty) (v : L.Value) (n : ℕ) (f : L.Ty)
      → L.field_type t n ≡ some f
      → L.element_type (L.type_of (L.create_struct_gep w t v n).0) ≡ some f

-- The value is there, and has the property.
abbrev pub Has : {A : Type 0} → (A → Type 0) → Option A → Type 0
Has P none = ⊥
Has P (some a) = P a

module _ (L : Llvm) where
  -- A type that can be cast to `i8 *`.
  abbrev pub Castable : L.Ty → Type 0
  Castable t = L.is_castable t L.int8_ptr_ty ≡ true

  abbrev pub CastableValue : L.Value → Type 0
  CastableValue v = Castable (L.type_of v)

  -- A pointer to a guard that can be cast.
  abbrev pub IsGuard : L.Value → Type 0
  IsGuard v = Has Castable (L.element_type (L.type_of v))

  -- A pointer to a struct whose first field can be cast.
  abbrev pub IsStructGuard : L.Value → Type 0
  IsStructGuard v = Has (λ t. Has Castable (L.field_type t 0)) (L.element_type (L.type_of v))

  abbrev pub HasPlace : Place → L.Inst → Type 0
  HasPlace (argument n) i = Has CastableValue (L.arg_operand i n)
  HasPlace guard i = Has IsGuard (L.arg_operand i 0)
  HasPlace guard_field i = Has IsStructGuard (L.arg_operand i 0)

  -- The first rule whose pattern stands in the name decides.
  abbrev pub HasLock : List Rule → Bytes → L.Inst → Type 0
  HasLock [] name i = Unit
  HasLock (r ∷ rs) name i =
      Choose (mentions name r.pattern) (HasPlace r.place i) (HasLock rs name i)

  abbrev pub HasCallee : List Rule → Option Bytes → L.Inst → Type 0
  HasCallee rs none i = ⊥
  HasCallee rs (some name) i = HasLock rs name i

  -- What a call has, by the rules for calls if the pass reads calls.
  abbrev HasCall : Option (List Rule) → L.Inst → Type 0
  HasCall none i = Unit
  HasCall (some rs) i = HasCallee rs (L.called_function i) i

  -- A store has its address, which can be cast, a load too, and an invoke a called function, and
  -- its lock if it is a lock operation.
  abbrev pub HasOperands : List Rule → Option (List Rule) → Opcode → L.Inst → Type 0
  HasOperands of_invoke of_call store i = Has CastableValue (L.operand i 1)
  HasOperands of_invoke of_call load i = Has CastableValue (L.operand i 0)
  HasOperands of_invoke of_call invoke i = HasCallee of_invoke (L.called_function i) i
  HasOperands of_invoke of_call call i = HasCall of_call i
  HasOperands of_invoke of_call other i = Unit

  -- An instruction without a line of the source is not read.
  abbrev pub IfKnown : Option ℕ → Type 0 → Type 0
  IfKnown none A = Unit
  IfKnown (some line) A = A

  abbrev pub IsReadableBy : List Rule → Option (List Rule) → L.Inst → Type 0
  IsReadableBy of_invoke of_call i =
      IfKnown (L.debug_line i) (HasOperands of_invoke of_call (L.opcode i) i)
