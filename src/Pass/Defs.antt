-- ===== src/Pass/Defs.antt =====
-- What the two versions of the pass share: the members of `struct HelloWorld`, the calls of a
-- probe, and the ways to get at the address of a lock.
use Prim.Native.String.{String}
use atomicity_violation.Base.{
  ℕ, ◌+◌, ◌-◌, ◌%◌, ◌^◌, none, some, List, [], ◌∷◌, Bytes, codes, ltb, if◌then◌else◌,
}
use atomicity_violation.Base.Result.{Result, ok, bind, no_operand, not_pointer, need, pure, ◌>>=◌}
use atomicity_violation.Llvm.{Llvm}
use atomicity_violation.Llvm.Builder
use atomicity_violation.Llvm.Builder.{Builder, Build}

-- What the handler of one instruction does to its block: it inserts instructions before and after
-- the instruction and goes on, or leaves the loop over the block.
pub data Action (L : Llvm) : Type 0 where
  next : (before after : List L.Inst) → L.World → Action L
  leave : Action L

-- The members that `initialization` sets.
pub record Hooks (L : Llvm) : Type 0 where
  pub int_ty : L.Ty
  pub ptr_ty : L.Ty
  pub void_ty : L.Ty
  pub bool_ty : L.Ty
  pub p_init : L.Callee
  pub p_probe : L.Callee
  pub p_probe_lock : L.Callee

-- `int loc = getLine()` as the 64-bit argument of `ConstantInt::get`: the 32-bit line number is
-- read as signed, and its sign is extended.
unfoldable pub line_operand : ℕ → ℕ
line_operand line = let l = line % 2 ^ 32 in if ltb l (2 ^ 31) then l else l + (2 ^ 64 - 2 ^ 32)

module _ {L : Llvm} where
  -- A handler that inserts before the instruction, and one that inserts after it.
  abbrev pub before : Build L (Unit {0}) → L.World → Result (Action L)
  before m w =
      bind (m (record { world = w; inserted = [] })) (λ (_, b). ok (next b.inserted [] b.world))

  abbrev pub after : Build L (Unit {0}) → L.World → Result (Action L)
  after m w =
      bind (m (record { world = w; inserted = [] })) (λ (_, b). ok (next [] b.inserted b.world))

  module _ (h : Hooks L) (file : Bytes) where
    -- The array `args` and the call of a probe.
    unfoldable pub probe : L.Callee → ℕ → Bytes → L.Value → Build L (Unit {0})
    probe p line op addr = do
      f ← Builder.global_string file
      o ← Builder.global_string op
      Builder.call p (L.constant_int h.int_ty (line_operand line) ∷ f ∷ o ∷ addr ∷ [])

    -- An access to memory, at the address in the given operand.
    unfoldable pub log_access : ℕ → L.Inst → Build L (Unit {0})
    unfolding probe
    log_access n i = elim (L.debug_line i) [
      | none ↦ pure tt
      | some line ↦ do
        var ← need no_operand (L.operand i n)
        addr ← Builder.bitcast var h.ptr_ty
        probe h.p_probe line (L.opcode_name i) addr
    ]

    -- A lock operation whose lock is an argument of the call.
    unfoldable pub log_argument : ℕ → String → L.Inst → ℕ → Build L (Unit {0})
    unfolding probe
    log_argument n op i line = do
      var ← need no_operand (L.arg_operand i n)
      addr ← Builder.bitcast var h.ptr_ty
      probe h.p_probe_lock line (codes op) addr

    -- The value of the guard that the first argument points to.
    abbrev pub load_guard : L.Value → Build L L.Value
    load_guard var = do t ← need not_pointer (L.element_type (L.type_of var)); Builder.load t var

    -- The release of a guard that is itself a reference to the lock.
    unfoldable pub log_guard : String → L.Inst → ℕ → Build L (Unit {0})
    unfolding probe
    log_guard op i line = do
      var ← need no_operand (L.arg_operand i 0)
      guard ← load_guard var
      addr ← Builder.bitcast guard h.ptr_ty
      probe h.p_probe_lock line (codes op) addr

    -- The release of a guard whose first field refers to the lock.
    unfoldable pub log_guard_field : String → L.Inst → ℕ → Build L (Unit {0})
    unfolding probe
    log_guard_field op i line = do
      var ← need no_operand (L.arg_operand i 0)
      guard ← load_guard var
      lock_ptr ← Builder.struct_gep (L.type_of guard) var 0
      t ← need not_pointer (L.element_type (L.type_of lock_ptr))
      lock ← Builder.load t lock_ptr
      addr ← Builder.bitcast lock h.ptr_ty
      probe h.p_probe_lock line (codes op) addr
