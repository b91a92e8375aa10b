-- ===== src/Pass/Calls.antt =====
-- How many calls a builder inserts.
use Prim.Native.String.{String}
use atomicity_violation.Base.{
  ℕ, Bool, true, false, ◌||◌, if◌then◌else◌, ◌+◌, ◌≡◌, refl, Option, none, some, List, [], ◌∷◌,
  ◌++◌, arith, Bytes, All, codes,
}
use atomicity_violation.Base.Result.{
  bad_cast, no_field, Fault, Result, ok, fault, no_operand, not_pointer, pure, need, bind, ◌>>=◌,
}
use atomicity_violation.Llvm.{Llvm, IsLawful, Opcode, call, other}
use atomicity_violation.Llvm.Builder
use atomicity_violation.Llvm.Builder.{test, Builder, Build}
use atomicity_violation.Pass.Defs.{
  Hooks, line_operand, probe, log_access, log_argument, load_guard, log_guard, log_guard_field,
}

abbrev pub one_if_call : Opcode → ℕ
one_if_call call = 1
one_if_call _ = 0

abbrev pub calls : (L : Llvm) → List L.Inst → ℕ
calls L [] = 0
calls L (i ∷ is) = one_if_call (L.opcode i) + calls L is

pub calls-append : (L : Llvm) (xs ys : List L.Inst) → calls L (xs ++ ys) ≡ calls L xs + calls L ys
calls-append L [] ys = omega arith
calls-append L (x ∷ xs) ys = omega (arith, calls-append L xs ys)

calls-other : (L : Llvm) (xs : List L.Inst) → All (λ i. L.opcode i ≡ other) xs → calls L xs ≡ 0
calls-other L [] h = refl
calls-other L (x ∷ xs) h = rw h.0 (omega (arith, calls-other L xs h.1))

abbrev pub IsOperandFault : Fault → Type 0
IsOperandFault no_operand = Unit
IsOperandFault not_pointer = Unit
IsOperandFault bad_cast = Unit
IsOperandFault no_field = Unit
IsOperandFault _ = ⊥

module _ {L : Llvm} where
  -- A result of a builder computation: a fault of an operand, or `n` more calls.
  abbrev pub Post : {A : Type 0} → ℕ → Builder L → Result (A × Builder L) → Type 0
  Post n b (ok (a, b')) = calls L b'.inserted ≡ calls L b.inserted + n
  Post n b (fault e) = IsOperandFault e

  pub record Adds {A : Type 0} (n : ℕ) (m : Build L A) : Type 0 where
    pub each : (b : Builder L) → Post n b (m b)

  pub Adds-pure : {A : Type 0} (a : A) → Adds 0 (pure {S = Builder L} a)
  Adds-pure a = record { each = λ b. omega arith }

  pub Adds-need :
      {A : Type 0} (e : Fault) (o : Option A) → IsOperandFault e → Adds 0 (need {S = Builder L} e o)
  Adds-need e none q = record { each = λ b. q }
  Adds-need e (some a) q = record { each = λ b. omega arith }

  Post-bind :
      {A B : Type 0} (n : ℕ) (b : Builder L) (r : Result (A × Builder L)) (f : A → Build L B)
      → Post 0 b r
      → ((a : A) → Adds n (f a))
      → Post n b (bind r (λ (a, b'). f a b'))
  Post-bind n b (fault e) f h k = h
  Post-bind {B} n b (ok (a, b')) f h k = go (f a b') ((k a).each b')
    where
      go : (q : Result (B × Builder L)) → Post n b' q → Post n b q
      go (ok (c, b'')) p = omega arith
      go (fault e) p = p

  -- A step that inserts no call, then one that inserts `n`.
  pub Adds-bind :
      {A B : Type 0} (n : ℕ) (m : Build L A) (f : A → Build L B)
      → Adds 0 m
      → ((a : A) → Adds n (f a))
      → Adds n (m >>= f)
  Adds-bind n m f h k = record { each = λ b. Post-bind n b (m b) f (h.each b) k }

  -- A test before a computation that inserts a call, or else another test.
  pub Adds-if :
      {A : Type 0} (c rest : Bool) {m m' : Build L A}
      → Adds 1 m
      → Adds (if rest then 1 else 0) m'
      → Adds (if c || rest then 1 else 0) (if c then m else m')
  Adds-if true rest p q = p
  Adds-if false rest p q = q

  Adds-global_string : (s : Bytes) → Adds 0 (Builder.global_string {L = L} s)
  Adds-global_string s = record { each = λ b. omega arith }

  module _ (law : IsLawful L) where
    Adds-call : (f : L.Callee) (args : List L.Value) → Adds 1 (Builder.call f args)
    Adds-call f args = record { each = λ b. rw calls-append (rw law.call_opcode refl) }

    Adds-cast : (v : L.Value) (t : L.Ty) → Adds 0 (Builder.cast {L = L} v t)
    Adds-cast v t = record {
      each = λ b.
          let quiet = calls-other L _ (law.bitcast_opcode b.world v t) in
          rw calls-append (rw quiet refl);
    }

    Adds-bitcast : (v : L.Value) (t : L.Ty) → Adds 0 (Builder.bitcast {L = L} v t)
    Adds-bitcast v t =
        Adds-bind 0 _ _ (Adds-need bad_cast (test (L.is_castable (L.type_of v) t)) tt)
          λ _. Adds-cast v t

    Adds-field_address :
        (t : L.Ty) (v : L.Value) (n : ℕ) → Adds 0 (Builder.field_address {L = L} t v n)
    Adds-field_address t v n = record {
      each = λ b.
          let quiet = calls-other L _ (law.struct_gep_opcode b.world t v n) in
          rw calls-append (rw quiet refl);
    }

    Adds-struct_gep : (t : L.Ty) (v : L.Value) (n : ℕ) → Adds 0 (Builder.struct_gep {L = L} t v n)
    Adds-struct_gep t v n =
        Adds-bind 0 _ _ (Adds-need no_field (L.field_type t n) tt) λ _. Adds-field_address t v n

    Adds-load : (t : L.Ty) (p : L.Value) → Adds 0 (Builder.load {L = L} t p)
    Adds-load t p = record { each = λ b. rw calls-append (rw law.load_opcode refl) }

    module _ (h : Hooks L) (file : Bytes) where
      pub Adds-probe :
          (p : L.Callee) (line : ℕ) (op : Bytes) (addr : L.Value)
          → Adds 1 (probe h file p line op addr)
      unfolding probe
      Adds-probe p line op addr = Adds-bind 1 _ _ (Adds-global_string file) λ f.
          Adds-bind 1 _ _ (Adds-global_string op)
            λ o. Adds-call p (L.constant_int h.int_ty (line_operand line) ∷ f ∷ o ∷ addr ∷ [])

      pub Adds-address :
          (o : Option L.Value) (p : L.Callee) (line : ℕ) (op : Bytes)
          → Adds 1 (
              need no_operand o >>= λ v.
              Builder.bitcast v h.ptr_ty >>= λ addr. probe h file p line op addr)
      Adds-address o p line op =
          Adds-bind 1 _ _ (Adds-need no_operand o tt)
            λ v. Adds-bind 1 _ _ (Adds-bitcast v h.ptr_ty) λ addr. Adds-probe p line op addr

      pub Adds-log_argument :
          (n : ℕ) (op : String) (i : L.Inst) (line : ℕ) → Adds 1 (log_argument h file n op i line)
      unfolding log_argument
      Adds-log_argument n op i line =
          Adds-address (L.arg_operand i n) h.p_probe_lock line (codes op)

      Adds-load_guard : (v : L.Value) → Adds 0 (load_guard h file v)
      Adds-load_guard v =
          Adds-bind 0 _ _ (Adds-need not_pointer (L.element_type (L.type_of v)) tt)
            λ t. Adds-load t v

      pub Adds-log_guard :
          (op : String) (i : L.Inst) (line : ℕ) → Adds 1 (log_guard h file op i line)
      unfolding log_guard
      Adds-log_guard op i line = Adds-bind 1 _ _ (Adds-need no_operand (L.arg_operand i 0) tt) λ v.
          Adds-bind 1 _ _ (Adds-load_guard v) λ g.
            Adds-bind 1 _ _ (Adds-bitcast g h.ptr_ty)
              λ addr. Adds-probe h.p_probe_lock line (codes op) addr

      pub Adds-log_guard_field :
          (op : String) (i : L.Inst) (line : ℕ) → Adds 1 (log_guard_field h file op i line)
      unfolding log_guard_field
      Adds-log_guard_field op i line =
          Adds-bind 1 _ _ (Adds-need no_operand (L.arg_operand i 0) tt) λ v.
            Adds-bind 1 _ _ (Adds-load_guard v) λ g.
              Adds-bind 1 _ _ (Adds-struct_gep (L.type_of g) v 0) λ p.
                Adds-bind 1 _ _ (Adds-need not_pointer (L.element_type (L.type_of p)) tt) λ t.
                  Adds-bind 1 _ _ (Adds-load t p) λ lock.
                    Adds-bind 1 _ _ (Adds-bitcast lock h.ptr_ty)
                      λ addr. Adds-probe h.p_probe_lock line (codes op) addr

      -- An access with a debug location is probed once.
      pub Adds-log_access :
          (n : ℕ) (i : L.Inst) {line : ℕ}
          → L.debug_line i ≡ some line
          → Adds 1 (log_access h file n i)
      unfolding log_access
      Adds-log_access n i {line} e = record {
        each = λ b.
            rw (e, log_access)
              ((Adds-address (L.operand i n) h.p_probe line (L.opcode_name i)).each b);
      }
