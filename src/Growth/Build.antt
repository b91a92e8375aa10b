-- ===== src/Growth/Build.antt =====
-- How many instructions a builder computation inserts at most: one rule for each way to build one.
use Prim.Native.String.{String}
use atomicity_violation.Base.{
  ℕ, ◌+◌, ◌≤◌, ◌≡◌, refl, Option, none, some, List, [], ◌∷◌, ◌++◌, arith, Bytes, codes, length,
  length-append, Bool, true, false, if◌then◌else◌,
}
use atomicity_violation.Base.Result.{
  bad_cast, no_field, Fault, Result, ok, fault, bind, no_operand, not_pointer, need, pure, ◌>>=◌,
}
use atomicity_violation.Llvm.{Llvm, IsLawful}
use atomicity_violation.Llvm.Builder
use atomicity_violation.Llvm.Builder.{test, Builder, Build}
use atomicity_violation.Pass.{
  Hooks, line_operand, probe, log_access, log_argument, load_guard, log_guard, log_guard_field,
}

inserted_length :
    {A : Type 0} (xs new : List A) (n : ℕ) → length new ≤ n → length (xs ++ new) ≤ length xs + n
inserted_length xs new n le = omega (arith, length-append xs new)

module _ {L : Llvm} where
  abbrev pub Size : {A : Type 0} → ℕ → Builder L → Result (A × Builder L) → Type 0
  Size n b (ok (a, b')) = length b'.inserted ≤ length b.inserted + n
  Size n b (fault e) = Unit

  -- At most `n` more instructions.
  pub record Grows {A : Type 0} (n : ℕ) (m : Build L A) : Type 0 where
    pub each : (b : Builder L) → Size n b (m b)

  Size-le :
      {A : Type 0} (n k : ℕ) (b : Builder L) (r : Result (A × Builder L))
      → n ≤ k
      → Size n b r
      → Size k b r
  Size-le n k b (ok (a, b')) le s = omega arith
  Size-le n k b (fault e) le s = tt

  pub Grows-le : {A : Type 0} {m : Build L A} (n k : ℕ) → n ≤ k → Grows n m → Grows k m
  Grows-le {m} n k le g = record { each = λ b. Size-le n k b (m b) le (g.each b) }

  pub Grows-pure : {A : Type 0} (a : A) → Grows 0 (pure {S = Builder L} a)
  Grows-pure a = record { each = λ b. omega arith }

  pub Grows-need : {A : Type 0} (e : Fault) (o : Option A) → Grows 0 (need {S = Builder L} e o)
  Grows-need e none = record { each = λ b. tt }
  Grows-need e (some a) = record { each = λ b. omega arith }

  Size-bind :
      {A B : Type 0} (n k : ℕ) (b : Builder L) (r : Result (A × Builder L)) (f : A → Build L B)
      → Size n b r
      → ((a : A) → Grows k (f a))
      → Size (n + k) b (bind r (λ (a, b'). f a b'))
  Size-bind n k b (fault e) f h g = tt
  Size-bind {B} n k b (ok (a, b')) f h g = go (f a b') ((g a).each b')
    where
      go : (q : Result (B × Builder L)) → Size k b' q → Size (n + k) b q
      go (ok (c, b'')) s = omega arith
      go (fault e) s = tt

  pub Grows-bind :
      {A B : Type 0} (n k : ℕ) (m : Build L A) (f : A → Build L B)
      → Grows n m
      → ((a : A) → Grows k (f a))
      → Grows (n + k) (m >>= f)
  Grows-bind n k m f h g = record { each = λ b. Size-bind n k b (m b) f (h.each b) g }

  pub Grows-if :
      {A : Type 0} (n : ℕ) (c : Bool) {m m' : Build L A}
      → Grows n m
      → Grows n m'
      → Grows n (if c then m else m')
  Grows-if n true h k = h
  Grows-if n false h k = k

  Grows-global_string : (s : Bytes) → Grows 0 (Builder.global_string {L = L} s)
  Grows-global_string s = record { each = λ b. omega arith }

  Grows-load : (t : L.Ty) (p : L.Value) → Grows 1 (Builder.load {L = L} t p)
  Grows-load t p = record { each = λ b. inserted_length b.inserted _ 1 (omega arith) }

  Grows-call : (f : L.Callee) (args : List L.Value) → Grows 1 (Builder.call {L = L} f args)
  Grows-call f args = record { each = λ b. inserted_length b.inserted _ 1 (omega arith) }

  module _ (law : IsLawful L) where
    Grows-cast : (v : L.Value) (t : L.Ty) → Grows 1 (Builder.cast {L = L} v t)
    Grows-cast v t = record {
      each = λ b. inserted_length b.inserted _ 1 (law.bitcast_length b.world v t);
    }

    Grows-bitcast : (v : L.Value) (t : L.Ty) → Grows 1 (Builder.bitcast {L = L} v t)
    Grows-bitcast v t =
        Grows-bind 0 1 _ _ (Grows-need bad_cast (test (L.is_castable (L.type_of v) t)))
          λ _. Grows-cast v t

    Grows-field_address :
        (t : L.Ty) (v : L.Value) (n : ℕ) → Grows 1 (Builder.field_address {L = L} t v n)
    Grows-field_address t v n = record {
      each = λ b. inserted_length b.inserted _ 1 (law.struct_gep_length b.world t v n);
    }

    Grows-struct_gep : (t : L.Ty) (v : L.Value) (n : ℕ) → Grows 1 (Builder.struct_gep {L = L} t v n)
    Grows-struct_gep t v n =
        Grows-bind 0 1 _ _ (Grows-need no_field (L.field_type t n)) λ _. Grows-field_address t v n

    module _ (h : Hooks L) (file : Bytes) where
      Grows-probe :
          (p : L.Callee) (line : ℕ) (op : Bytes) (addr : L.Value)
          → Grows 1 (probe h file p line op addr)
      unfolding probe
      Grows-probe p line op addr = Grows-bind 0 1 _ _ (Grows-global_string file) λ f.
          Grows-bind 0 1 _ _ (Grows-global_string op) λ o.
            Grows-call p (L.constant_int h.int_ty (line_operand line) ∷ (f ∷ (o ∷ (addr ∷ []))))

      -- The cast of an address and the call of the probe.
      Grows-cast_probe :
          (p : L.Callee) (line : ℕ) (op : Bytes) (v : L.Value)
          → Grows 2 (Builder.bitcast {L = L} v h.ptr_ty >>= λ addr. probe h file p line op addr)
      Grows-cast_probe p line op v =
          Grows-bind 1 1 _ _ (Grows-bitcast v h.ptr_ty) (Grows-probe p line op)

      pub Grows-log_access : (n : ℕ) (i : L.Inst) → Grows 2 (log_access h file n i)
      unfolding log_access
      Grows-log_access n i = go (L.debug_line i) refl
        where
          go : (d : Option ℕ) → L.debug_line i ≡ d → Grows 2 (log_access h file n i)
          go none q = record {
            each = λ b. rw (q, log_access) ((Grows-le 0 2 (omega arith) (Grows-pure tt)).each b);
          }
          go (some line) q = record {
            each = λ b.
                rw (q, log_access)
                  ((Grows-bind 0 2 _ _ (Grows-need no_operand (L.operand i n))
                      (Grows-cast_probe h.p_probe line (L.opcode_name i))).each
                    b);
          }

      pub Grows-log_argument :
          (n : ℕ) (op : String) (i : L.Inst) (line : ℕ) → Grows 5 (log_argument h file n op i line)
      unfolding log_argument
      Grows-log_argument n op i line = Grows-le 2 5 (omega arith) (
          Grows-bind 0 2 _ _ (Grows-need no_operand (L.arg_operand i n))
            (Grows-cast_probe h.p_probe_lock line (codes op)))

      Grows-load_guard : (v : L.Value) → Grows 1 (load_guard h file v)
      Grows-load_guard v =
          Grows-bind 0 1 _ _ (Grows-need not_pointer (L.element_type (L.type_of v)))
            λ t. Grows-load t v

      pub Grows-log_guard :
          (op : String) (i : L.Inst) (line : ℕ) → Grows 5 (log_guard h file op i line)
      unfolding log_guard
      Grows-log_guard op i line = Grows-le 3 5 (omega arith) (
          Grows-bind 0 3 _ _ (Grows-need no_operand (L.arg_operand i 0)) λ v.
            Grows-bind 1 2 _ _ (Grows-load_guard v)
              (Grows-cast_probe h.p_probe_lock line (codes op)))

      pub Grows-log_guard_field :
          (op : String) (i : L.Inst) (line : ℕ) → Grows 5 (log_guard_field h file op i line)
      unfolding log_guard_field
      Grows-log_guard_field op i line =
          Grows-bind 0 5 _ _ (Grows-need no_operand (L.arg_operand i 0)) λ v.
            Grows-bind 1 4 _ _ (Grows-load_guard v) λ g.
              Grows-bind 1 3 _ _ (Grows-struct_gep (L.type_of g) v 0) λ p.
                Grows-bind 0 3 _ _ (Grows-need not_pointer (L.element_type (L.type_of p))) λ t.
                  Grows-bind 1 2 _ _ (Grows-load t p)
                    (Grows-cast_probe h.p_probe_lock line (codes op))
