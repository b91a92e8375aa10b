-- ===== src/Readable/Builds.antt =====
-- Builder computations that end without a fault.
use Prim.Native.String.{String}
use atomicity_violation.Base.{
  ℕ, ◌≡◌, refl, sym, ◌∙◌, ap, subst, Bool, true, false, Option, none, some, Bytes, codes,
  if◌then◌else◌,
}
use atomicity_violation.Base.Result.{Result, ok, fault, pure, need, not_pointer, ◌>>=◌}
use atomicity_violation.Llvm.{Llvm}
use atomicity_violation.Llvm.Builder
use atomicity_violation.Llvm.Builder.{Builder, Build}
use atomicity_violation.Pass.{Hooks, probe, log_access, log_argument, log_guard, log_guard_field}
use atomicity_violation.Readable.{
  Choose, IsAddressing, Has, Castable, CastableValue, IsGuard, IsStructGuard, IfKnown,
}

abbrev pub IsOk : {A : Type 0} → Result A → Type 0
IsOk (ok a) = Unit
IsOk (fault e) = ⊥

pub record Ends {L : Llvm} {A : Type 0} (m : Build L A) : Type 0 where
  pub each : (b : Builder L) → IsOk (m b)

module _ {L : Llvm} where
  pub Ends-if :
      (c : Bool) {A B : Type 0} {m n : Build L (Unit {0})}
      → (A → Ends m)
      → (B → Ends n)
      → Choose c A B
      → Ends (if c then m else n)
  Ends-if true f g p = f p
  Ends-if false f g p = g p

  pub Ends-pure : Ends {L = L} (pure tt)
  Ends-pure = record { each = λ b. tt }

  -- The members are as `initialization` sets them, as far as casts go.
  module _ (h : Hooks L) (typed : h.ptr_ty ≡ L.int8_ptr_ty) (fname : Bytes) where
    -- The cast of an address and the call of a probe.
    Ends-cast_probe :
        (p : L.Callee) (line : ℕ) (op : Bytes) (v : L.Value)
        → CastableValue L v
        → Ends {L = L} (Builder.bitcast v h.ptr_ty >>= λ addr. probe h fname p line op addr)
    unfolding probe
    Ends-cast_probe p line op v c =
        let valid : L.is_castable (L.type_of v) h.ptr_ty ≡ true =
          ap (L.is_castable (L.type_of v)) typed ∙ c in
        record { each = λ b. rw valid tt }

    pub Ends-log_access :
        (n : ℕ) (i : L.Inst)
        → IfKnown L (L.debug_line i) (Has (CastableValue L) (L.operand i n))
        → Ends {L = L} (log_access h fname n i)
    unfolding log_access
    Ends-log_access n i p = record { each = λ b. go b (L.debug_line i) refl (L.operand i n) refl p }
      where
        go :
            (b : Builder L) (d : Option ℕ)
            → L.debug_line i ≡ d
            → (o : Option L.Value) → L.operand i n ≡ o
            → IfKnown L d (Has (CastableValue L) o)
            → IsOk (log_access h fname n i b)
        go b none q o r p = rw (q, log_access) tt
        go b (some line) q none r p = elim p [ ]
        go b (some line) q (some v) r p =
            rw (q, r, log_access) ((Ends-cast_probe h.p_probe line (L.opcode_name i) v p).each b)

    pub Ends-log_argument :
        (n : ℕ) (op : String) (i : L.Inst) (line : ℕ)
        → Has (CastableValue L) (L.arg_operand i n)
        → Ends {L = L} (log_argument h fname n op i line)
    unfolding log_argument
    Ends-log_argument n op i line p = record { each = λ b. go b (L.arg_operand i n) refl p }
      where
        go :
            (b : Builder L) (o : Option L.Value)
            → L.arg_operand i n ≡ o
            → Has (CastableValue L) o
            → IsOk (log_argument h fname n op i line b)
        go b none q p = elim p [ ]
        go b (some v) q p =
            rw (q, log_argument) ((Ends-cast_probe h.p_probe_lock line (codes op) v p).each b)

    module _ (addressing : IsAddressing L) where
      -- From the address of a lock on, which is loaded.
      load_probe_lem :
          (op : String) (line : ℕ) (p : L.Value) (t : Option L.Ty)
          → Has (Castable L) t
          → Ends {L = L} (
              need not_pointer t >>= λ t'. Builder.load t' p >>= λ lock.
              Builder.bitcast lock h.ptr_ty >>= λ addr.
              probe h fname h.p_probe_lock line (codes op) addr)
      load_probe_lem op line p none c = elim c [ ]
      load_probe_lem op line p (some t) c = record {
        each = λ b.
            (Ends-cast_probe h.p_probe_lock line (codes op) _ (
                ap (λ x. L.is_castable x L.int8_ptr_ty) (addressing.load_type b.world t p)
                ∙ c)).each
              _;
      }

      pub Ends-log_guard :
          (op : String) (i : L.Inst) (line : ℕ)
          → Has (IsGuard L) (L.arg_operand i 0)
          → Ends {L = L} (log_guard h fname op i line)
      unfolding log_guard
      Ends-log_guard op i line p = record { each = λ b. go b (L.arg_operand i 0) refl p }
        where
          loaded :
              (b : Builder L) (v : L.Value)
              → L.arg_operand i 0 ≡ some v
              → (t : Option L.Ty) → L.element_type (L.type_of v) ≡ t
              → Has (Castable L) t
              → IsOk (log_guard h fname op i line b)
          loaded b v q none r p = elim p [ ]
          loaded b v q (some t) r p =
              rw (q, log_guard) (rw r ((load_probe_lem op line v (some t) p).each b))

          go :
              (b : Builder L) (o : Option L.Value)
              → L.arg_operand i 0 ≡ o
              → Has (IsGuard L) o
              → IsOk (log_guard h fname op i line b)
          go b none q p = elim p [ ]
          go b (some v) q p = loaded b v q (L.element_type (L.type_of v)) refl p

      -- From the guard's first field on.
      Ends-field_probe :
          (op : String) (line : ℕ) (t : L.Ty) (v : L.Value) (f : Option L.Ty)
          → L.field_type t 0 ≡ f
          → Has (Castable L) f
          → Ends {L = L} (
              Builder.struct_gep t v 0 >>= λ lock_ptr.
              need not_pointer (L.element_type (L.type_of lock_ptr)) >>= λ t'.
              Builder.load t' lock_ptr >>= λ lock. Builder.bitcast lock h.ptr_ty >>= λ addr.
              probe h fname h.p_probe_lock line (codes op) addr)
      Ends-field_probe op line t v none q p = elim p [ ]
      Ends-field_probe op line t v (some f) q p = record {
        each = λ b. rw q (
            (load_probe_lem op line (L.create_struct_gep b.world t v 0).0 _ (
                subst (Has (Castable L)) (sym (addressing.field_pointer b.world t v 0 f q)) p)).each
              _);
      }

      pub Ends-log_guard_field :
          (op : String) (i : L.Inst) (line : ℕ)
          → Has (IsStructGuard L) (L.arg_operand i 0)
          → Ends {L = L} (log_guard_field h fname op i line)
      unfolding log_guard_field
      Ends-log_guard_field op i line p = record { each = λ b. go b (L.arg_operand i 0) refl p }
        where
          loaded :
              (b : Builder L) (v : L.Value)
              → L.arg_operand i 0 ≡ some v
              → (t : Option L.Ty) → L.element_type (L.type_of v) ≡ t
              → Has (λ t'. Has (Castable L) (L.field_type t' 0)) t
              → IsOk (log_guard_field h fname op i line b)
          loaded b v q none r p = elim p [ ]
          loaded b v q (some t) r p =
              rw (q, log_guard_field)
                (rw r (
                  (Ends-field_probe op line _ v _ refl (
                      subst (λ t'. Has (Castable L) (L.field_type t' 0))
                        (sym (addressing.load_type b.world t v)) p)).each
                    _))

          go :
              (b : Builder L) (o : Option L.Value)
              → L.arg_operand i 0 ≡ o
              → Has (IsStructGuard L) o
              → IsOk (log_guard_field h fname op i line b)
          go b none q p = elim p [ ]
          go b (some v) q p = loaded b v q (L.element_type (L.type_of v)) refl p
