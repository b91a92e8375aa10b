-- ===== src/Events/Probes.antt =====
-- What the calls that the handlers insert pass to the probes.
use atomicity_violation.Base.{
  ℕ, ◌%◌, ◌^◌, ◌≡◌, refl, ◌∙◌, ap, some, List, [], ◌∷◌, Bytes, codes, arith,
}
use atomicity_violation.Llvm.{Llvm, IsLawful}
use atomicity_violation.Llvm.Reading.{Origin, Reading, IsFaithful}
use atomicity_violation.Pass.{Hooks, line_operand, probe}
use atomicity_violation.Events.Seen.{Kind, Event, kind_of, read_call}
use atomicity_violation.Events.Emits.{Emits, Emits-bind, Emits-global_string, Emits-call}

-- The parameter types of `_probe_` and `_probe_lock_`.
abbrev pub probe_parameters : (L : Llvm) → List L.Ty
probe_parameters L = L.int32_ty ∷ (L.int8_ptr_ty ∷ (L.int8_ptr_ty ∷ (L.int8_ptr_ty ∷ [])))

-- The members as `initialization` sets them.
pub record IsReady (L : Llvm) (h : Hooks L) : Type 0 where
  pub int_ty : h.int_ty ≡ L.int32_ty
  pub ptr_ty : h.ptr_ty ≡ L.int8_ptr_ty
  pub p_init : L.callee_name h.p_init ≡ some (codes "_init_")
  pub p_probe : L.callee_name h.p_probe ≡ some (codes "_probe_")
  pub p_probe_lock : L.callee_name h.p_probe_lock ≡ some (codes "_probe_lock_")

-- The event that is due for an operation in a line of the source.
abbrev pub probe_event : {L : Llvm} → Bytes → Kind → ℕ → Bytes → Origin L → Event L
probe_event {L} file k line op a = record {
  kind = k;
  line = line % 2 ^ 32;
  file = file;
  op = op;
  address = a;
  types = probe_parameters L;
}

-- The cut to `int` and the extension of its sign keep the 32 bits.
line_operand-mod : (line : ℕ) → line_operand line % 2 ^ 32 ≡ line % 2 ^ 32
unfolding line_operand
line_operand-mod line = ground arith

module _ {L : Llvm} (R : Reading L) (law : IsLawful L) (faithful : IsFaithful L R) (h : Hooks L)
    (is_ready : IsReady L h) (file : Bytes) where
  pub Emits-probe :
      (p : L.Callee) (name : Bytes) (k : Kind) (line : ℕ) (op : Bytes) (addr : L.Value)
      → L.callee_name p ≡ some name
      → kind_of name ≡ some k
      → L.type_of addr ≡ L.int8_ptr_ty
      → Emits R
          (probe_event file k line op (R.origin addr) ∷ [])
          (λ _. Unit)
          (probe h file p line op addr)
  unfolding probe
  Emits-probe p name k line op addr named kind typed =
      Emits-bind R _ _ _ (Emits-global_string R law faithful file) λ f (f_text, f_type).
        Emits-bind R _ _ _ (Emits-global_string R law faithful op) λ o (o_text, o_type).
          Emits-call R law faithful p
            (L.constant_int h.int_ty (line_operand line) ∷ (f ∷ (o ∷ (addr ∷ [])))) _
            (read f f_text f_type o o_text o_type)
    where
      number : R.number_of (L.constant_int h.int_ty (line_operand line)) ≡ some (line % 2 ^ 32)
      number =
          ap (λ t. R.number_of (L.constant_int t (line_operand line))) is_ready.int_ty
          ∙ faithful.number_of (line_operand line)
          ∙ ap some (line_operand-mod line)

      read :
          (f : L.Value)
          → R.text_of f ≡ some file
          → L.type_of f ≡ L.int8_ptr_ty
          → (o : L.Value) → R.text_of o ≡ some op
          → L.type_of o ≡ L.int8_ptr_ty
          → read_call R
              (L.callee_name p)
              (L.constant_int h.int_ty (line_operand line) ∷ (f ∷ (o ∷ (addr ∷ []))))
            ≡ probe_event file k line op (R.origin addr) ∷ []
      read f f_text f_type o o_text o_type =
          rw (named, kind, number, f_text, o_text)
            (rw (faithful.constant_type, is_ready.int_ty, f_type, o_type, typed) refl)
