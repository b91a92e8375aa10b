-- ===== src/Events/Operations.antt =====
-- The probes of an access to memory and of each way to get at a lock.
use Prim.Native.String.{String}
use atomicity_violation.Base.{ℕ, ◌≡◌, refl, ◌∙◌, ap, Option, some, [], ◌∷◌, Bytes, codes}
use atomicity_violation.Base.Result.{no_operand, not_pointer, need, ◌>>=◌}
use atomicity_violation.Text.{mentions}
use atomicity_violation.Llvm.{Llvm, IsLawful}
use atomicity_violation.Llvm.Builder
use atomicity_violation.Llvm.Builder.{Build}
use atomicity_violation.Llvm.Reading.{Origin, loaded, field, Reading, IsFaithful}
use atomicity_violation.Pass.{
  Hooks, probe, log_access, log_argument, load_guard, log_guard, log_guard_field,
}
use atomicity_violation.Events.Seen.{Kind, access, lock, Event, kind_of}
use atomicity_violation.Events.Emits.{
  Emits, Emits-cong, Emits-need, Emits-bind, Emits-bitcast, Emits-struct_gep, Emits-load,
}
use atomicity_violation.Events.Probes.{IsReady, probe_event, Emits-probe}
use atomicity_violation.Events.Due.{argument, guard, guard_field, due_value, due_lock, due_access}

module _ {L : Llvm} (R : Reading L) (law : IsLawful L) (faithful : IsFaithful L R) (h : Hooks L)
    (is_ready : IsReady L h) (file : Bytes) where
  -- A step that must find a value, then the probe that is due for it.
  Emits-due_value :
      (o : Option L.Value) (e : L.Value → Event L) (f : L.Value → Build L (Unit {0}))
      → ((v : L.Value) → Emits R (e v ∷ []) (λ _. Unit) (f v))
      → Emits R (due_value R file o e) (λ _. Unit) (need no_operand o >>= f)
  Emits-due_value o e f k =
      Emits-bind R _ _ f (Emits-need R no_operand o) λ v q. Emits-cong R (due v q) (k v)
    where
      due : (v : L.Value) → o ≡ some v → e v ∷ [] ≡ due_value R file o e
      due v q = rw q refl

  -- The cast of an address and the call of the probe.
  Emits-cast_probe :
      (p : L.Callee) (name : Bytes) (k : Kind) (line : ℕ) (op : Bytes) (a : Origin L) (v : L.Value)
      → L.callee_name p ≡ some name
      → kind_of name ≡ some k
      → R.origin v ≡ a
      → Emits R
          (probe_event file k line op a ∷ [])
          (λ _. Unit)
          (Builder.bitcast {L = L} v h.ptr_ty >>= λ addr. probe h file p line op addr)
  Emits-cast_probe p name k line op a v named kind from =
      Emits-bind R _ _ (λ addr. probe h file p line op addr)
        (Emits-bitcast R law faithful v h.ptr_ty)
        λ addr (origin_kept, typed).
          Emits-cong R (ap (λ x. probe_event file k line op x ∷ []) (origin_kept ∙ from)) (
            Emits-probe R law faithful h is_ready file p name k line op addr named kind
              (typed ∙ is_ready.ptr_ty))

  lock_kind : kind_of (codes "_probe_lock_") ≡ some lock
  lock_kind = unfold atomicity_violation.Text.same in refl

  access_kind : kind_of (codes "_probe_") ≡ some access
  access_kind = unfold atomicity_violation.Text.same in refl

  Emits-cast_lock :
      (line : ℕ) (op : Bytes) (a : Origin L) (v : L.Value)
      → R.origin v ≡ a
      → Emits R
          (probe_event file lock line op a ∷ [])
          (λ _. Unit)
          (Builder.bitcast {L = L} v h.ptr_ty >>= λ addr. probe h file h.p_probe_lock line op addr)
  Emits-cast_lock line op a v =
      Emits-cast_probe h.p_probe_lock (codes "_probe_lock_") lock line op a v is_ready.p_probe_lock
        lock_kind

  pub Emits-cast_access :
      (line : ℕ) (op : Bytes) (v : L.Value)
      → Emits R
          (probe_event file access line op (R.origin v) ∷ [])
          (λ _. Unit)
          (Builder.bitcast {L = L} v h.ptr_ty >>= λ addr. probe h file h.p_probe line op addr)
  Emits-cast_access line op v =
      Emits-cast_probe h.p_probe (codes "_probe_") access line op (R.origin v) v is_ready.p_probe
        access_kind refl

  pub Emits-log_access :
      (n : ℕ) (i : L.Inst) (line : ℕ)
      → L.debug_line i ≡ some line
      → Emits R (due_access R file n i line) (λ _. Unit) (log_access h file n i)
  unfolding log_access
  Emits-log_access n i line q = record { each = λ b. rw (q, log_access) (found.each b) }
    where
      found :
          Emits R
            (due_access R file n i line)
            (λ _. Unit)
            (need no_operand (L.operand i n) >>= λ var.
              Builder.bitcast {L = L} var h.ptr_ty >>= λ addr.
              probe h file h.p_probe line (L.opcode_name i) addr)
      found = Emits-due_value (L.operand i n) _ _ (Emits-cast_access line (L.opcode_name i))

  pub Emits-log_argument :
      (n : ℕ) (op : String) (i : L.Inst) (line : ℕ)
      → Emits R
          (due_lock R file (codes op) (argument n) i line)
          (λ _. Unit)
          (log_argument h file n op i line)
  unfolding log_argument
  Emits-log_argument n op i line =
      Emits-due_value (L.arg_operand i n) _ _
        λ v. Emits-cast_lock line (codes op) (R.origin v) v refl

  Emits-load_guard :
      (v : L.Value) → Emits R [] (λ g. R.origin g ≡ loaded (R.origin v)) (load_guard h file v)
  Emits-load_guard v =
      Emits-bind R [] _ (λ t. Builder.load {L = L} t v)
        (Emits-need R not_pointer (L.element_type (L.type_of v)))
        λ t _. Emits-load R law faithful t v

  pub Emits-log_guard :
      (op : String) (i : L.Inst) (line : ℕ)
      → Emits R (due_lock R file (codes op) guard i line) (λ _. Unit) (log_guard h file op i line)
  unfolding log_guard
  Emits-log_guard op i line = Emits-due_value (L.arg_operand i 0) _ _ λ v.
      Emits-bind R _ _
        (λ g. Builder.bitcast {L = L} g h.ptr_ty >>= λ addr.
          probe h file h.p_probe_lock line (codes op) addr)
        (Emits-load_guard v) λ g from. Emits-cast_lock line (codes op) (loaded (R.origin v)) g from

  pub Emits-log_guard_field :
      (op : String) (i : L.Inst) (line : ℕ)
      → Emits R
          (due_lock R file (codes op) guard_field i line)
          (λ _. Unit)
          (log_guard_field h file op i line)
  unfolding log_guard_field
  Emits-log_guard_field op i line = Emits-due_value (L.arg_operand i 0) _ _ λ v.
      Emits-bind R _ _ _ (Emits-load_guard v) λ g _.
        Emits-bind R _ _ _ (Emits-struct_gep R law faithful (L.type_of g) v 0) λ p at_field.
          Emits-bind R _ _ _ (Emits-need R not_pointer (L.element_type (L.type_of p))) λ t _.
            Emits-bind R _ _ _ (Emits-load R law faithful t p) λ lock_value from.
              Emits-cast_lock line (codes op) (loaded (field 0 (R.origin v))) lock_value
                (from ∙ ap loaded at_field)
