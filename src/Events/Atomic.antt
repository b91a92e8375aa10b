-- ===== src/Events/Atomic.antt =====
-- The probes of atomic operations, in the code of HelloWorld/HelloWorld.cpp behind the `break`.
use Prim.Native.String.{String}
use atomicity_violation.Base.{
  ℕ, ◌≡◌, refl, true, Bool-cases, inl, inr, some, List, [], ◌∷◌, Bytes, codes, if◌then◌else◌,
}
use atomicity_violation.Base.Result.{Result, ok, fault, ◌>>=◌}
use atomicity_violation.Text.{mentions}
use atomicity_violation.Llvm.{Llvm, IsLawful}
use atomicity_violation.Llvm.Builder
use atomicity_violation.Llvm.Builder.{Builder, Build}
use atomicity_violation.Llvm.Reading.{Origin, Reading, IsFaithful}
use atomicity_violation.Pass.{Action, next, leave, Hooks, probe}
use atomicity_violation.HelloWorld.Atomic.{atomic_load, atomic_store, on_atomic}
use atomicity_violation.Events.Seen.{access, Event, seen}
use atomicity_violation.Events.Emits.{Post}
use atomicity_violation.Events.Probes.{IsReady, probe_event}
use atomicity_violation.Events.Operations.{Emits-cast_access}

module _ {L : Llvm} (R : Reading L) (file name : Bytes) (line : ℕ) where
  -- The probes due before the call, for the address `a` in its first argument, and those behind it,
  -- for the address `b` in its first operand.
  abbrev pub due_before : Origin L → List (Event L)
  due_before a =
      if mentions name "load"
      then []
      else if mentions name "store"
      then probe_event file access line (codes "call - atomic store") a ∷ []
      else []

  abbrev pub due_behind : Origin L → List (Event L)
  due_behind b =
      if mentions name "load"
      then probe_event file access line (codes "call - atomic load") b ∷ []
      else []

  -- The handler goes on to the next instruction, and these are the probes that it inserted.
  abbrev pub GoesOn : Origin L → Origin L → Result (Action L) → Type 0
  GoesOn a b (ok (next xs ys w)) = (seen R xs ≡ due_before a) × (seen R ys ≡ due_behind b)
  GoesOn a b (ok leave) = ⊥
  GoesOn a b (fault e) = ⊥

module _ {L : Llvm} (R : Reading L) (law : IsLawful L) (faithful : IsFaithful L R) (h : Hooks L)
    (is_ready : IsReady L h) (file : Bytes) where
  -- If LLVM behaves as documented and the pass is initialized, then the code behind the `break`,
  -- for a call whose first argument and first operand are there and can be cast, goes on to the
  -- next instruction: it has inserted one probe of the address in the operand behind the call, if
  -- the name of the called function holds `load`; else one probe of the address in the argument
  -- before the call, if the name holds `store`; and nothing else.
  pub on_atomic-GoesOn :
      (name : Bytes) (i : L.Inst) (line : ℕ) (w : L.World) (u v : L.Value)
      → L.arg_operand i 0 ≡ some u
      → L.operand i 0 ≡ some v
      → L.is_castable (L.type_of u) h.ptr_ty ≡ true
      → L.is_castable (L.type_of v) h.ptr_ty ≡ true
      → GoesOn R file name line (R.origin u) (R.origin v) (on_atomic h file name i line w)
  unfolding on_atomic atomic_load atomic_store probe
  on_atomic-GoesOn name i line w u v p q cast_u cast_v = elim (Bool-cases (mentions name "load")) [
    | inl is_load ↦
        rw (is_load, p, q, on_atomic, atomic_load, probe)
          (rw cast_v (rw is_load refl, rw is_load (rw cast_v at (shown "call - atomic load" v)).0))
    | inr no_load ↦ elim (Bool-cases (mentions name "store")) [
      | inl is_store ↦
          rw (no_load, is_store, p, on_atomic, atomic_store, probe)
            (rw cast_u (
              rw (no_load, is_store) (rw cast_u at (shown "call - atomic store" u)).0,
              rw no_load refl,
            ))
      | inr no_store ↦
          rw (no_load, no_store, on_atomic) (rw (no_load, no_store) refl, rw no_load refl)
    ]
  ]
    where
      start : Builder L
      start = record { world = w; inserted = [] }

      shown :
          (op : String) (x : L.Value)
          → Post R
              (probe_event file access line (codes op) (R.origin x) ∷ [])
              (λ _. Unit)
              start
              ((Builder.bitcast {L = L} x h.ptr_ty >>= λ addr.
                  probe h file h.p_probe line (codes op) addr)
                start)
      shown op x = (Emits-cast_access R law faithful h is_ready file line (codes op) x).each start
