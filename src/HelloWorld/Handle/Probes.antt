-- ===== src/HelloWorld/Handle/Probes.antt =====
-- Which instructions are probed, and what a handled instruction may come to.
use Prim.Native.String.{String}
use atomicity_violation.Base.{
  ℕ, ◌+◌, ◌≡◌, refl, ◌⊎◌, inl, inr, Bool, true, false, not, ◌&&◌, ◌||◌, if◌then◌else◌, Option, none,
  some, List, [], ◌∷◌, ◌++◌, append-nil, arith, Bytes,
}
use atomicity_violation.Base.Result.{Result, ok, fault, bind, null_callee}
use atomicity_violation.Text.{mentions}
use atomicity_violation.Llvm.{Llvm, IsLawful, Opcode, store, load, invoke, call, other}
use atomicity_violation.Llvm.Builder.{Builder, Build}
use atomicity_violation.Pass.{Action, next, leave, Hooks, before, after, log_access}
use atomicity_violation.Pass.Calls.{
  calls, Post, Adds, Adds-if, Adds-pure, Adds-log_access, Adds-log_argument, Adds-log_guard,
  Adds-log_guard_field, IsOperandFault,
}
use atomicity_violation.HelloWorld.Memory.{on_store, on_load}
use atomicity_violation.HelloWorld.Locks.{on_invoke, invoke_named, on_call, call_named}
use atomicity_violation.HelloWorld.Handle.{handle}

-- The name holds one of the patterns.
abbrev pub mentions_any : List String → Bytes → Bool
mentions_any [] name = false
mentions_any (p ∷ ps) name = mentions name p || mentions_any ps name

abbrev pub rwlock_patterns : List String
rwlock_patterns =
    "std4sync6rwlock15RwLock$LT$T$GT$5write" ∷ "std4sync6rwlock15RwLock$LT$T$GT$4read"
    ∷ "drop_in_place$LT$std..sync..rwlock..RwLockReadGuard"
    ∷ "drop_in_place$LT$std..sync..rwlock..RwLockWriteGuard" ∷ []

abbrev pub invoke_patterns : List String
invoke_patterns =
    "std4sync5mutex14Mutex$LT$T$GT$4lock" ∷ "drop_in_place$LT$std..sync..mutex..MutexGuard"
    ∷ "std4sync6rwlock15RwLock$LT$T$GT$4read"
    ∷ "drop_in_place$LT$std..sync..rwlock..RwLockReadGuard"
    ∷ "std4sync6rwlock15RwLock$LT$T$GT$5write"
    ∷ "drop_in_place$LT$std..sync..rwlock..RwLockWriteGuard" ∷ []

abbrev pub has_line : {A : Type 0} → Option A → Bool
has_line none = false
has_line (some line) = true

abbrev pub names : (Bytes → Bool) → Option Bytes → Bool
names p none = false
names p (some name) = p name

-- An atomic operation, which no lock operation hides.
abbrev is_atomic : Bytes → Bool
is_atomic name =
    not (mentions_any rwlock_patterns name)
    && (mentions name "core4sync6atomic" && mentions name "Atomic")

module _ (L : Llvm) where
  -- Whether the instruction is probed: an access to memory or a lock operation that the source
  -- has a line for.
  unfoldable pub is_traced : L.Inst → Bool
  is_traced i = has_line (L.debug_line i) && elim (L.opcode i) [
    | store ↦ true
    | load ↦ true
    | invoke ↦ names (mentions_any invoke_patterns) (L.called_function i)
    | call ↦ names (mentions_any rwlock_patterns) (L.called_function i)
    | other ↦ false
  ]

  -- Whether the loop over the block ends at the instruction.
  unfoldable pub is_break : L.Inst → Bool
  is_break i =
      has_line (L.debug_line i)
      && elim (L.opcode i) [ call ↦ names is_atomic (L.called_function i) | _ ↦ false ]

  abbrev pub probes : L.Inst → ℕ
  probes i = if is_traced i then 1 else 0

  -- The probes of a block: one for each traced instruction before the first atomic operation.
  unfoldable pub probe_count : List L.Inst → ℕ
  probe_count [] = 0
  probe_count (i ∷ rest) = let more = probes i + probe_count rest in if is_break i then 0 else more

-- What handling an instruction may come to, if it is traced or not, and ends the loop or not.
module _ {L : Llvm} where
  abbrev pub Outcome : Bool → Bool → Option Bytes → Result (Action L) → Type 0
  Outcome traced breaks name (ok (next before after w)) =
      (breaks ≡ false) × (calls L (before ++ after) ≡ (if traced then 1 else 0))
  Outcome traced breaks name (ok leave) = breaks ≡ true
  Outcome traced breaks name (fault e) =
      (breaks ≡ false) × (IsOperandFault e ⊎ ((e ≡ null_callee) × (name ≡ none)))

  pub record Comes (traced breaks : Bool) (name : Option Bytes) (r : Result (Action L))
      : Type 0 where
    pub outcome : Outcome traced breaks name r

  pub before-Comes :
      (traced : Bool) (name : Option Bytes) (m : Build L (Unit {0})) (w : L.World)
      → Adds (if traced then 1 else 0) m
      → Comes traced false name (before m w)
  before-Comes traced name m w h = go (m start) (h.each start)
    where
      start : Builder L
      start = record { world = w; inserted = [] }

      go :
          (r : Result (Unit {0} × Builder L))
          → Post (if traced then 1 else 0) start r
          → Comes traced false name (bind r (λ (_, b). ok (next b.inserted [] b.world)))
      go (ok (a, b)) p = record { outcome = (refl, rw append-nil (omega arith)) }
      go (fault e) p = record { outcome = (refl, inl p) }

  pub after-Comes :
      (traced : Bool) (name : Option Bytes) (m : Build L (Unit {0})) (w : L.World)
      → Adds (if traced then 1 else 0) m
      → Comes traced false name (after m w)
  after-Comes traced name m w h = go (m start) (h.each start)
    where
      start : Builder L
      start = record { world = w; inserted = [] }

      go :
          (r : Result (Unit {0} × Builder L))
          → Post (if traced then 1 else 0) start r
          → Comes traced false name (bind r (λ (_, b). ok (next [] b.inserted b.world)))
      go (ok (a, b)) p = record { outcome = (refl, omega arith) }
      go (fault e) p = record { outcome = (refl, inl p) }

  Comes-last :
      (atomic : Bool) (w : L.World) (name : Option Bytes)
      → Comes false atomic name (if atomic then ok leave else ok (next [] [] w))
  Comes-last true w name = record { outcome = refl }
  Comes-last false w name = record { outcome = (refl, refl) }

  pub Comes-nothing :
      (w : L.World) (name : Option Bytes) → Comes false false name (ok (next [] [] w))
  Comes-nothing w name = record { outcome = (refl, refl) }

  -- A test for a lock operation before the other tests.
  Comes-if :
      (c rest atomic : Bool) {m : Build L (Unit {0})} (w : L.World) {r : Result (Action L)}
      (name : Option Bytes)
      → Adds 1 m
      → Comes rest (not rest && atomic) name r
      → Comes (c || rest) (not (c || rest) && atomic) name (if c then before m w else r)
  Comes-if true rest atomic {m} w name p q = before-Comes true name m w p
  Comes-if false rest atomic w name p q = q

module _ {L : Llvm} (law : IsLawful L) (h : Hooks L) (file : Bytes) where
  Adds-invoke_named :
      (name : Bytes) (i : L.Inst) (line : ℕ)
      → Adds (if mentions_any invoke_patterns name then 1 else 0) (invoke_named h file name i line)
  unfolding invoke_named
  Adds-invoke_named name i line = Adds-if _ _ (Adds-log_argument law h file 1 "lock" i line) (
      Adds-if _ _ (Adds-log_guard_field law h file "unlock" i line) (
        Adds-if _ _ (Adds-log_argument law h file 0 "invoke - rwlock read lock" i line) (
          Adds-if _ _ (Adds-log_guard law h file "invoke - rwlock read unlock" i line) (
            Adds-if _ _ (Adds-log_argument law h file 1 "invoke - rwlock write lock" i line) (
              Adds-if _ false
                (Adds-log_guard_field law h file "invoke - rwlock write unlock" i line)
                (Adds-pure tt))))))

  call_named-Comes :
      (name : Bytes) (i : L.Inst) (line : ℕ) (w : L.World)
      → Comes
          (mentions_any rwlock_patterns name)
          (is_atomic name)
          (some name)
          (call_named h file name i line w)
  unfolding call_named
  call_named-Comes name i line w =
      Comes-if _ _ _ w (some name)
        (Adds-log_argument law h file 1 "call - rwlock write lock" i line)
        (Comes-if _ _ _ w (some name)
          (Adds-log_argument law h file 0 "call - rwlock read lock" i line)
          (Comes-if _ _ _ w (some name)
            (Adds-log_guard law h file "call - rwlock read unlock" i line)
            (Comes-if _ false _ w (some name)
              (Adds-log_guard_field law h file "call - rwlock write unlock" i line)
              (Comes-last _ w (some name)))))

  -- Handling an instruction ends the loop at an atomic operation, inserts one call if the
  -- instruction is traced and none if not, or faults: for an operand that is missing, is no
  -- pointer, cannot be cast or has no such field, or since the called function is unknown.
  pub handle-Comes :
      (i : L.Inst) (w : L.World)
      → Comes (is_traced L i) (is_break L i) (L.called_function i) (handle h file i w)
  unfolding is_traced is_break handle on_store on_load on_invoke on_call log_access
  handle-Comes i w = go (L.opcode i) refl (L.debug_line i) refl (L.called_function i) refl
    where
      go :
          (o : Opcode)
          → L.opcode i ≡ o
          → (d : Option ℕ) → L.debug_line i ≡ d
          → (f : Option Bytes) → L.called_function i ≡ f
          → Comes (is_traced L i) (is_break L i) (L.called_function i) (handle h file i w)
      go store o none q f p =
          rw (o, q, is_traced, is_break, handle, on_store, log_access)
            (Comes-nothing w (L.called_function i))
      go store o (some line) q f p =
          rw (o, q, is_traced, is_break, handle)
            (before-Comes true (L.called_function i) (on_store h file i) w
              (Adds-log_access law h file 1 i q))
      go load o none q f p =
          rw (o, q, is_traced, is_break, handle, on_load, log_access)
            (Comes-nothing w (L.called_function i))
      go load o (some line) q f p =
          rw (o, q, is_traced, is_break, handle)
            (after-Comes true (L.called_function i) (on_load h file i) w
              (Adds-log_access law h file 0 i q))
      go invoke o none q f p =
          rw (o, q, is_traced, is_break, handle, on_invoke) (Comes-nothing w (L.called_function i))
      go invoke o (some line) q none p =
          rw (o, q, p, is_traced, is_break, handle, on_invoke)
            (record { outcome = (refl, inr (refl, refl)) })
      go invoke o (some line) q (some name) p =
          rw (o, q, p, is_traced, is_break, handle, on_invoke)
            (before-Comes (mentions_any invoke_patterns name) (some name)
              (invoke_named h file name i line) w (Adds-invoke_named name i line))
      go call o none q f p =
          rw (o, q, is_traced, is_break, handle, on_call) (Comes-nothing w (L.called_function i))
      go call o (some line) q none p =
          rw (o, q, p, is_traced, is_break, handle, on_call)
            (record { outcome = (refl, inr (refl, refl)) })
      go call o (some line) q (some name) p =
          rw (o, q, p, is_traced, is_break, handle, on_call) (call_named-Comes name i line w)
      go other o none q f p =
          rw (o, q, is_traced, is_break, handle) (Comes-nothing w (L.called_function i))
      go other o (some line) q f p =
          rw (o, q, is_traced, is_break, handle) (Comes-nothing w (L.called_function i))
