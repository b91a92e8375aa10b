-- ===== src/Llvm/Builder.antt =====
-- An `IRBuilder<>` at one insertion point: the instructions inserted there so far, and the module.
use atomicity_violation.Base.{ℕ, Bool, true, false, Option, none, some, List, [], ◌∷◌, ◌++◌, Bytes}
use atomicity_violation.Base.Result.{ok, Run, need, bad_cast, no_field, ◌>>=◌}
use atomicity_violation.Llvm.{Llvm}

module _ (L : Llvm) where
  open L use {World, Ty, Value, Inst, Callee}

  pub record Builder : Type 0 where
    pub world : World
    pub inserted : List Inst

  abbrev pub Build : Type 0 → Type 0
  Build A = Run Builder A

-- What a test must find.
abbrev pub test : Bool → Option (Unit {0})
test true = some tt
test false = none

module _ {L : Llvm} where
  open L use {World, Ty, Value, Inst, Callee}

  abbrev pub global_string : Bytes → Build L Value
  global_string s b =
      let (v, w) = L.create_global_string b.world s in ok (v, record b { world = w })

  -- The cast of a value that can be cast.
  abbrev pub cast : Value → Ty → Build L Value
  cast v t b =
      let (c, new, w) = L.create_bitcast b.world v t in
      ok (c, record { world = w; inserted = b.inserted ++ new })

  -- `CreateBitCast` asserts that the cast is valid.
  abbrev pub bitcast : Value → Ty → Build L Value
  bitcast v t = need bad_cast (test (L.is_castable (L.type_of v) t)) >>= λ _. cast v t

  -- The address of a field that is there.
  abbrev pub field_address : Ty → Value → ℕ → Build L Value
  field_address t v n b =
      let (p, new, w) = L.create_struct_gep b.world t v n in
      ok (p, record { world = w; inserted = b.inserted ++ new })

  -- `CreateStructGEP` asserts that the type is a struct with that field.
  abbrev pub struct_gep : Ty → Value → ℕ → Build L Value
  struct_gep t v n = need no_field (L.field_type t n) >>= λ _. field_address t v n

  abbrev pub load : Ty → Value → Build L Value
  load t p b =
      let (v, new, w) = L.create_load b.world t p in
      ok (v, record { world = w; inserted = b.inserted ++ (new ∷ []) })

  abbrev pub call : Callee → List Value → Build L (Unit {0})
  call f args b =
      let (new, w) = L.create_call b.world f args in
      ok (tt, record { world = w; inserted = b.inserted ++ (new ∷ []) })
