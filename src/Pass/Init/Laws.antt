-- ===== src/Pass/Init/Laws.antt =====
-- What `initialization` adds to a module.
use atomicity_violation.Base.{
  ℕ, ◌+◌, ◌≡◌, refl, subst, Bool, true, false, List, [], ◌∷◌, arith, codes, if◌then◌else◌,
}
use atomicity_violation.Base.Result.{Result, ok, fault, bind}
use atomicity_violation.Text.{same}
use atomicity_violation.Llvm.{Llvm, IsLawful}
use atomicity_violation.Pass.Defs.{Hooks}
use atomicity_violation.Pass.Calls.{calls}
use atomicity_violation.Pass.Init.{
  Function, Module, insert_at_entry, call_at_entry, call_in_main, has_main, initialization,
  init_type, probe_type,
}

module _ (L : Llvm) where
  -- The calls in all blocks of a function, and of a module.
  abbrev pub block_calls : List (List L.Inst) → ℕ
  block_calls [] = 0
  block_calls (b ∷ bs) = calls L b + block_calls bs

  abbrev pub function_calls : List (Function L) → ℕ
  function_calls [] = 0
  function_calls (f ∷ fs) = block_calls f.blocks + function_calls fs

  abbrev AddsOne : List L.Inst → Result (List L.Inst) → Type 0
  AddsOne block (ok block') = calls L block' ≡ calls L block + 1
  AddsOne block (fault e) = Unit

  abbrev AddsCalls : ℕ → List (Function L) → Result (List (Function L)) → Type 0
  AddsCalls n fs (ok fs') = function_calls fs' ≡ function_calls fs + n
  AddsCalls n fs (fault e) = Unit

  module _ (new : L.Inst) (is_call : calls L (new ∷ []) ≡ 1) where
    insert_at_entry-AddsOne : (block : List L.Inst) → AddsOne block (insert_at_entry L new block)
    unfolding insert_at_entry
    insert_at_entry-AddsOne [] = tt
    insert_at_entry-AddsOne (i ∷ rest) =
        go (L.is_phi i) (insert_at_entry L new rest) (insert_at_entry-AddsOne rest)
      where
        go :
            (b : Bool) (r : Result (List L.Inst))
            → AddsOne rest r
            → AddsOne
                (i ∷ rest)
                (if b then bind r (λ rest'. ok (i ∷ rest')) else ok (new ∷ (i ∷ rest)))
        go true (ok rest') h = omega arith
        go true (fault e) h = tt
        go false r h = omega arith

    abbrev BlocksAddOne : List (List L.Inst) → Result (Function L) → Type 0
    BlocksAddOne blocks (ok f') = block_calls f'.blocks ≡ block_calls blocks + 1
    BlocksAddOne blocks (fault e) = Unit

    call_at_entry-AddsOne : (f : Function L) → BlocksAddOne f.blocks (call_at_entry new f)
    unfolding call_at_entry
    call_at_entry-AddsOne f = go f.blocks refl
      where
        done :
            (entry : List L.Inst) (blocks : List (List L.Inst)) (r : Result (List L.Inst))
            → AddsOne entry r
            → BlocksAddOne
                (entry ∷ blocks)
                (bind r (λ entry'. ok (record f { blocks = entry' ∷ blocks })))
        done entry blocks (ok entry') h = omega arith
        done entry blocks (fault e) h = tt

        go : (bs : List (List L.Inst)) → f.blocks ≡ bs → BlocksAddOne f.blocks (call_at_entry new f)
        go [] q = rw (q, call_at_entry) tt
        go (entry ∷ blocks) q =
            rw (q, call_at_entry)
              (done entry blocks (insert_at_entry L new entry) (insert_at_entry-AddsOne entry))

    call_in_main-AddsCalls :
        (fs : List (Function L)) → AddsCalls (if has_main fs then 1 else 0) fs (call_in_main new fs)
    unfolding call_in_main has_main
    call_in_main-AddsCalls [] = omega arith
    call_in_main-AddsCalls (f ∷ fs) =
        go (same f.name (codes "main")) (call_at_entry new f) (call_at_entry-AddsOne f)
          (call_in_main new fs) (call_in_main-AddsCalls fs)
      where
        go :
            (b : Bool) (r : Result (Function L))
            → BlocksAddOne f.blocks r
            → (r' : Result (List (Function L))) → AddsCalls (if has_main fs then 1 else 0) fs r'
            → AddsCalls
                (if (if b then true else has_main fs) then 1 else 0)
                (f ∷ fs)
                (if b then bind r (λ f'. ok (f' ∷ fs)) else bind r' (λ fs'. ok (f ∷ fs')))
        go true (ok f') h r' h' = omega arith
        go true (fault e) h r' h' = tt
        go false r h (ok fs') h' = omega arith
        go false r h (fault e) h' = tt

module _ (L : Llvm) (law : IsLawful L) where
  abbrev InitAdds : Module L → Result (Hooks L × Module L) → Type 0
  InitAdds m (ok (h, m')) =
      function_calls L m'.functions
      ≡ function_calls L m.functions + (if has_main m.functions then 1 else 0)
  InitAdds m (fault e) = Unit

  initialization-InitAdds : (m : Module L) → InitAdds m (initialization m)
  unfolding initialization
  initialization-InitAdds m =
      go (has_main m.functions) refl
        (call_in_main-AddsCalls L _ (rw law.call_opcode refl) m.functions)
    where
      callee : L.Callee × L.World
      callee = L.insert_function m.world (codes "_init_") (init_type L)

      w₃ : L.World
      w₃ =
          (L.insert_function (L.insert_function callee.1 (codes "_probe_") (probe_type L)).1
            (codes "_probe_lock_") (probe_type L)).1

      new : L.Inst
      new = (L.create_call w₃ callee.0 []).0

      finish :
          (h : Hooks L) (w : L.World) (r : Result (List (Function L)))
          → AddsCalls L (if has_main m.functions then 1 else 0) m.functions r
          → InitAdds m (bind r (λ fs. ok (h, record m { functions = fs; world = w })))
      finish h w (ok fs) p = p
      finish h w (fault e) p = tt

      go :
          (b : Bool)
          → has_main m.functions ≡ b
          → AddsCalls L
              (if has_main m.functions then 1 else 0)
              m.functions
              (call_in_main new m.functions)
          → InitAdds m (initialization m)
      go true q p = rw (q, initialization) (finish _ _ (call_in_main new m.functions) p)
      go false q p = rw (q, initialization) (rw q (omega arith))

-- If LLVM behaves as documented, an `initialization` that ends without a fault has inserted one
-- call into the module if it has a function `main`, and none if not.
pub initialization-calls :
    (L : Llvm) (law : IsLawful L) (m m' : Module L) (h : Hooks L)
    → initialization m ≡ ok (h, m')
    → function_calls L m'.functions
      ≡ function_calls L m.functions + (if has_main m.functions then 1 else 0)
initialization-calls L law m m' h e = subst (InitAdds L law m) e (initialization-InitAdds L law m)
