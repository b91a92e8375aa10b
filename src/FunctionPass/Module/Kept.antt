-- ===== src/FunctionPass/Module/Kept.antt =====
-- What `initialization` leaves of the functions of a module: one block may have one call more.
use atomicity_violation.Base.{
  ℕ, zero, suc, ◌≡◌, ◌⊎◌, refl, sym, ◌∙◌, subst, Bool, true, false, Option, none, some, List, [],
  ◌∷◌, arith, get_elem?, codes, Bool-cases, inl, inr, if◌then◌else◌,
}
use atomicity_violation.Base.Result.{Result, ok, fault, bind}
use atomicity_violation.Text.{same}
use atomicity_violation.Llvm.{Llvm, IsLawful, call}
use atomicity_violation.Llvm.Reading.{Reading, IsFaithful}
use atomicity_violation.Pass.{Hooks}
use atomicity_violation.Pass.Init.{
  Function, Module, insert_at_entry, call_at_entry, call_in_main, has_main, initialization,
}
use atomicity_violation.Pass.Entry.{IsInit}
use atomicity_violation.HelloWorld.Handle.Probes.{has_line}
use atomicity_violation.FunctionPass.Handle.Probes.{is_logged, log_count}
use atomicity_violation.FunctionPass.Run.Counts.{block_logs}

-- The second block is the first with a call of `_init_` more.
pub data Inserted (L : Llvm) : List L.Inst → List L.Inst → Type 0 where
  here : {new : L.Inst} {rest : List L.Inst} → IsInit L new → Inserted L rest (new ∷ rest)
  there :
      {i : L.Inst} {block block' : List L.Inst}
      → Inserted L block block'
      → Inserted L (i ∷ block) (i ∷ block')

module _ (L : Llvm) where
  abbrev pub Kept : List L.Inst → List L.Inst → Type 0
  Kept block block' = (block' ≡ block) ⊎ Inserted L block block'

  abbrev pub AllKept : List (List L.Inst) → List (List L.Inst) → Type 0
  AllKept [] [] = Unit
  AllKept (b ∷ bs) (b' ∷ bs') = Kept b b' × AllKept bs bs'
  AllKept _ _ = ⊥

  AllKept-refl : (bs : List (List L.Inst)) → AllKept bs bs
  AllKept-refl [] = tt
  AllKept-refl (b ∷ bs) = (inl refl, AllKept-refl bs)

  -- The same name, and the same blocks but for the call.
  abbrev pub SameAt : Option (Function L) → Option (Function L) → Type 0
  SameAt none none = Unit
  SameAt (some f) (some f') = (f'.name ≡ f.name) × AllKept f.blocks f'.blocks
  SameAt _ _ = ⊥

  pub SameAt-refl : (o : Option (Function L)) → SameAt o o
  SameAt-refl none = tt
  SameAt-refl (some f) = (refl, AllKept-refl f.blocks)

  abbrev BlockKept : List L.Inst → Result (List L.Inst) → Type 0
  BlockKept block (ok block') = Inserted L block block'
  BlockKept block (fault e) = Unit

  abbrev FunctionKept : Function L → Result (Function L) → Type 0
  FunctionKept f (ok f') = SameAt (some f) (some f')
  FunctionKept f (fault e) = Unit

  abbrev FunctionsKept : List (Function L) → Result (List (Function L)) → Type 0
  FunctionsKept fs (ok fs') = (k : ℕ) → SameAt (get_elem? fs k) (get_elem? fs' k)
  FunctionsKept fs (fault e) = Unit

  module _ (new : L.Inst) (init : IsInit L new) where
    insert_at_entry-BlockKept :
        (block : List L.Inst) → BlockKept block (insert_at_entry L new block)
    unfolding insert_at_entry
    insert_at_entry-BlockKept [] = tt
    insert_at_entry-BlockKept (i ∷ rest) =
        go (L.is_phi i) (insert_at_entry L new rest) (insert_at_entry-BlockKept rest)
      where
        go :
            (b : Bool) (r : Result (List L.Inst))
            → BlockKept rest r
            → BlockKept
                (i ∷ rest)
                (if b then bind r (λ rest'. ok (i ∷ rest')) else ok (new ∷ (i ∷ rest)))
        go true (ok rest') h = there h
        go true (fault e) h = tt
        go false r h = here init

    call_at_entry-FunctionKept : (f : Function L) → FunctionKept f (call_at_entry new f)
    unfolding call_at_entry
    call_at_entry-FunctionKept f = go f.blocks refl
      where
        done :
            (entry : List L.Inst) (blocks : List (List L.Inst)) (r : Result (List L.Inst))
            → f.blocks ≡ entry ∷ blocks
            → BlockKept entry r
            → FunctionKept f (bind r (λ entry'. ok (record f { blocks = entry' ∷ blocks })))
        done entry blocks (ok entry') q h =
            (refl, subst (λ bs. AllKept bs (entry' ∷ blocks)) (sym q) (inr h, AllKept-refl blocks))
        done entry blocks (fault e) q h = tt

        go : (bs : List (List L.Inst)) → f.blocks ≡ bs → FunctionKept f (call_at_entry new f)
        go [] q = rw (q, call_at_entry) tt
        go (entry ∷ blocks) q =
            subst (FunctionKept f) (sym (opened q))
              (done entry blocks (insert_at_entry L new entry) q (insert_at_entry-BlockKept entry))
          where
            opened :
                f.blocks ≡ entry ∷ blocks
                → call_at_entry new f
                  ≡ bind
                      (insert_at_entry L new entry)
                      (λ entry'. ok (record f { blocks = entry' ∷ blocks }))
            opened e = rw (e, call_at_entry) refl

    call_in_main-FunctionsKept : (fs : List (Function L)) → FunctionsKept fs (call_in_main new fs)
    unfolding call_in_main
    call_in_main-FunctionsKept [] = λ k. tt
    call_in_main-FunctionsKept (f ∷ fs) =
        go (same f.name (codes "main")) (call_at_entry new f) (call_at_entry-FunctionKept f)
          (call_in_main new fs) (call_in_main-FunctionsKept fs)
      where
        cons :
            (f' : Function L) (fs' : List (Function L))
            → SameAt (some f) (some f')
            → ((k : ℕ) → SameAt (get_elem? fs k) (get_elem? fs' k))
            → (k : ℕ) → SameAt (get_elem? (f ∷ fs) k) (get_elem? (f' ∷ fs') k)
        cons f' fs' h hs zero = h
        cons f' fs' h hs (suc k) = hs k

        go :
            (b : Bool) (r : Result (Function L))
            → FunctionKept f r
            → (r' : Result (List (Function L))) → FunctionsKept fs r'
            → FunctionsKept
                (f ∷ fs)
                (if b then bind r (λ f'. ok (f' ∷ fs)) else bind r' (λ fs'. ok (f ∷ fs')))
        go true (ok f') h r' hs = cons f' fs h (λ k. SameAt-refl (get_elem? fs k))
        go true (fault e) h r' hs = tt
        go false r h (ok fs') hs = cons f fs' (refl, AllKept-refl f.blocks) hs
        go false r h (fault e) hs = tt

  -- The module keeps its name, and each function its name and the number of probes due.
  pub record IsKeptBy (m m' : Module L) : Type 0 where
    pub name : m'.name ≡ m.name
    pub functions : (k : ℕ) → SameAt (get_elem? m.functions k) (get_elem? m'.functions k)

  abbrev Initialized : Module L → Result (Hooks L × Module L) → Type 0
  Initialized m (ok (h, m')) = IsKeptBy m m'
  Initialized m (fault e) = Unit

module _ {L : Llvm} (R : Reading L) (law : IsLawful L) (faithful : IsFaithful L R) where
  initialization-Initialized : (m : Module L) → Initialized L m (initialization m)
  unfolding initialization
  initialization-Initialized m = go (has_main m.functions) refl
    where
      finish :
          (h : Hooks L) (w : L.World) (r : Result (List (Function L)))
          → FunctionsKept L m.functions r
          → Initialized L m (bind r (λ fs. ok (h, record m { functions = fs; world = w })))
      finish h w (ok fs) p = record { name = refl; functions = p }
      finish h w (fault e) p = tt

      go : (b : Bool) → has_main m.functions ≡ b → Initialized L m (initialization m)
      go true q =
          rw (q, initialization)
            (finish _ _ (call_in_main _ m.functions) (
              call_in_main-FunctionsKept L _
                (record {
                  is_call = law.call_opcode _ _ _;
                  calls_init =
                      law.call_function _ _ _ ∙ faithful.function_name _ _ _ (faithful.init_free _);
                })
                m.functions))
      go false q =
          rw (q, initialization)
            (record { name = refl; functions = λ k. SameAt-refl L (get_elem? m.functions k) })

  pub initialization-IsKeptBy :
      (m m' : Module L) (h : Hooks L) → initialization m ≡ ok (h, m') → IsKeptBy L m m'
  initialization-IsKeptBy m m' h e = subst (Initialized L m) e (initialization-Initialized m)

module _ (L : Llvm) where
  call_not_logged : (new : L.Inst) → L.opcode new ≡ call → is_logged L new ≡ false
  unfolding is_logged
  call_not_logged new e = elim (Bool-cases (has_line (L.debug_line new))) [
    | inl known ↦ rw (e, is_logged) (rw known refl)
    | inr missing ↦ rw (e, is_logged) (rw missing refl)
  ]

  log_count-Inserted :
      {block block' : List L.Inst}
      → Inserted L block block'
      → log_count L block' ≡ log_count L block
  unfolding log_count
  log_count-Inserted (here {new} init) = rw (call_not_logged new init.is_call) (omega arith)
  log_count-Inserted (there p) = rw (log_count-Inserted p) refl

  pub block_logs-AllKept :
      (bs bs' : List (List L.Inst)) → AllKept L bs bs' → block_logs L bs' ≡ block_logs L bs
  block_logs-AllKept [] [] p = refl
  block_logs-AllKept [] (b' ∷ bs') p = elim p [ ]
  block_logs-AllKept (b ∷ bs) [] p = elim p [ ]
  block_logs-AllKept (b ∷ bs) (b' ∷ bs') (inl e, ps) = rw (e, block_logs-AllKept bs bs' ps) refl
  block_logs-AllKept (b ∷ bs) (b' ∷ bs') (inr p, ps) =
      rw (log_count-Inserted p, block_logs-AllKept bs bs' ps) refl
