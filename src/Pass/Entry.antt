-- ===== src/Pass/Entry.antt =====
-- Where the call of `_init_` stands that `initialization` inserts: in the entry block of `main`,
-- behind the PHI nodes and before all else.
use mathlib.Core.Option.{some-injective}
use atomicity_violation.Base.{
  ◌≡◌, refl, sym, ◌∙◌, subst, Bool, Bool-cases, inl, inr, true, false, some, List, [], ◌∷◌, ap,
  codes, if◌then◌else◌, ℕ, zero, suc, get_elem?, set,
}
use atomicity_violation.Base.Result.{Result, ok, fault, bind}
use atomicity_violation.Text.{same}
use atomicity_violation.Llvm.{Llvm, IsLawful, call, other}
use atomicity_violation.Llvm.Reading.{Reading, IsFaithful}
use atomicity_violation.Pass.Defs.{Action, Hooks}
use atomicity_violation.Pass.Init.{
  Function, Module, insert_at_entry, call_at_entry, call_in_main, has_main, initialization,
}
use atomicity_violation.Pass.Walk.{Walked, prepend}
use atomicity_violation.Pass.Walk.Laws.{annotate, IsInert}

-- The instruction is a call of `_init_`.
pub record IsInit (L : Llvm) (new : L.Inst) : Type 0 where
  pub is_call : L.opcode new ≡ call
  pub calls_init : L.called_function new ≡ some (codes "_init_")

-- A PHI node has an opcode of its own.
pub record IsPhiApart (L : Llvm) : Type 0 where
  pub phi_opcode : (i : L.Inst) → L.is_phi i ≡ true → L.opcode i ≡ other

module _ (L : Llvm) where
  -- The first instruction that is no PHI node is a call of `_init_`.
  pub data Begins : List L.Inst → Type 0 where
    entered : {new : L.Inst} {rest : List L.Inst} → IsInit L new → Begins (new ∷ rest)
    behind_phi :
        {i : L.Inst} {rest : List L.Inst} → L.is_phi i ≡ true → Begins rest → Begins (i ∷ rest)

  abbrev pub EntryBegins : List (List L.Inst) → Type 0
  EntryBegins [] = ⊥
  EntryBegins (entry ∷ blocks) = Begins entry

  -- So does the first function called `main`, if there is one.
  pub data MainBegins : List (Function L) → Type 0 where
    no_main : MainBegins []
    here :
        {f : Function L} {fs : List (Function L)}
        → same f.name (codes "main") ≡ true
        → EntryBegins f.blocks
        → MainBegins (f ∷ fs)
    past :
        {f : Function L} {fs : List (Function L)}
        → same f.name (codes "main") ≡ false
        → MainBegins fs
        → MainBegins (f ∷ fs)

  -- A function that changes its blocks, but not that.
  pub set-MainBegins :
      {fs : List (Function L)} (k : ℕ) (f f' : Function L)
      → get_elem? fs k ≡ some f
      → f'.name ≡ f.name
      → (EntryBegins f.blocks → EntryBegins f'.blocks)
      → MainBegins fs
      → MainBegins (set fs k f')
  set-MainBegins k f f' e named keep no_main = no_main
  set-MainBegins zero f f' e named keep (here {f = g} q b) =
      let same_one : g ≡ f = some-injective g f e in
      here (ap (λ n. same n (codes "main")) (named ∙ sym (ap (λ x. x.name) same_one)) ∙ q)
        (keep (subst (λ x. EntryBegins x.blocks) same_one b))
  set-MainBegins zero f f' e named keep (past {f = g} q bs) =
      let same_one : g ≡ f = some-injective g f e in
      past (ap (λ n. same n (codes "main")) (named ∙ sym (ap (λ x. x.name) same_one)) ∙ q) bs
  set-MainBegins (suc k) f f' e named keep (here q b) = here q b
  set-MainBegins (suc k) f f' e named keep (past q bs) =
      past q (set-MainBegins k f f' e named keep bs)

  no_main-MainBegins : (fs : List (Function L)) → has_main fs ≡ false → MainBegins fs
  unfolding has_main
  no_main-MainBegins [] e = no_main
  no_main-MainBegins (f ∷ fs) e = elim (Bool-cases (same f.name (codes "main"))) [
    | inl q ↦ cc (rw q at e)
    | inr q ↦ past q (no_main-MainBegins fs (rw q at e))
  ]

  abbrev BlockBegins : Result (List L.Inst) → Type 0
  BlockBegins (ok block) = Begins block
  BlockBegins (fault e) = Unit

  abbrev FunctionBegins : Function L → Result (Function L) → Type 0
  FunctionBegins f (ok f') = (f'.name ≡ f.name) × EntryBegins f'.blocks
  FunctionBegins f (fault e) = Unit

  abbrev FunctionsBegin : Result (List (Function L)) → Type 0
  FunctionsBegin (ok fs) = MainBegins fs
  FunctionsBegin (fault e) = Unit

  module _ (new : L.Inst) (init : IsInit L new) where
    insert_at_entry-Begins : (block : List L.Inst) → BlockBegins (insert_at_entry L new block)
    unfolding insert_at_entry
    insert_at_entry-Begins [] = tt
    insert_at_entry-Begins (i ∷ rest) =
        go (L.is_phi i) refl (insert_at_entry L new rest) (insert_at_entry-Begins rest)
      where
        go :
            (b : Bool)
            → L.is_phi i ≡ b
            → (r : Result (List L.Inst)) → BlockBegins r
            → BlockBegins (if b then bind r (λ rest'. ok (i ∷ rest')) else ok (new ∷ (i ∷ rest)))
        go true q (ok rest') h = behind_phi q h
        go true q (fault e) h = tt
        go false q r h = entered init

    call_at_entry-Begins : (f : Function L) → FunctionBegins f (call_at_entry new f)
    unfolding call_at_entry
    call_at_entry-Begins f = go f.blocks refl
      where
        done :
            (blocks : List (List L.Inst)) (r : Result (List L.Inst))
            → BlockBegins r
            → FunctionBegins f (bind r (λ entry'. ok (record f { blocks = entry' ∷ blocks })))
        done blocks (ok entry') h = (refl, h)
        done blocks (fault e) h = tt

        go : (bs : List (List L.Inst)) → f.blocks ≡ bs → FunctionBegins f (call_at_entry new f)
        go [] q = rw (q, call_at_entry) tt
        go (entry ∷ blocks) q =
            rw (q, call_at_entry)
              (done blocks (insert_at_entry L new entry) (insert_at_entry-Begins entry))

    call_in_main-Begin : (fs : List (Function L)) → FunctionsBegin (call_in_main new fs)
    unfolding call_in_main
    call_in_main-Begin [] = no_main
    call_in_main-Begin (f ∷ fs) =
        go (same f.name (codes "main")) refl (call_at_entry new f) (call_at_entry-Begins f)
          (call_in_main new fs) (call_in_main-Begin fs)
      where
        go :
            (b : Bool)
            → same f.name (codes "main") ≡ b
            → (r : Result (Function L)) → FunctionBegins f r
            → (r' : Result (List (Function L))) → FunctionsBegin r'
            → FunctionsBegin
                (if b then bind r (λ f'. ok (f' ∷ fs)) else bind r' (λ fs'. ok (f ∷ fs')))
        go true q (ok f') (named, h) r' h' = here (ap (λ n. same n (codes "main")) named ∙ q) h
        go true q (fault e) h r' h' = tt
        go false q r h (ok fs') h' = past q h'
        go false q r h (fault e) h' = tt

module _ {L : Llvm} (R : Reading L) (law : IsLawful L) (faithful : IsFaithful L R) where
  abbrev InitBegins : Result (Hooks L × Module L) → Type 0
  InitBegins (ok (h, m)) = MainBegins L m.functions
  InitBegins (fault e) = Unit

  initialization-InitBegins : (m : Module L) → InitBegins (initialization m)
  unfolding initialization
  initialization-InitBegins m = go (has_main m.functions) refl
    where
      finish :
          (h : Hooks L) (w : L.World) (r : Result (List (Function L)))
          → FunctionsBegin L r
          → InitBegins (bind r (λ fs. ok (h, record m { functions = fs; world = w })))
      finish h w (ok fs) p = p
      finish h w (fault e) p = tt

      go : (b : Bool) → has_main m.functions ≡ b → InitBegins (initialization m)
      go true q =
          rw (q, initialization)
            (finish _ _ (call_in_main _ m.functions) (
              call_in_main-Begin L _
                (record {
                  is_call = law.call_opcode _ _ _;
                  calls_init =
                      law.call_function _ _ _ ∙ faithful.function_name _ _ _ (faithful.init_free _);
                })
                m.functions))
      go false q = rw (q, initialization) (no_main-MainBegins L m.functions q)

  pub initialization-MainBegins :
      (m m' : Module L) (h : Hooks L) → initialization m ≡ ok (h, m') → MainBegins L m'.functions
  initialization-MainBegins m m' h e = subst InitBegins e (initialization-InitBegins m)

abbrev pub WalkBegins : (L : Llvm) → Result (List L.Inst × L.World) → Type 0
WalkBegins L (ok (block, w)) = Begins L block
WalkBegins L (fault e) = Unit

abbrev pub BlocksBegin : (L : Llvm) → Result (List (List L.Inst) × L.World) → Type 0
BlocksBegin L (ok (bs, w)) = EntryBegins L bs
BlocksBegin L (fault e) = Unit

-- The blocks behind the entry block do not matter.
pub cons-BlocksBegin :
    (L : Llvm) (r : Result (List L.Inst × L.World))
    (others : L.World → Result (List (List L.Inst) × L.World))
    → WalkBegins L r
    → BlocksBegin L (bind r (λ (b', w'). bind (others w') (λ (bs', w''). ok (b' ∷ bs', w''))))
cons-BlocksBegin L (fault e) others p = tt
cons-BlocksBegin L (ok (entry, w)) others p = go (others w)
  where
    go :
        (r : Result (List (List L.Inst) × L.World))
        → BlocksBegin L (bind r (λ (bs', w''). ok (entry ∷ bs', w'')))
    go (ok (bs', w'')) = p
    go (fault e) = tt

module _ {L : Llvm} (handle : L.Inst → L.World → Result (Action L)) (apart : IsPhiApart L)
    (others_inert : (i : L.Inst) → L.opcode i ≡ other → IsInert handle i)
    (init_inert : (i : L.Inst) → IsInit L i → IsInert handle i) where
  pub annotate-Begins :
      {block : List L.Inst} (w : L.World) → Begins L block → WalkBegins L (annotate handle block w)
  unfolding annotate
  annotate-Begins w (entered {new} {rest} init) =
      rw (init_inert new init w, annotate) (go (annotate handle rest w))
    where
      go : (r : Walked handle) → WalkBegins L (prepend handle (new ∷ []) r)
      go (ok (block, w')) = entered init
      go (fault e) = tt
  annotate-Begins w (behind_phi {i} {rest} phi b) =
      rw (others_inert i (apart.phi_opcode i phi) w, annotate)
        (go (annotate handle rest w) (annotate-Begins w b))
    where
      go : (r : Walked handle) → WalkBegins L r → WalkBegins L (prepend handle (i ∷ []) r)
      go (ok (block, w')) h = behind_phi phi h
      go (fault e) h = tt
