-- ===== src/Events/Emits.antt =====
-- Which probes the builder computations insert: one rule for each way to build one.
use atomicity_violation.Base.{
  ℕ, ◌≡◌, refl, sym, ◌∙◌, ap, subst, Option, none, some, List, [], ◌∷◌, ◌++◌, append-nil, Bytes,
  Bool, true, false, if◌then◌else◌,
}
use atomicity_violation.Base.Result.{
  bad_cast, no_field, Fault, Result, ok, fault, bind, need, pure, ◌>>=◌,
}
use atomicity_violation.Llvm.{Llvm, IsLawful}
use atomicity_violation.Llvm.Builder
use atomicity_violation.Llvm.Builder.{test, Builder, Build}
use atomicity_violation.Llvm.Reading.{loaded, field, Reading, IsFaithful}
use atomicity_violation.Events.Seen.{Event, read_call, seen_at, seen, seen-append, seen-other}

module _ {L : Llvm} (R : Reading L) where
  -- A result that satisfies `P`, after more instructions in which `es` is seen; or a fault.
  abbrev pub Post :
      {A : Type 0} → List (Event L) → (A → Type 0) → Builder L → Result (A × Builder L) → Type 0
  Post es P b (ok (a, b')) = (seen R b'.inserted ≡ seen R b.inserted ++ es) × P a
  Post es P b (fault e) = Unit

  pub record Emits {A : Type 0} (es : List (Event L)) (P : A → Type 0) (m : Build L A)
      : Type 0 where
    pub each : (b : Builder L) → Post es P b (m b)

  pub Emits-cong :
      {A : Type 0} {P : A → Type 0} {es es' : List (Event L)} {m : Build L A}
      → es ≡ es'
      → Emits es P m
      → Emits es' P m
  Emits-cong {P} {m} e h = subst (λ xs. Emits xs P m) e h

  pub Emits-pure : Emits [] (λ _. Unit) (pure {S = Builder L} tt)
  Emits-pure = record { each = λ b. (sym (append-nil _), tt) }

  pub Emits-need :
      {A : Type 0} (e : Fault) (o : Option A)
      → Emits [] (λ a. o ≡ some a) (need {S = Builder L} e o)
  Emits-need e none = record { each = λ b. tt }
  Emits-need e (some a) = record { each = λ b. (sym (append-nil _), refl) }

  -- A test before a computation, or else another test.
  pub Emits-if :
      {A : Type 0} {P : A → Type 0} {es es' : List (Event L)} (c : Bool) {m m' : Build L A}
      → Emits es P m
      → Emits es' P m'
      → Emits (if c then es else es') P (if c then m else m')
  Emits-if true h k = h
  Emits-if false h k = k

  Post-bind :
      {A B : Type 0} {P : A → Type 0} {Q : B → Type 0} (es : List (Event L)) (b : Builder L)
      (r : Result (A × Builder L)) (f : A → Build L B)
      → Post [] P b r
      → ((a : A) → P a → Emits es Q (f a))
      → Post es Q b (bind r (λ (a, b'). f a b'))
  Post-bind es b (fault e) f h k = tt
  Post-bind {B} {Q} es b (ok (a, b')) f (none_seen, p) k = go (f a b') ((k a p).each b')
    where
      go : (q : Result (B × Builder L)) → Post es Q b' q → Post es Q b q
      go (ok (c, b'')) (e, q) =
          (e ∙ ap (λ xs. xs ++ es) (none_seen ∙ append-nil (seen R b.inserted)), q)
      go (fault e) q = tt

  -- A step in which nothing is seen, then one in which `es` is.
  pub Emits-bind :
      {A B : Type 0} {P : A → Type 0} {Q : B → Type 0} (es : List (Event L)) (m : Build L A)
      (f : A → Build L B)
      → Emits [] P m
      → ((a : A) → P a → Emits es Q (f a))
      → Emits es Q (m >>= f)
  Emits-bind es m f h k = record { each = λ b. Post-bind es b (m b) f (h.each b) k }

  module _ (law : IsLawful L) (faithful : IsFaithful L R) where
    pub Emits-global_string :
        (s : Bytes)
        → Emits []
            (λ v. (R.text_of v ≡ some s) × (L.type_of v ≡ L.int8_ptr_ty))
            (Builder.global_string {L = L} s)
    Emits-global_string s = record {
      each = λ b. (sym (append-nil _), (faithful.text_of b.world s, faithful.text_type b.world s));
    }

    quiet : (xs new : List L.Inst) → seen R new ≡ [] → seen R (xs ++ new) ≡ seen R xs ++ []
    quiet xs new e = seen-append R xs new ∙ ap (λ es. seen R xs ++ es) e

    Emits-cast :
        (v : L.Value) (t : L.Ty)
        → Emits [] (λ c. (R.origin c ≡ R.origin v) × (L.type_of c ≡ t)) (Builder.cast {L = L} v t)
    Emits-cast v t = record {
      each = λ b. (
        quiet b.inserted _ (seen-other R _ (law.bitcast_opcode b.world v t)),
        (faithful.origin_cast b.world v t, faithful.cast_type b.world v t),
      );
    }

    pub Emits-bitcast :
        (v : L.Value) (t : L.Ty)
        → Emits []
            (λ c. (R.origin c ≡ R.origin v) × (L.type_of c ≡ t))
            (Builder.bitcast {L = L} v t)
    Emits-bitcast v t =
        Emits-bind [] _ (λ _. Builder.cast {L = L} v t)
          (Emits-need bad_cast (test (L.is_castable (L.type_of v) t))) λ _ _. Emits-cast v t

    Emits-field_address :
        (t : L.Ty) (v : L.Value) (n : ℕ)
        → Emits [] (λ p. R.origin p ≡ field n (R.origin v)) (Builder.field_address {L = L} t v n)
    Emits-field_address t v n = record {
      each = λ b. (
        quiet b.inserted _ (seen-other R _ (law.struct_gep_opcode b.world t v n)),
        faithful.origin_field b.world t v n,
      );
    }

    pub Emits-struct_gep :
        (t : L.Ty) (v : L.Value) (n : ℕ)
        → Emits [] (λ p. R.origin p ≡ field n (R.origin v)) (Builder.struct_gep {L = L} t v n)
    Emits-struct_gep t v n =
        Emits-bind [] _ (λ _. Builder.field_address {L = L} t v n)
          (Emits-need no_field (L.field_type t n)) λ _ _. Emits-field_address t v n

    seen-load : (w : L.World) (t : L.Ty) (p : L.Value) → seen R ((L.create_load w t p).1 ∷ []) ≡ []
    unfolding seen_at
    seen-load w t p = rw (law.load_opcode w t p, seen_at) refl

    pub Emits-load :
        (t : L.Ty) (p : L.Value)
        → Emits [] (λ v. R.origin v ≡ loaded (R.origin p)) (Builder.load {L = L} t p)
    Emits-load t p = record {
      each = λ b. (quiet b.inserted _ (seen-load b.world t p), faithful.origin_load b.world t p);
    }

    seen-create_call :
        (w : L.World) (f : L.Callee) (args : List L.Value)
        → seen_at R (L.create_call w f args).0 ≡ read_call R (L.callee_name f) args
    unfolding seen_at
    seen-create_call w f args =
        rw (law.call_opcode w f args, seen_at)
          (rw (law.call_function w f args, faithful.call_arguments w f args) refl)

    pub Emits-call :
        (f : L.Callee) (args : List L.Value) (es : List (Event L))
        → read_call R (L.callee_name f) args ≡ es
        → Emits es (λ _. Unit) (Builder.call f args)
    Emits-call f args es e = record {
      each = λ b. (
        seen-append R b.inserted ((L.create_call b.world f args).0 ∷ [])
            ∙ ap (λ more. seen R b.inserted ++ more)
                (append-nil _ ∙ seen-create_call b.world f args ∙ e),
        tt,
      );
    }
