-- ===== src/Events/Types.antt =====
-- The callees that `initialization` declares, and the types of what the inserted calls pass.
use atomicity_violation.Base.{◌≡◌, refl, subst, Bool, true, false, List}
use atomicity_violation.Base.Result.{Result, ok, fault, bind}
use atomicity_violation.Llvm.{Llvm}
use atomicity_violation.Llvm.Reading.{Reading, IsFaithful}
use atomicity_violation.Pass.{Hooks}
use atomicity_violation.Pass.Init.{Function, Module, initialization, call_in_main, has_main}
use atomicity_violation.Events.Probes.{IsReady}

module _ {L : Llvm} (R : Reading L) (faithful : IsFaithful L R) where
  abbrev Readies : Result (Hooks L × Module L) → Type 0
  Readies (ok (h, m)) = IsReady L h
  Readies (fault e) = Unit

  initialization-Readies : (m : Module L) → Readies (initialization m)
  unfolding initialization
  initialization-Readies m = go (has_main m.functions) refl
    where
      finish :
          (h : Hooks L) (w : L.World) (r : Result (List (Function L)))
          → IsReady L h
          → Readies (bind r (λ fs. ok (h, record m { functions = fs; world = w })))
      finish h w (ok fs) p = p
      finish h w (fault e) p = tt

      go : (b : Bool) → has_main m.functions ≡ b → Readies (initialization m)
      go true q =
          rw (q, initialization)
            (finish _ _ (call_in_main _ m.functions) (record {
              int_ty = refl;
              ptr_ty = refl;
              p_init = faithful.function_name _ _ _ (faithful.init_free _);
              p_probe = faithful.function_name _ _ _ (faithful.probe_free _);
              p_probe_lock = faithful.function_name _ _ _ (faithful.probe_lock_free _);
            }))
      go false q =
          rw (q, initialization)
            (record {
              int_ty = refl;
              ptr_ty = refl;
              p_init = faithful.function_name _ _ _ (faithful.init_free _);
              p_probe = faithful.function_name _ _ _ (faithful.probe_free _);
              p_probe_lock = faithful.function_name _ _ _ (faithful.probe_lock_free _);
            })

  -- If LLVM behaves as documented, an `initialization` that ends without a fault sets the members
  -- that the handlers read: the types of 32-bit integers and of byte pointers, and callees that
  -- call `_init_`, `_probe_` and `_probe_lock_`.
  pub initialization-IsReady :
      (m m' : Module L) (h : Hooks L) → initialization m ≡ ok (h, m') → IsReady L h
  initialization-IsReady m m' h e = subst Readies e (initialization-Readies m)
