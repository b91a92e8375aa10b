-- ===== src/Plugin.antt =====
-- The registration of the pass with LLVM: lines 504 to 525 of HelloWorld/HelloWorld.cpp, which
-- lines 333 to 354 of HelloWorld/function.cpp repeat.
pub mod Laws
use atomicity_violation.Base.{
  ℕ, ◌≡◌, Bool, true, false, Option, none, some, List, [], ◌∷◌, ◌++◌, Bytes, codes, if◌then◌else◌,
}
use atomicity_violation.Text.{same}
use atomicity_violation.Llvm.{Llvm}
use atomicity_violation.Pass.Init.{State, fresh}

-- What the plugin uses of LLVM: `FunctionPassManager`, `PassBuilder`, and the parsing of an element
-- of a pipeline, which is `none` for a name that is not known.
pub record PassApi (L : Llvm) : Type 1 where
  pub Manager : Type 0
  pub Builder : Type 0
  pub passes : Manager → List (State L)
  pub add_pass : Manager → State L → Manager
  pub register_callback : Builder → (Bytes → Manager → Bool × Manager) → Builder
  pub parse : Builder → Bytes → Manager → Option Manager

-- What a callback makes of a name that is not known.
abbrev pub if_accepted : {A : Type 0} → Bool × A → Option A
if_accepted (true, a) = some a
if_accepted (false, a) = none

abbrev pub or_else : {A : Type 0} → Option A → Option A → Option A
or_else (some a) o = some a
or_else none o = o

-- The documented behaviour: a pass is added behind the others, and the callbacks are tried in the
-- order of their registration, behind the names that were known before.
pub record IsPassApi {L : Llvm} (P : PassApi L) : Type 0 where
  pub passes_add :
      (fpm : P.Manager) (st : State L) → P.passes (P.add_pass fpm st) ≡ P.passes fpm ++ (st ∷ [])
  pub parse_registered :
      (pb : P.Builder) (callback : Bytes → P.Manager → Bool × P.Manager) (name : Bytes)
      (fpm : P.Manager)
      → P.parse (P.register_callback pb callback) name fpm
        ≡ or_else (P.parse pb name fpm) (if_accepted (callback name fpm))

-- `llvm::PassPluginLibraryInfo`
pub record PluginInfo (B : Type 0) : Type 0 where
  pub api_version : ℕ
  pub plugin_name : Bytes
  pub plugin_version : Bytes
  pub register_callbacks : B → B

module _ {L : Llvm} (P : PassApi L) where
  -- The callback that is registered.
  unfoldable pub parse_element : Bytes → P.Manager → Bool × P.Manager
  unfolding same
  parse_element name fpm =
      if same name (codes "hello-world") then (true, P.add_pass fpm (fresh L)) else (false, fpm)

  -- The versions are those of the LLVM that the plugin is built with.
  unfoldable pub get_hello_world_plugin_info : ℕ → Bytes → PluginInfo P.Builder
  unfolding parse_element
  get_hello_world_plugin_info api_version llvm_version = record {
    api_version = api_version;
    plugin_name = codes "HelloWorld";
    plugin_version = llvm_version;
    register_callbacks = λ pb. P.register_callback pb parse_element;
  }

  unfoldable pub llvm_get_pass_plugin_info : ℕ → Bytes → PluginInfo P.Builder
  unfolding get_hello_world_plugin_info
  llvm_get_pass_plugin_info = get_hello_world_plugin_info
