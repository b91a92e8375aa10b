-- ===== src/Tests/Plugins.antt =====
-- A pass builder that tries its callbacks in order, and the plugin in it.
use atomicity_violation.Base.{
  ◌≡◌, refl, Bool, Option, none, some, List, [], ◌∷◌, ◌++◌, Bytes, codes,
}
use atomicity_violation.Pass.Init.{State, fresh}
use atomicity_violation.Plugin.{PassApi, IsPassApi, if_accepted, or_else, llvm_get_pass_plugin_info}
use atomicity_violation.Plugin.Laws.{IsExtended, load-IsExtended}
use atomicity_violation.Tests.Sample.{small, later}

abbrev Callback : Type 0
Callback = Bytes → List (State small) → Bool × List (State small)

abbrev try : List Callback → Bytes → List (State small) → Option (List (State small))
try [] name fpm = none
try (c ∷ cs) name fpm = or_else (if_accepted (c name fpm)) (try cs name fpm)

abbrev api : PassApi small
api = record {
  Manager = List (State small);
  Builder = List Callback;
  passes = λ fpm. fpm;
  add_pass = λ fpm st. fpm ++ (st ∷ []);
  register_callback = λ pb callback. pb ++ (callback ∷ []);
  parse = try;
}

or_else-none : {A : Type 0} (o : Option A) → or_else o none ≡ o
or_else-none none = refl
or_else-none (some a) = refl

or_else_assoc : {A : Type 0} (o p q : Option A) → or_else o (or_else p q) ≡ or_else (or_else o p) q
or_else_assoc none p q = refl
or_else_assoc (some a) p q = refl

try-append :
    (pb : List Callback) (callback : Callback) (name : Bytes) (fpm : List (State small))
    → try (pb ++ (callback ∷ [])) name fpm
      ≡ or_else (try pb name fpm) (if_accepted (callback name fpm))
try-append [] callback name fpm = or_else-none (if_accepted (callback name fpm))
try-append (c ∷ cs) callback name fpm =
    rw (try-append cs callback name fpm)
      (or_else_assoc (if_accepted (c name fpm)) (try cs name fpm) (if_accepted (callback name fpm)))

api-IsPassApi : IsPassApi api
api-IsPassApi = record { passes_add = λ fpm st. refl; parse_registered = try-append }

loaded :
    try
      ((llvm_get_pass_plugin_info api 1 (codes "13.0.0")).register_callbacks [])
      (codes "hello-world")
      (later ∷ [])
    ≡ some (later ∷ (fresh small ∷ []))
unfolding llvm_get_pass_plugin_info
loaded = refl

load-IsExtended_example :
    IsExtended api
      ((llvm_get_pass_plugin_info api 1 (codes "13.0.0")).register_callbacks)
      []
      ((llvm_get_pass_plugin_info api 1 (codes "13.0.0")).register_callbacks [])
load-IsExtended_example = load-IsExtended api api-IsPassApi 1 (codes "13.0.0") []
