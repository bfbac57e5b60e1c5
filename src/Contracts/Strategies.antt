-- ===== src/Contracts/Strategies.antt =====
-- packages/contracts/src/build-strategies.js: how a project may be built, and where its sources lie
-- in the repository. A project id is the number that its hex digits write.
pub mod Roots
use hello_deploy.Prelude.{
  ℕ, Bool, true, false, ◌&&◌, ◌||◌, not, ltb, leb, ◌==◌, if◌then◌else◌, Option, none, some, List,
  [], ◌∷◌, any, length, includes, ℕ_eq, Eq, ◌≡◌, ◌↔◌, arith, Text, text_eq, starts_with, has_piece,
  codes,
}
use hello_deploy.Contracts.Enums.{RuntimeType, nextjs, python, php, java, container}

pub data BuildStrategy : Type 0 where
  legacy_generated next_standard_v1 next_standalone_v1 next_export_v1 python_flask_v1
        python_fastapi_v1 python_django_v1 php_plain_v1 php_laravel_v1 java_maven_v1 java_gradle_v1
        dockerfile_v1 oci_image_v1 :
      BuildStrategy

-- The place of a strategy in the list.
abbrev pub index : BuildStrategy → ℕ
index legacy_generated = 0
index next_standard_v1 = 1
index next_standalone_v1 = 2
index next_export_v1 = 3
index python_flask_v1 = 4
index python_fastapi_v1 = 5
index python_django_v1 = 6
index php_plain_v1 = 7
index php_laravel_v1 = 8
index java_maven_v1 = 9
index java_gradle_v1 = 10
index dockerfile_v1 = 11
index oci_image_v1 = 12

abbrev pub strategy_eq : BuildStrategy → BuildStrategy → Bool
strategy_eq a b = index a == index b

pub strategy_eq_iff : (a b : BuildStrategy) → (strategy_eq a b ≡ true) ↔ (a ≡ b)
strategy_eq_iff a b = ground arith

instance abbrev pub BuildStrategy-eq : Eq BuildStrategy
BuildStrategy-eq = record { beq = strategy_eq; beq_iff = strategy_eq_iff }

abbrev pub next_build_strategies : List BuildStrategy
next_build_strategies = next_standard_v1 ∷ next_standalone_v1 ∷ next_export_v1 ∷ []

abbrev pub python_build_strategies : List BuildStrategy
python_build_strategies = python_flask_v1 ∷ python_fastapi_v1 ∷ python_django_v1 ∷ []

abbrev pub php_build_strategies : List BuildStrategy
php_build_strategies = php_plain_v1 ∷ php_laravel_v1 ∷ []

abbrev pub java_build_strategies : List BuildStrategy
java_build_strategies = java_maven_v1 ∷ java_gradle_v1 ∷ []

abbrev pub container_build_strategies : List BuildStrategy
container_build_strategies = dockerfile_v1 ∷ oci_image_v1 ∷ []

unfoldable pub is_next_build_strategy : BuildStrategy → Bool
is_next_build_strategy value = includes next_build_strategies value

unfoldable pub is_python_build_strategy : BuildStrategy → Bool
is_python_build_strategy value = includes python_build_strategies value

unfoldable pub is_php_build_strategy : BuildStrategy → Bool
is_php_build_strategy value = includes php_build_strategies value

unfoldable pub is_java_build_strategy : BuildStrategy → Bool
is_java_build_strategy value = includes java_build_strategies value

unfoldable pub is_container_build_strategy : BuildStrategy → Bool
is_container_build_strategy value = includes container_build_strategies value

unfoldable pub get_build_strategy_runtime : BuildStrategy → Option RuntimeType
unfolding is_next_build_strategy is_python_build_strategy is_php_build_strategy
    is_java_build_strategy is_container_build_strategy
get_build_strategy_runtime s =
    if is_next_build_strategy s
    then some nextjs
    else if is_python_build_strategy s
    then some python
    else if is_php_build_strategy s
    then some php
    else if is_java_build_strategy s
    then some java
    else if is_container_build_strategy s
    then some container
    else none

pub record Pilot : Type 0 where
  pub enabled : Bool
  pub project_ids : List ℕ

pub record Pilots : Type 0 where
  pub next : Option Pilot
  pub python : Option Pilot
  pub php : Option Pilot
  pub java : Option Pilot
  pub dockerfile : Option Pilot
  pub oci : Option Pilot

abbrev pub pilot_of : Pilots → BuildStrategy → Option Pilot
pilot_of pilots s =
    if is_next_build_strategy s
    then pilots.next
    else if is_python_build_strategy s
    then pilots.python
    else if is_php_build_strategy s
    then pilots.php
    else if is_java_build_strategy s
    then pilots.java
    else if strategy_eq s dockerfile_v1
    then pilots.dockerfile
    else if strategy_eq s oci_image_v1
    then pilots.oci
    else none

abbrev pub allows : Option Pilot → ℕ → Bool
allows none project = false
allows (some pilot) project = pilot.enabled && includes pilot.project_ids project

-- `isPilotStrategyEnabledFor`; a strategy that is not set is `none`.
unfoldable pub is_pilot_strategy_enabled_for : Option BuildStrategy → ℕ → Pilots → Bool
is_pilot_strategy_enabled_for none project pilots = true
is_pilot_strategy_enabled_for (some s) project pilots =
    if strategy_eq s legacy_generated then true else allows (pilot_of pilots s) project

-- The messages of `validateApplicationRoot` for a string.
pub data RootError : Type 0 where
  bad_length not_posix not_normalized has_traversal : RootError

-- `/[\u0000-\u001f\u007f\\]/`
abbrev pub is_forbidden : ℕ → Bool
is_forbidden c = leb c 31 || c == 127 || c == 92

abbrev slash : ℕ
slash = b'/'

abbrev pub ends_with_slash : Text → Bool
ends_with_slash [] = false
ends_with_slash (c ∷ []) = c == slash
ends_with_slash (c ∷ d ∷ ds) = ends_with_slash (d ∷ ds)

abbrev pub add_unit : ℕ → List Text → List Text
add_unit c [] = (c ∷ []) ∷ []
add_unit c (s ∷ ss) = (c ∷ s) ∷ ss

-- `value.split('/')`
unfoldable pub split : Text → List Text
split [] = [] ∷ []
split (c ∷ cs) = let rest = split cs in if c == slash then [] ∷ rest else add_unit c rest

abbrev pub is_dot : Text → Bool
is_dot s = text_eq s (codes ".")

abbrev pub is_dot_dot : Text → Bool
is_dot_dot s = text_eq s (codes "..")

abbrev pub is_redundant : Text → Bool
is_redundant s = text_eq s [] || is_dot s || is_dot_dot s

-- `validateApplicationRoot` of a string; `null` is `none`.
unfoldable pub validate_application_root : Text → Option RootError
validate_application_root value =
    if length value == 0 || ltb 255 (length value)
    then some bad_length
    else if any is_forbidden value
    then some not_posix
    else if starts_with value (codes "/") || ends_with_slash value || has_piece value (codes "//")
    then some not_normalized
    else if is_dot value
    then none
    else if any is_redundant (split value)
    then some has_traversal
    else none
