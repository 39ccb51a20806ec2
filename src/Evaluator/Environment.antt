-- ===== src/Evaluator/Environment.antt =====
-- rex-engine/src/env.rs: the environments of the evaluator, chains of scopes that end in one without a
-- parent. The `BTreeMap` of a scope is a list of bindings. `to_scoped_environment` copies it entry by
-- entry, as the code does; in `entries`, which collects a map from the same entries, the copy is left out.
pub mod Laws
use rex.Prelude.{
  List, [], ◌∷◌, ◌++◌, Option, none, some, String, Bool, true, false, if◌then◌else◌, map,
}
use text.Mathlib.Text.{◌==◌ as str_eq}
use mathlib.Core.List.{reverse}
use rex.Evaluator.SortedMap.{put_all}

abbrev pub Bindings : Type 0 → Type 0
Bindings P = List (String × P)

-- Both kinds of environment: `first` has no parent.
pub data Environment (P : Type 0) : Type 0 where
  first : Bindings P → Environment P
  scope : Environment P → Bindings P → Environment P

module _ {P : Type 0} where
  unfoldable pub binding : String → Bindings P → Option P
  binding name [] = none
  binding name ((n, value) ∷ rest) = if str_eq n name then some value else binding name rest

  unfoldable pub or_else : Option P → Option P → Option P
  or_else (some value) rest = some value
  or_else none rest = rest

  unfoldable pub new : Environment P
  new = first []

  unfoldable pub entries : Environment P → List (Bindings P)
  entries (first bindings) = bindings ∷ []
  entries (scope parent bindings) = bindings ∷ entries parent

  unfoldable pub visit_values : Environment P → List P
  visit_values (first bindings) = map (λ b. b.1) bindings
  visit_values (scope parent bindings) = map (λ b. b.1) bindings ++ visit_values parent

  unfoldable pub extend : String → P → Environment P → Environment P
  extend name value env = scope env ((name, value) ∷ [])

  unfoldable pub extend_many : Bindings P → Environment P → Environment P
  extend_many bindings env = scope env bindings

  unfoldable pub get : String → Environment P → Option P
  unfolding binding or_else
  get name (first bindings) = or_else (binding name bindings) none
  get name (scope parent bindings) = or_else (binding name bindings) (get name parent)

  unfoldable pub contains : String → Environment P → Bool
  unfolding binding
  contains name (first bindings) = elim (binding name bindings) [ some value ↦ true | none ↦ false ]
  contains name (scope parent bindings) = elim (binding name bindings) [
    | some value ↦ true
    | none ↦ contains name parent
  ]

  -- The scope that the loop of `from_entries` puts around what it has built.
  unfoldable pub around : Option (Environment P) → Bindings P → Environment P
  around none bindings = first bindings
  around (some env) bindings = scope env bindings

  unfoldable pub rebuild : List (Bindings P) → Option (Environment P) → Option (Environment P)
  unfolding around
  rebuild [] rebuilt = rebuilt
  rebuild (bindings ∷ rest) rebuilt = rebuild rest (some (around rebuilt bindings))

  unfoldable pub unwrap_or_new : Option (Environment P) → Environment P
  unfolding new
  unwrap_or_new none = new
  unwrap_or_new (some env) = env

  unfoldable pub from_entries : List (Bindings P) → Environment P
  unfolding rebuild unwrap_or_new
  from_entries all = unwrap_or_new (rebuild (reverse all) none)

  -- The scopes of a `RootedEnvironment`, each copied entry by entry into a new map.
  unfoldable pub copied_scopes : Environment P → List (Bindings P)
  unfolding put_all
  copied_scopes (first bindings) = put_all bindings [] ∷ []
  copied_scopes (scope parent bindings) = put_all bindings [] ∷ copied_scopes parent

  -- From a `RootedEnvironment` to a `ScopedEnvironment`.
  unfoldable pub to_scoped_environment : Environment P → Environment P
  unfolding copied_scopes from_entries
  to_scoped_environment env = from_entries (copied_scopes env)
