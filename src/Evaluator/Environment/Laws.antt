-- ===== src/Evaluator/Environment/Laws.antt =====
-- rex-engine/src/env.rs: taking an environment apart and building it again, and how names are looked
-- up in it.
use rex.Prelude.{
  inl, inr, List, [], ◌∷◌, Option, none, some, Option-cases, Bool-cases, true, false, String, map,
  ◌≡◌, refl, sym, ap, ◌∙◌, arith,
}
use text.Mathlib.Text.{◌==◌ as str_eq}
use mathlib.Core.List.{reverse, reverse_aux, Memᴰ}
use mathlib.Core.List.Memᴰ
use mathlib.Core.List.Memᴰ.{head, tail}
use rex.Evaluator.Environment.{
  Bindings, Environment, first, scope, binding, or_else, new, entries, visit_values, get, contains,
  around, rebuild, unwrap_or_new, from_entries, copied_scopes, to_scoped_environment,
}
use rex.Evaluator.SortedMap.Laws.{Ascends, put_all-Ascends}

module _ {P : Type 0} where
  rebuild-reverse_aux :
      (xs ys : List (Bindings P)) (rebuilt : Option (Environment P))
      → rebuild (reverse_aux xs ys) rebuilt ≡ rebuild ys (rebuild (reverse_aux xs []) rebuilt)
  unfolding rebuild
  rebuild-reverse_aux [] ys rebuilt = refl
  rebuild-reverse_aux (x ∷ xs) ys rebuilt =
      rebuild-reverse_aux xs (x ∷ ys) rebuilt
      ∙ ap (rebuild ys) (sym (rebuild-reverse_aux xs (x ∷ []) rebuilt))

  rebuild-entries : (env : Environment P) → rebuild (reverse (entries env)) none ≡ some env
  unfolding rebuild entries around
  rebuild-entries (first bindings) = refl
  rebuild-entries (scope parent bindings) =
      rebuild-reverse_aux (entries parent) (bindings ∷ []) none
      ∙ ap (λ r. some (around r bindings)) (rebuild-entries parent)

  -- Every scope is a map: its bindings are in the order of their names, and no name has two.
  abbrev pub AllAscend : Environment P → Type 0
  AllAscend (first bindings) = Ascends [] bindings
  AllAscend (scope parent bindings) = Ascends [] bindings × AllAscend parent

  copied_scopes-entries : (env : Environment P) → AllAscend env → copied_scopes env ≡ entries env
  unfolding copied_scopes entries
  copied_scopes-entries (first bindings) maps = ap (λ b. b ∷ []) (put_all-Ascends bindings [] maps)
  copied_scopes-entries (scope parent bindings) maps =
      ap (λ b. b ∷ copied_scopes parent) (put_all-Ascends bindings [] maps.0)
      ∙ ap (λ bs. bindings ∷ bs) (copied_scopes-entries parent maps.1)

  -- Copying a rooted environment for the evaluator, whose scopes have their bindings in the order of
  -- the names, without two for a name: putting the bindings of each scope into a new map, one by one,
  -- and building the chain of scopes up again gives the same chain of scopes with the same bindings.
  pub to_scoped_environment_lem :
      (env : Environment P) → AllAscend env → to_scoped_environment env ≡ env
  unfolding to_scoped_environment from_entries unwrap_or_new
  to_scoped_environment_lem env maps =
      ap (λ all. unwrap_or_new (rebuild (reverse all) none)) (copied_scopes-entries env maps)
      ∙ ap unwrap_or_new (rebuild-entries env)

  entries-rebuild :
      (b : Bindings P) (bs : List (Bindings P))
      → (env : Environment P) × (rebuild (reverse (b ∷ bs)) none ≡ some env)
        × (entries env ≡ b ∷ bs)
  unfolding rebuild entries around
  entries-rebuild b [] = (first b, refl, refl)
  entries-rebuild b (c ∷ cs) =
      let (env, built, same) = entries-rebuild c cs in
      (
        scope env b,
        rebuild-reverse_aux (c ∷ cs) (b ∷ []) none ∙ ap (λ r. some (around r b)) built,
        ap (λ es. b ∷ es) same,
      )

  -- Building an environment from a list of scopes and listing its scopes gives the list back, except
  -- that the empty list gives one scope without bindings.
  pub entries-from_entries :
      (all : List (Bindings P))
      → entries (from_entries all) ≡ (elim all [ [] ↦ [] ∷ [] | b ∷ bs ↦ b ∷ bs ])
  unfolding from_entries entries unwrap_or_new new rebuild
  entries-from_entries [] = refl
  entries-from_entries (b ∷ bs) =
      let (env, built, same) = entries-rebuild b bs in
      ap (λ r. entries (unwrap_or_new r)) built ∙ same

  binding-Memᴰ :
      (name : String) (bindings : Bindings P) (p : P)
      → binding name bindings ≡ some p
      → Memᴰ p (map (λ b. b.1) bindings)
  unfolding binding
  binding-Memᴰ name [] p found = ground arith
  binding-Memᴰ name ((n, value) ∷ rest) p found = elim (Bool-cases (str_eq n name)) [
    | inl same ↦ head (ground arith)
    | inr other ↦ tail (binding-Memᴰ name rest p (ground arith))
  ]

  -- Every value that a name of an environment stands for is visited by `visit_values`.
  pub get-visit_values :
      (name : String) (env : Environment P) (p : P)
      → get name env ≡ some p
      → Memᴰ p (visit_values env)
  unfolding get visit_values or_else
  get-visit_values name (first bindings) p found = elim (Option-cases (binding name bindings)) [
    | inl gone ↦ ground arith
    | inr (value, held) ↦ binding-Memᴰ name bindings p (ground arith)
  ]
  get-visit_values name (scope parent bindings) p found =
      elim (Option-cases (binding name bindings)) [
        | inl gone ↦
            Memᴰ.append_right (map (λ b. b.1) bindings)
              (get-visit_values name parent p (ground arith))
        | inr (value, held) ↦
            Memᴰ.append_left (visit_values parent) (binding-Memᴰ name bindings p (ground arith))
      ]

  -- An environment contains a name exactly when a lookup of it finds a value.
  pub contains-get :
      (name : String) (env : Environment P)
      → contains name env ≡ (elim (get name env) [ some value ↦ true | none ↦ false ])
  unfolding contains get or_else
  contains-get name (first bindings) = ground arith
  contains-get name (scope parent bindings) = elim (Option-cases (binding name bindings)) [
    | inl gone ↦ rw (gone, contains) (contains-get name parent)
    | inr (value, held) ↦ rw (held, contains)
  ]
