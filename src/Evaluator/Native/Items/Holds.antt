-- ===== src/Evaluator/Native/Items/Holds.antt =====
-- rex-engine/src/memory/lists.rs: the values that a list's items give, one after the other.
use rex.Prelude.{
  ℕ, suc, List, [], ◌∷◌, ◌++◌, some, length, get_elem?, ◌≡◌, refl, arith, subst, append_assoc,
  length-append,
}
use rex.Evaluator.Frame.Effect.{ok, pure}
use rex.Evaluator.Native.Scope.{RootScope, ok_or}
use rex.Evaluator.Native.Items.{ListItems, pointers, get}

module _ {H P : Type 0} (scope : RootScope H P) where
  -- From the given position on the items are these values, and reading them leaves the heap alone.
  abbrev pub Holds : ListItems P → ℕ → List P → Type 0
  Holds items i [] = Unit
  Holds items i (x ∷ xs) = ((h : H) → get scope i items h ≡ ok x h) × Holds items (suc i) xs

  get_elem?-++ :
      (pre : List P) (x : P) (xs : List P) → get_elem? (pre ++ x ∷ xs) (length pre) ≡ some x
  get_elem?-++ [] x xs = refl
  get_elem?-++ (p ∷ pre) x xs = get_elem?-++ pre x xs

  pointers_from : (pre xs : List P) (i : ℕ) → i ≡ length pre → Holds (pointers (pre ++ xs)) i xs
  unfolding get ok_or pure
  pointers_from pre [] i e = tt
  pointers_from pre (x ∷ xs) i e = (
    (λ h. rw (e, get_elem?-++ pre x xs) refl),
    subst (λ ps. Holds (pointers ps) (suc i) xs) (append_assoc pre (x ∷ []) xs)
        (pointers_from (pre ++ x ∷ []) xs (suc i) (omega (arith, length-append pre (x ∷ []), e))),
  )

  pub pointers-Holds : (xs : List P) → Holds (pointers xs) 0 xs
  pointers-Holds xs = pointers_from [] xs 0 refl
