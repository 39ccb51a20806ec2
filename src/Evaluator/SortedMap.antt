-- ===== src/Evaluator/SortedMap.antt =====
-- A `BTreeMap` by names, for the environments of rex-engine/src/env.rs and the tasks of
-- rex-engine/src/evaluator/native_functions.rs: a list of entries in the order of the names, which is that
-- of their bytes and of their code points.
pub mod Laws
use Prim.Native.String.{compare}
use Prim.Native.Nat.{Ordering}
use rex.Prelude.{List, [], ◌∷◌, Option, none, some, String}

abbrev pub Entries : Type 0 → Type 0
Entries P = List (String × P)

module _ {P : Type 0} where
  -- `BTreeMap::insert`, and what it returns.
  unfoldable pub put : String → P → Entries P → Entries P
  put key value [] = (key, value) ∷ []
  put key value ((k, v) ∷ rest) = elim (compare key k) [
    | Ordering.lt ↦ (key, value) ∷ (k, v) ∷ rest
    | Ordering.eq ↦ (key, value) ∷ rest
    | Ordering.gt ↦ (k, v) ∷ put key value rest
  ]

  unfoldable pub held_at : String → Entries P → Option P
  held_at key [] = none
  held_at key ((k, v) ∷ rest) = elim (compare key k) [ Ordering.eq ↦ some v | _ ↦ held_at key rest ]

  -- `BTreeMap::remove`
  unfoldable pub without : String → Entries P → Entries P
  without key [] = []
  without key ((k, v) ∷ rest) = elim (compare key k) [
    | Ordering.eq ↦ rest
    | _ ↦ (k, v) ∷ without key rest
  ]

  -- The entries put into a map one after the other.
  unfoldable pub put_all : Entries P → Entries P → Entries P
  put_all [] output = output
  put_all ((key, value) ∷ rest) output = put_all rest (put key value output)
