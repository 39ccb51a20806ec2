-- ===== src/Evaluator/Native/Dict/Readings.antt =====
-- rex-engine/src/evaluator/native_functions.rs: which dictionary the pairs give that the children of a map
-- over entries have answered with.
use rex.Prelude.{
  List, [], ◌∷◌, Option, none, some, String, length, map, ◌≡◌, ◌≢◌, refl, ap, ◌∙◌, ◌⊎◌, inl, inr,
  subst,
}
use Prim.Native.String.{compare}
use Prim.Native.Nat.{Ordering}
use rex.Evaluator.FrameStore.{FrameId}
use rex.Evaluator.SortedMap.{Entries, held_at, put}
use rex.Evaluator.SortedMap.Laws.{this_or, held_at-put}
use rex.Evaluator.Frame.Effect.{ok, err, pure, ◌>>=◌}
use rex.Evaluator.Native.Scope.{RootScope, fail, native_type}
use rex.Evaluator.Native.Dict.{entries_of, pair_of}

-- What an answer is: a pair of a name and a value, or a tuple that is no pair, of the named type.
pub data Reading (P : Type 0) : Type 0 where
  named : String → P → Reading P
  other : String → Reading P

module _ {P : Type 0} where
  -- The type of the first answer that is no pair.
  unfoldable pub first_other : List (Reading P) → Option String
  first_other [] = none
  first_other (named name value ∷ rest) = first_other rest
  first_other (other got ∷ rest) = some got

  unfoldable pub or_else : Option P → Option P → Option P
  or_else (some value) rest = some value
  or_else none rest = rest

  -- The value of the last pair with the name.
  unfoldable pub last_named : String → List (Reading P) → Option P
  unfolding or_else
  last_named name [] = none
  last_named name (named key value ∷ rest) =
      or_else (last_named name rest) (this_or (compare name key) value none)
  last_named name (other got ∷ rest) = last_named name rest

  or_else-this_or :
      (o : Ordering) (later earlier : Option P) (value : P)
      → or_else later (this_or o value earlier)
        ≡ or_else (or_else later (this_or o value none)) earlier
  unfolding or_else
  or_else-this_or o (some v) earlier value = refl
  or_else-this_or Ordering.lt none earlier value = refl
  or_else-this_or Ordering.eq none earlier value = refl
  or_else-this_or Ordering.gt none earlier value = refl

  pub or_else-none : (o : Option P) → or_else o none ≡ o
  unfolding or_else
  or_else-none (some v) = refl
  or_else-none none = refl

Reading-cases :
    {P : Type 0} (r : Reading P)
    → ((name : String) × (value : P) × (r ≡ named name value)) ⊎ ((got : String) × (r ≡ other got))
Reading-cases (named name value) = inl (name, value, refl)
Reading-cases (other got) = inr (got, refl)

module _ {H P : Type 0} (scope : RootScope H P) where
  -- The heap reads the root as a pair whose first item is the name, or as a tuple that is no pair.
  abbrev pub ReadsAs : P → Reading P → Type 0
  ReadsAs p (named name value) =
      (key : P) × ((h : H) → scope.root_as_tuple p h ≡ ok (key ∷ value ∷ []) h)
      × ((h : H) → scope.root_as_string key h ≡ ok name h)
  ReadsAs p (other got) =
      (items : List P) × (length items ≢ 2)
      × ((h : H) → scope.root_as_tuple p h ≡ ok items h)
      × ((h : H) → scope.type_name p h ≡ ok got h)

  pair_of-other :
      (p : P) (got : String) (items : List P) (h : H)
      → length items ≢ 2
      → scope.type_name p h ≡ ok got h
      → pair_of scope p items h ≡ err (native_type "(String, a)" got) h
  unfolding pair_of fail pure ◌>>=◌
  pair_of-other p got [] h long at = rw at refl
  pair_of-other p got (a ∷ []) h long at = rw at refl
  pair_of-other p got (a ∷ b ∷ []) h long at = absurd (long refl)
  pair_of-other p got (a ∷ b ∷ c ∷ rest) h long at = rw at refl

  module _ (value : FrameId → P) (reading : FrameId → Reading P)
      (reads : (c : FrameId) → ReadsAs (value c) (reading c)) where
    entries_of-one :
        (c : FrameId) (cs : List FrameId) (output : Entries P) (h : H) (r : Reading P)
        → ReadsAs (value c) r
        → entries_of scope (value c ∷ map value cs) output h ≡ (elim r [
          | named key v ↦ entries_of scope (map value cs) (put key v output) h
          | other got ↦ err (native_type "(String, a)" got) h
        ])
    unfolding entries_of pure ◌>>=◌
    entries_of-one c cs output h (named key v) (k, tuple, text) = rw (tuple h, text h) refl
    entries_of-one c cs output h (other got) (items, long, tuple, at) =
        rw (tuple h, pair_of-other (value c) got items h long (at h)) refl

    pub entries_of-reads :
        (cs : List FrameId) (output : Entries P) (h : H)
        → ((got : String) × (first_other (map reading cs) ≡ some got)
            × (entries_of scope (map value cs) output h ≡ err (native_type "(String, a)" got) h))
          ⊎ ((d : Entries P) × (first_other (map reading cs) ≡ none)
              × (entries_of scope (map value cs) output h ≡ ok d h)
              × ((name : String)
                  → held_at name d
                    ≡ or_else (last_named name (map reading cs)) (held_at name output)))
    unfolding entries_of first_other last_named or_else pure
    entries_of-reads [] output h = inr (output, refl, refl, λ name. refl)
    entries_of-reads (c ∷ cs) output h = elim (Reading-cases (reading c)) [
      | inr (got, eq) ↦ inl (
        got,
        rw eq refl,
        entries_of-one c cs output h (other got) (subst (ReadsAs (value c)) eq (reads c)),
      )
      | inl (key, v, eq) ↦
          let one : entries_of scope (map value (c ∷ cs)) output h
              ≡ entries_of scope (map value cs) (put key v output) h =
            entries_of-one c cs output h (named key v) (subst (ReadsAs (value c)) eq (reads c)) in
          elim (entries_of-reads cs (put key v output) h) [
            | inl (got, first, stops) ↦ inl (got, rw eq first, one ∙ stops)
            | inr (d, pairs, ends, holds) ↦ inr (
              d,
              rw eq pairs,
              one ∙ ends,
              λ name. rw eq (
                  holds name
                  ∙ ap (or_else (last_named name (map reading cs))) (held_at-put name key v output)
                  ∙ or_else-this_or (compare name key) (last_named name (map reading cs))
                      (held_at name output) v),
            )
          ]
    ]
