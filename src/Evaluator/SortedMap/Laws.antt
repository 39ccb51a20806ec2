-- ===== src/Evaluator/SortedMap/Laws.antt =====
-- A `BTreeMap` by names: looking a name up after putting entries in, and copying a map entry by entry.
use Prim.Native.String.{compare}
use Prim.Native.Nat.{Ordering}
use text.Mathlib.TextEquality.{path_by_compare}
use rex.Prelude.{
  [], ◌∷◌, ◌++◌, Option, some, String, ◌≡◌, refl, sym, ap, ◌∙◌, append_assoc, append-nil, ◌⊎◌, inl,
  inr, arith,
}
use rex.Evaluator.SortedMap.{Entries, put, held_at, put_all}

ordering : (o : Ordering) → (o ≡ Ordering.lt) ⊎ (o ≡ Ordering.eq) ⊎ (o ≡ Ordering.gt)
ordering Ordering.lt = inl refl
ordering Ordering.eq = inr (inl refl)
ordering Ordering.gt = inr (inr refl)

never_both :
    (name key k : String)
    → compare key k ≡ Ordering.gt
    → ¬ ((compare name k ≡ Ordering.eq) × (compare name key ≡ Ordering.eq))
never_both name key k after both =
    let same : Ordering.gt ≡ Ordering.eq =
      sym after ∙ ap (λ x. compare x k) (sym (path_by_compare name key both.1)) ∙ both.0 in
    ground arith

module _ {P : Type 0} where
  -- The name comes after each of the entries.
  abbrev pub After : String → Entries P → Type 0
  After key [] = Unit
  After key ((k, v) ∷ rest) = (compare key k ≡ Ordering.gt) × After key rest

  -- Each name comes after the names before it.
  abbrev pub Ascends : Entries P → Entries P → Type 0
  Ascends before [] = Unit
  Ascends before ((key, value) ∷ rest) =
      After key before × Ascends (before ++ (key, value) ∷ []) rest

  put-After :
      (key : String) (value : P) (before : Entries P)
      → After key before
      → put key value before ≡ before ++ (key, value) ∷ []
  unfolding put
  put-After key value [] after = refl
  put-After key value ((k, v) ∷ rest) after =
      rw (after.0, put) (ap (λ es. (k, v) ∷ es) (put-After key value rest after.1))

  pub put_all-Ascends :
      (entries before : Entries P)
      → Ascends before entries
      → put_all entries before ≡ before ++ entries
  unfolding put_all
  put_all-Ascends [] before ascends = sym (append-nil before)
  put_all-Ascends ((key, value) ∷ rest) before ascends =
      ap (put_all rest) (put-After key value before ascends.0)
      ∙ put_all-Ascends rest (before ++ (key, value) ∷ []) ascends.1
      ∙ append_assoc before ((key, value) ∷ []) rest

  -- The value of an entry with the name, and else what the map holds under the name.
  abbrev pub this_or : Ordering → P → Option P → Option P
  this_or order value rest = elim order [ Ordering.eq ↦ some value | _ ↦ rest ]

  this_or-this_or :
      (o : Ordering) (value v : P) (rest : Option P)
      → this_or o value (this_or o v rest) ≡ this_or o value rest
  this_or-this_or Ordering.lt value v rest = refl
  this_or-this_or Ordering.eq value v rest = refl
  this_or-this_or Ordering.gt value v rest = refl

  this_or-swap :
      (o o' : Ordering) (value v : P) (rest : Option P)
      → ¬ ((o ≡ Ordering.eq) × (o' ≡ Ordering.eq))
      → this_or o v (this_or o' value rest) ≡ this_or o' value (this_or o v rest)
  this_or-swap Ordering.lt o' value v rest different = refl
  this_or-swap Ordering.gt o' value v rest different = refl
  this_or-swap Ordering.eq Ordering.lt value v rest different = refl
  this_or-swap Ordering.eq Ordering.gt value v rest different = refl
  this_or-swap Ordering.eq Ordering.eq value v rest different = absurd (different (refl, refl))

  -- A name is held with the value that was put last, and other names as before.
  pub held_at-put :
      (name key : String) (value : P) (entries : Entries P)
      → held_at name (put key value entries)
        ≡ this_or (compare name key) value (held_at name entries)
  unfolding put held_at
  held_at-put name key value [] = refl
  held_at-put name key value ((k, v) ∷ rest) = elim (ordering (compare key k)) [
    | inl lt ↦ rw (lt, held_at) refl
    | inr (inl eq) ↦
        rw (eq, held_at, sym (path_by_compare key k eq))
          (sym (this_or-this_or (compare name key) value v (held_at name rest)))
    | inr (inr gt) ↦
        rw (gt, held_at)
          (ap (this_or (compare name k) v) (held_at-put name key value rest)
            ∙ this_or-swap (compare name k) (compare name key) value v (held_at name rest)
                (never_both name key k gt))
  ]
