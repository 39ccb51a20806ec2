-- ===== src/Evaluator/FrameStore/Fresh.antt =====
-- The operations of `FrameStore`, each on all its branches, and what any run of them does with the
-- identifiers.
use rex.Prelude.{
  ◌+◌, ◌<◌, ◌≤◌, List, [], ◌∷◌, if◌then◌else◌, ◌==◌, Option, none, some, ◌≡◌, refl, arith, ◌≢◌, ◌∙◌,
  sym, ap, ◌⊎◌, inl, inr, subst, Bool-cases, Option-cases, ==_iff,
}
use rex.Evaluator.FrameStore.{
  FrameId, panic, unknown_frame, Result, ok, err, ◌>>=◌, usize_max, FrameStore, lookup, put,
  drop_key, found, insert, replace, remove,
}
use rex.Evaluator.FrameStore.Laws.{
  IsValid, lookup-put, lookup-drop_key, put-Below, put-IsAscending, Below-mono, drop_key-Below,
  drop_key-IsAscending, lookup-Below, key_below,
}

-- The store as a partial function.
abbrev pub view : {F : Type 0} → FrameStore F → FrameId → Option F
view s id = lookup id s.frames

module _ {F E : Type 0} where
  -- Inserting into a valid store panics exactly at the counter's end; else the frame gets an
  -- identifier at which the store held nothing, every other identifier reads as before, the counter
  -- goes up by one and the store stays valid.
  pub insert_lem :
      (frame : F) (s : FrameStore F)
      → IsValid s
      → ((s.next_id ≡ usize_max) × (insert {E = E} frame s ≡ err panic))
        ⊎ ((s' : FrameStore F) × (insert {E = E} frame s ≡ ok (s', s.next_id))
            × (s.next_id ≢ usize_max)
            × IsValid s'
            × (view s s.next_id ≡ none)
            × (s'.next_id ≡ s.next_id + 1)
            × ((j : FrameId) → view s' j ≡ (if s.next_id == j then some frame else view s j)))
  unfolding insert
  insert_lem frame s v = elim (Bool-cases (s.next_id == usize_max)) [
    | inl full ↦ inl ((==_iff s.next_id usize_max).0 full, rw full)
    | inr room ↦ inr (
      record { next_id = s.next_id + 1; frames = put s.next_id frame s.frames },
      rw room refl,
      (λ full. cc (sym room ∙ (==_iff s.next_id usize_max).1 full)),
      record {
        below =
            put-Below (s.next_id + 1) s.next_id frame s.frames (omega arith)
              (Below-mono s.next_id (s.next_id + 1) s.frames (omega arith) v.below);
        ascending = put-IsAscending s.next_id frame s.frames v.ascending;
      },
      lookup-Below s.next_id s.next_id s.frames v.below (omega arith),
      refl,
      λ j. lookup-put s.next_id j frame s.frames v.ascending,
    )
  ]

  -- Replacing a frame of a valid store changes that frame alone, and an identifier without a frame is
  -- an error.
  pub replace_lem :
      (id : FrameId) (frame : F) (s : FrameStore F)
      → IsValid s
      → ((view s id ≡ none) × (replace {E = E} id frame s ≡ err (unknown_frame id)))
        ⊎ ((s' : FrameStore F) × (replace {E = E} id frame s ≡ ok s')
            × (view s id ≢ none)
            × IsValid s'
            × (s'.next_id ≡ s.next_id)
            × ((j : FrameId) → view s' j ≡ (if id == j then some frame else view s j)))
  unfolding replace found
  replace_lem id frame s v = elim (Option-cases (lookup id s.frames)) [
    | inl gone ↦ inl (gone, rw gone)
    | inr (old, held) ↦ inr (
      record s { frames = put id frame s.frames },
      rw held refl,
      (λ e. cc (sym e ∙ held)),
      record {
        below = put-Below s.next_id id frame s.frames (key_below id old s v held) v.below;
        ascending = put-IsAscending id frame s.frames v.ascending;
      },
      refl,
      λ j. lookup-put id j frame s.frames v.ascending,
    )
  ]

  -- Removing a frame of a valid store takes out that frame alone, and an identifier without a frame
  -- is an error.
  pub remove_lem :
      (id : FrameId) (s : FrameStore F)
      → IsValid s
      → ((view s id ≡ none) × (remove {E = E} id s ≡ err (unknown_frame id)))
        ⊎ ((frame : F) × (s' : FrameStore F) × (remove {E = E} id s ≡ ok (s', frame))
            × (view s id ≡ some frame)
            × IsValid s'
            × (s'.next_id ≡ s.next_id)
            × ((j : FrameId) → view s' j ≡ (if id == j then none else view s j)))
  unfolding remove found
  remove_lem id s v = elim (Option-cases (lookup id s.frames)) [
    | inl gone ↦ inl (gone, rw gone)
    | inr (frame, held) ↦ inr (
      frame,
      record s { frames = drop_key id s.frames },
      rw held refl,
      held,
      record {
        below = drop_key-Below s.next_id id s.frames v.below;
        ascending = drop_key-IsAscending id s.frames v.ascending;
      },
      refl,
      λ j. lookup-drop_key id j s.frames v.ascending,
    )
  ]

-- A change of the store: what is inserted, replaced or removed.
pub data Change (F : Type 0) : Type 0 where
  inserts : F → Change F
  replaces : FrameId → F → Change F
  removes : FrameId → Change F

-- The counter never falls, and where an identifier below it has no frame it never has one again.
abbrev pub Later : {F : Type 0} → FrameStore F → FrameStore F → Type 0
Later s s' =
    IsValid s'
    × (s.next_id ≤ s'.next_id)
    × ((id : FrameId) → id < s.next_id → view s id ≡ none → view s' id ≡ none)

module _ {F E : Type 0} where
  unfoldable pub change : Change F → FrameStore F → Result E (FrameStore F)
  change (inserts frame) s = do (s', id) ← insert frame s; ok s'
  change (replaces id frame) s = replace id frame s
  change (removes id) s = do (s', frame) ← remove id s; ok s'

  unfoldable pub run : List (Change F) → FrameStore F → Result E (FrameStore F)
  run [] s = ok s
  run (c ∷ changes) s = do s' ← change c s; run changes s'

  change-Later : (c : Change F) (s s' : FrameStore F) → IsValid s → change c s ≡ ok s' → Later s s'
  unfolding change
  change-Later (inserts frame) s s' v e = elim (insert_lem {E = E} frame s v) [
    | inl (_, fails) ↦ cc (e, ap (λ r. r >>= λ p. ok p.0) fails)
    | inr (t, works, _, valid, fresh, next, reads) ↦
        let same : t ≡ s' = (cc (ap (λ r. r >>= λ p. ok p.0) works, e)) in
        subst (Later s) same (valid, omega (arith, next), λ id h gone. ground (arith, reads id))
  ]
  change-Later (replaces id frame) s s' v e = elim (replace_lem {E = E} id frame s v) [
    | inl (_, fails) ↦ cc (e, fails)
    | inr (t, works, held, valid, next, reads) ↦
        let same : t ≡ s' = (cc (works, e)) in
        subst (Later s) same
          (valid, omega (arith, next), λ j h gone. ground (arith, reads j, held, ap (view s)))
  ]
  change-Later (removes id) s s' v e = elim (remove_lem {E = E} id s v) [
    | inl (_, fails) ↦ cc (e, ap (λ r. r >>= λ p. ok p.0) fails)
    | inr (frame, t, works, held, valid, next, reads) ↦
        let same : t ≡ s' = (cc (ap (λ r. r >>= λ p. ok p.0) works, e)) in
        subst (Later s) same (valid, omega (arith, next), λ j h gone. ground (arith, reads j))
  ]

  -- After any sequence of changes of a valid store that all succeed the store is valid, its counter
  -- has not fallen, and an identifier that was handed out before and held no frame holds none: no
  -- identifier is used again.
  pub run-Later :
      (changes : List (Change F)) (s s' : FrameStore F)
      → IsValid s
      → run changes s ≡ ok s'
      → Later s s'
  unfolding run
  run-Later [] s s' v e =
      let same : s ≡ s' = (cc) in subst (Later s) same (v, omega arith, λ id h gone. gone)
  run-Later (c ∷ changes) s s' v e =
      go (λ t valid h. run-Later changes t s' valid h) (change c s) refl e
    where
      go :
          ((t : FrameStore F) → IsValid t → run changes t ≡ ok s' → Later t s')
          → (r : Result E (FrameStore F)) → change c s ≡ r
          → (r >>= λ t. run changes t) ≡ ok s'
          → Later s s'
      go ih (err x) q h = cc
      go ih (ok t) q h =
          let (valid, up, gone) = change-Later c s t v q in
          let (valid', up', gone') = ih t valid h in
          (valid', omega arith, λ id lt none_now. gone' id (omega arith) (gone id lt none_now))
