-- ===== src/Evaluator/FrameStore/Laws.antt =====
-- Identifiers are fresh and are never handed out again, and the operations on the store are those
-- of a partial function on identifiers.
use rex.Prelude.{
  Bool-cases, inl, inr, ltb, ltb→lt, sym, ◌∙◌, ◌<◌, ◌≤◌, List, [], ◌∷◌, if◌then◌else◌, ◌==◌, none,
  some, ◌≡◌, refl, arith,
}
use rex.Evaluator.FrameStore.{FrameId, FrameStore, lookup, put, drop_key}

module _ {F : Type 0} where
  -- Every key is below the counter, and the entries ascend.
  abbrev pub Above : FrameId → List (FrameId × F) → Type 0
  Above id [] = Unit
  Above id ((j, _) ∷ frames) = (id < j) × Above j frames

  abbrev pub IsAscending : List (FrameId × F) → Type 0
  IsAscending [] = Unit
  IsAscending ((j, _) ∷ frames) = Above j frames

  abbrev pub Below : FrameId → List (FrameId × F) → Type 0
  Below n [] = Unit
  Below n ((j, _) ∷ frames) = (j < n) × Below n frames

  pub record IsValid (s : FrameStore F) : Type 0 where
    pub below : Below s.next_id s.frames
    pub ascending : IsAscending s.frames

  pub lookup-put :
      (id j : FrameId) (frame : F) (frames : List (FrameId × F))
      → IsAscending frames
      → lookup j (put id frame frames) ≡ (if id == j then some frame else lookup j frames)
  unfolding lookup put
  lookup-put id j frame [] a = refl
  lookup-put id j frame ((k, old) ∷ []) a = ground arith
  lookup-put id j frame ((k, old) ∷ (l, old') ∷ frames) a =
      ground (arith, lookup-put id j frame ((l, old') ∷ frames) a.1)

  lookup-Above :
      (id j : FrameId) (frames : List (FrameId × F))
      → Above id frames
      → j ≤ id
      → lookup j frames ≡ none
  unfolding lookup
  lookup-Above id j [] a h = refl
  lookup-Above id j ((k, frame) ∷ frames) a h = ground (arith, lookup-Above k j frames)

  pub lookup-Below :
      (n j : FrameId) (frames : List (FrameId × F))
      → Below n frames
      → n ≤ j
      → lookup j frames ≡ none
  unfolding lookup
  lookup-Below n j [] b h = refl
  lookup-Below n j ((k, frame) ∷ frames) b h = ground (arith, lookup-Below n j frames)

  -- An identifier that holds a frame has been handed out.
  pub key_below :
      (id : FrameId) (old : F) (s : FrameStore F)
      → IsValid s
      → lookup id s.frames ≡ some old
      → id < s.next_id
  key_below id old s v held = elim (Bool-cases (ltb id s.next_id)) [
    | inl lt ↦ ltb→lt id s.next_id lt
    | inr ge ↦ cc (sym (lookup-Below s.next_id id s.frames v.below (ground arith)) ∙ held)
  ]

  pub lookup-drop_key :
      (id j : FrameId) (frames : List (FrameId × F))
      → IsAscending frames
      → lookup j (drop_key id frames) ≡ (if id == j then none else lookup j frames)
  unfolding lookup drop_key
  lookup-drop_key id j [] a = ground arith
  lookup-drop_key id j ((k, frame) ∷ []) a = ground arith
  lookup-drop_key id j ((k, frame) ∷ (l, old) ∷ frames) a =
      ground
        (arith, lookup-drop_key id j ((l, old) ∷ frames) a.1, lookup-Above k j ((l, old) ∷ frames))

  put-Above :
      (k id : FrameId) (frame : F) (frames : List (FrameId × F))
      → k < id
      → Above k frames
      → Above k (put id frame frames)
  unfolding put
  put-Above k id frame [] h a = (h, tt)
  put-Above k id frame ((j, old) ∷ frames) h a = ground (arith, put-Above j id frame frames)

  pub put-IsAscending :
      (id : FrameId) (frame : F) (frames : List (FrameId × F))
      → IsAscending frames
      → IsAscending (put id frame frames)
  unfolding put
  put-IsAscending id frame [] a = tt
  put-IsAscending id frame ((j, old) ∷ frames) a = ground (arith, put-Above j id frame frames)

  pub put-Below :
      (n id : FrameId) (frame : F) (frames : List (FrameId × F))
      → id < n
      → Below n frames
      → Below n (put id frame frames)
  unfolding put
  put-Below n id frame [] h b = (h, tt)
  put-Below n id frame ((j, old) ∷ frames) h b = ground (arith, put-Below n id frame frames)

  pub Below-mono :
      (n m : FrameId) (frames : List (FrameId × F)) → n ≤ m → Below n frames → Below m frames
  Below-mono n m [] h b = tt
  Below-mono n m ((j, _) ∷ frames) h b = (omega arith, Below-mono n m frames h b.1)

  Above-weaken :
      (k j : FrameId) (frames : List (FrameId × F)) → k ≤ j → Above j frames → Above k frames
  Above-weaken k j [] h a = tt
  Above-weaken k j ((l, _) ∷ frames) h a = (omega arith, a.1)

  drop_key-Above :
      (k id : FrameId) (frames : List (FrameId × F)) → Above k frames → Above k (drop_key id frames)
  unfolding drop_key
  drop_key-Above k id [] a = tt
  drop_key-Above k id ((j, frame) ∷ frames) a =
      ground (arith, drop_key-Above j id frames, Above-weaken k j frames)

  pub drop_key-IsAscending :
      (id : FrameId) (frames : List (FrameId × F))
      → IsAscending frames
      → IsAscending (drop_key id frames)
  unfolding drop_key
  drop_key-IsAscending id [] a = tt
  drop_key-IsAscending id ((j, frame) ∷ []) a = ground arith
  drop_key-IsAscending id ((j, frame) ∷ (k, old) ∷ frames) a =
      ground (arith, drop_key-Above j id ((k, old) ∷ frames))

  pub drop_key-Below :
      (n id : FrameId) (frames : List (FrameId × F)) → Below n frames → Below n (drop_key id frames)
  unfolding drop_key
  drop_key-Below n id [] b = tt
  drop_key-Below n id ((j, frame) ∷ frames) b = ground (arith, drop_key-Below n id frames)
