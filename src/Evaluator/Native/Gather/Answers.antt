-- ===== src/Evaluator/Native/Gather/Answers.antt =====
-- rex-engine/src/evaluator/native_functions.rs: every case of an answer that a child gives to its task.
use rex.Prelude.{◌∷◌, List, if◌then◌else◌, ◌≡◌, refl, Bool-cases, inl, inr, ◌⊎◌}
use rex.Evaluator.FrameStore.{FrameId}
use rex.Evaluator.Frame.Effect.{Done, ok, err, pure, ◌>>=◌}
use rex.Evaluator.Native.Scope.{Action, fail, ok_or, internal}
use rex.Evaluator.Native.Gather.{
  Texts, slot_of, check_empty, one_less, store_answer, replace_answer,
}
use rex.Evaluator.Native.Gather.Slots.{
  elem, Distinct, missing, slots_of, slot_found, position-none, missing-slots_of,
}

module _ {H V : Type 0} (answer : FrameId → V) (texts : Texts) (children : List FrameId)
    (distinct : Distinct children) (child : FrameId) (seen : List FrameId) (read : Action H V)
    (h h' : H) (reads : read h ≡ ok (answer child) h') where
  -- Where reading the answer succeeds.
  pub store_answer-reads :
      store_answer texts child read children
        (slots_of answer seen children)
        (missing (slots_of answer seen children))
        h
      ≡ (if elem child children
          then (if elem child seen
              then err (internal texts.duplicate) h
              else ok
                  (
                    slots_of answer (child ∷ seen) children,
                    missing (slots_of answer (child ∷ seen) children),
                  )
                  h')
          else err (internal texts.unknown_child) h)
  unfolding store_answer slot_of check_empty one_less ok_or fail pure ◌>>=◌
  store_answer-reads = elim (Bool-cases (elem child children)) [
    | inl ours ↦
        let (i, at, got, put) = slot_found answer child seen children distinct ours in
        elim (Bool-cases (elem child seen)) [
          | inl old ↦ rw (ours, at, got, old, store_answer)
          | inr new ↦
              rw
                (
                  ours,
                  at,
                  got,
                  new,
                  reads,
                  missing-slots_of answer child seen children distinct ours new,
                  put,
                )
                refl
        ]
    | inr foreign ↦ rw (foreign, position-none answer child children foreign)
  ]

  pub replace_answer-reads :
      replace_answer texts child read children
        (slots_of answer seen children)
        (missing (slots_of answer seen children))
        h
      ≡ (if elem child children
          then (if elem child seen
              then err (internal texts.duplicate) h'
              else ok
                  (
                    slots_of answer (child ∷ seen) children,
                    missing (slots_of answer (child ∷ seen) children),
                  )
                  h')
          else err (internal texts.unknown_child) h)
  unfolding replace_answer slot_of check_empty one_less ok_or fail pure ◌>>=◌
  replace_answer-reads = elim (Bool-cases (elem child children)) [
    | inl ours ↦
        let (i, at, got, put) = slot_found answer child seen children distinct ours in
        elim (Bool-cases (elem child seen)) [
          | inl old ↦ rw (ours, at, got, reads, old, replace_answer)
          | inr new ↦
              rw
                (
                  ours,
                  at,
                  got,
                  reads,
                  new,
                  missing-slots_of answer child seen children distinct ours new,
                  put,
                )
                refl
        ]
    | inr foreign ↦ rw (foreign, position-none answer child children foreign)
  ]

Done-cases :
    {S Err A : Type 0} (d : Done S Err A)
    → ((a : A) × (s : S) × (d ≡ ok a s)) ⊎ ((e : Err) × (s : S) × (d ≡ err e s))
Done-cases (ok a s) = inl (a, s, refl)
Done-cases (err e s) = inr (e, s, refl)

module _ {H V : Type 0} (answer : FrameId → V) (texts : Texts) (children : List FrameId)
    (distinct : Distinct children) (child : FrameId) (seen : List FrameId) (read : Action H V)
    (h : H) (right : (a : V) (h' : H) → read h ≡ ok a h' → a ≡ answer child) where
  -- In a task whose children have different identifiers, some of whom have answered, where an
  -- answer that can be read is the child's: an answer of a child that is not the task's, and a
  -- second answer of a child, are refused with the error of that case, whatever reading it would
  -- give; for any other answer, an error of reading it is the error, and else it fills the child's
  -- slot, and one answer less is missing.
  pub store_answer_lem :
      store_answer texts child read children
        (slots_of answer seen children)
        (missing (slots_of answer seen children))
        h
      ≡ (if elem child children
          then (if elem child seen then err (internal texts.duplicate) h else elim (read h) [
            | ok a h' ↦
                ok
                  (
                    slots_of answer (child ∷ seen) children,
                    missing (slots_of answer (child ∷ seen) children),
                  )
                  h'
            | err e h' ↦ err e h'
          ])
          else err (internal texts.unknown_child) h)
  unfolding store_answer slot_of check_empty one_less ok_or fail pure ◌>>=◌
  store_answer_lem = elim (Bool-cases (elem child children)) [
    | inl ours ↦
        let (i, at, got, put) = slot_found answer child seen children distinct ours in
        elim (Bool-cases (elem child seen)) [
          | inl old ↦ rw (ours, at, got, old, store_answer)
          | inr new ↦ elim (Done-cases (read h)) [
            | inl (a, h', read_ok) ↦
                rw
                  (
                    ours,
                    at,
                    got,
                    new,
                    read_ok,
                    missing-slots_of answer child seen children distinct ours new,
                    right a h' read_ok,
                    put,
                  )
                  refl
            | inr (e, h', read_err) ↦ rw (ours, at, got, new, read_err) refl
          ]
        ]
    | inr foreign ↦ rw (foreign, position-none answer child children foreign)
  ]

  -- In a task whose children have different identifiers, some of whom have answered, that reads an
  -- answer before it looks at the slot, and where an answer that can be read is the child's: an
  -- answer of a child that is not the task's is refused, whatever reading it would give; for an
  -- answer of a child of the task, an error of reading it is the error; else a second answer of the
  -- child is refused, and a first one fills the child's slot, and one answer less is missing.
  pub replace_answer_lem :
      replace_answer texts child read children
        (slots_of answer seen children)
        (missing (slots_of answer seen children))
        h
      ≡ (if elem child children
          then elim (read h) [
            | ok a h' ↦
                if elem child seen
                then err (internal texts.duplicate) h'
                else ok
                    (
                      slots_of answer (child ∷ seen) children,
                      missing (slots_of answer (child ∷ seen) children),
                    )
                    h'
            | err e h' ↦ err e h'
          ]
          else err (internal texts.unknown_child) h)
  unfolding replace_answer slot_of check_empty one_less ok_or fail pure ◌>>=◌
  replace_answer_lem = elim (Bool-cases (elem child children)) [
    | inl ours ↦
        let (i, at, got, put) = slot_found answer child seen children distinct ours in
        elim (Done-cases (read h)) [
          | inl (a, h', read_ok) ↦ elim (Bool-cases (elem child seen)) [
            | inl old ↦ rw (ours, at, got, read_ok, old) refl
            | inr new ↦
                rw
                  (
                    ours,
                    at,
                    got,
                    read_ok,
                    new,
                    missing-slots_of answer child seen children distinct ours new,
                    right a h' read_ok,
                    put,
                  )
                  refl
          ]
          | inr (e, h', read_err) ↦ rw (ours, at, got, read_err) refl
        ]
    | inr foreign ↦ rw (foreign, position-none answer child children foreign)
  ]
