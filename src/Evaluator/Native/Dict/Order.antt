-- ===== src/Evaluator/Native/Dict/Order.antt =====
-- rex-engine/src/evaluator/native_functions.rs: what the map over the entries of a dictionary returns when
-- all children have answered, in any order.
use rex.Prelude.{
  ℕ, List, [], ◌∷◌, ◌++◌, Option, none, some, length, replicate, map, ◌≡◌, refl, sym, String, ◌⊎◌,
  inl, inr, ◌∙◌,
}
use rex.Evaluator.FrameStore.{FrameId}
use rex.Evaluator.Native.Dict.Readings.{
  Reading, ReadsAs, first_other, last_named, or_else-none, entries_of-reads,
}
use rex.Evaluator.SortedMap.{Entries, held_at}
use rex.Evaluator.Frame.Effect.{err, pure, ◌>>=◌, >>=_assoc}
use rex.Evaluator.Native.Scope.{Action, RootScope, ok_or, native_type}
use rex.Evaluator.Native.Apply.{wait, return}
use rex.Evaluator.Native.Gather.{all_answers}
use rex.Evaluator.Native.Gather.Slots.{Distinct, all_some-some}
use rex.Evaluator.Native.Gather.Answers.{replace_answer-reads}
use rex.Evaluator.Native.Gather.Order.{run, run-returns, IsRest, Fresh, state}
use rex.Evaluator.Native.Texts.{dict_entry_map_texts}
use rex.Evaluator.Native.Dict.{
  receive_dict_entry_map, finish_dict_entry_map, entries_of, returned_dict,
}
use rex.Evaluator.Native.Task.{NativeDictEntryMap}

module _ {H P : Type 0} (scope : RootScope H P) where
  -- The results are read as pairs in the order of the arguments.
  unfoldable pub dict_of : List P → Action H P
  dict_of results = do output ← entries_of scope results []; scope.alloc_root_dict output

  finish_dict_entry_map-some :
      (results : List P)
      → finish_dict_entry_map scope (map some results)
        ≡ (do root ← dict_of results; pure (return root))
  unfolding finish_dict_entry_map all_answers ok_or returned_dict dict_of pure ◌>>=◌
  finish_dict_entry_map-some results = rw (all_some-some results) (
      sym (
        >>=_assoc (entries_of scope results []) scope.alloc_root_dict (λ root. pure (return root))))

module _ {H P : Type 0} (scope : RootScope H P) (children : List FrameId)
    (distinct : Distinct children) (value : FrameId → P) where
  module _ (task : NativeDictEntryMap P) where
    dict_entry_map_at : List (Option P) → ℕ → NativeDictEntryMap P
    dict_entry_map_at output remaining = record task {
      children = children;
      output = output;
      remaining = remaining;
    }

    dict_entry_map_fresh :
        Fresh value value children
          (receive_dict_entry_map scope)
          dict_entry_map_at
          (finish_dict_entry_map scope)
    unfolding receive_dict_entry_map dict_entry_map_at state pure ◌>>=◌
    dict_entry_map_fresh child seen ours new h =
        rw
          (
            replace_answer-reads value dict_entry_map_texts children distinct child seen
                (pure (value child)) h h (refl),
            ours,
            new,
          )
          refl

    -- The task when its children are scheduled, and when all have answered.
    abbrev pub scheduled : NativeDictEntryMap P
    scheduled = record task {
      children = children;
      output = replicate (length children) none;
      remaining = length children;
    }

    abbrev pub when_answered : NativeDictEntryMap P
    when_answered = record task {
      children = children;
      output = map some (map value children);
      remaining = 0;
    }

    runs :
        (c : FrameId) (cs : List FrameId) (h : H)
        → IsRest children [] (c ∷ cs)
        → run (receive_dict_entry_map scope) value (c ∷ cs) scheduled h
          ≡ (do
            root ← dict_of scope (map value children)
            pure (when_answered, replicate (length cs) wait ++ return root ∷ []))
              h
    unfolding dict_entry_map_at
    runs =
        run-returns value value children (receive_dict_entry_map scope) dict_entry_map_at
          (finish_dict_entry_map scope) dict_entry_map_fresh (dict_of scope (map value children))
          (finish_dict_entry_map-some scope (map value children))

    module _ (reading : FrameId → Reading P)
        (reads : (c : FrameId) → ReadsAs scope (value c) (reading c)) where
      -- The map over the entries of a dictionary, whose children have different identifiers and
      -- answer with tuples that can be read without changing the heap, each either a pair of a name
      -- and a value or no pair: whatever order the answers came in, if some answer is no pair, the
      -- run ends with the type error for the first such answer in the order of the arguments; else
      -- the task waits until the last answer and then returns one allocation of a dictionary in
      -- which each name has the value of the last pair with that name in the order of the
      -- arguments, and no other name is held.
      pub receive_dict_entry_map-all :
          (c : FrameId) (cs : List FrameId) (h : H)
          → IsRest children [] (c ∷ cs)
          → ((got : String) × (first_other (map reading children) ≡ some got)
              × (run (receive_dict_entry_map scope) value (c ∷ cs) scheduled h
                  ≡ err (native_type "(String, a)" got) h))
            ⊎ ((d : Entries P) × (first_other (map reading children) ≡ none)
                × ((name : String) → held_at name d ≡ last_named name (map reading children))
                × (run (receive_dict_entry_map scope) value (c ∷ cs) scheduled h
                    ≡ (do
                      root ← scope.alloc_root_dict d
                      pure (when_answered, replicate (length cs) wait ++ return root ∷ []))
                        h))
      unfolding dict_of pure ◌>>=◌ held_at
      receive_dict_entry_map-all c cs h rest =
          elim (entries_of-reads scope value reading reads children [] h) [
            | inl (got, first, stops) ↦ inl (got, first, rw (runs c cs h rest, stops) refl)
            | inr (d, pairs, ends, holds) ↦ inr (
              d,
              pairs,
              λ name. holds name ∙ or_else-none (last_named name (map reading children)),
              rw (runs c cs h rest, ends) refl,
            )
          ]
