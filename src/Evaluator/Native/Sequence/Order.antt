-- ===== src/Evaluator/Native/Sequence/Order.antt =====
-- rex-engine/src/evaluator/native_functions.rs: what the tasks on lists return when all children have
-- answered, in any order.
use rex.Prelude.{ℕ, List, [], ◌∷◌, ◌++◌, Option, none, some, length, replicate, map, ◌≡◌, refl}
use rex.Evaluator.FrameStore.{FrameId}
use rex.Evaluator.Frame.Effect.{ok, pure, ◌>>=◌}
use rex.Evaluator.Native.Scope.{RootScope, ok_or}
use rex.Evaluator.Native.Apply.{wait, return}
use rex.Evaluator.Native.Gather.{all_answers}
use rex.Evaluator.Native.Gather.Slots.{Distinct, all_some-some}
use rex.Evaluator.Native.Gather.Answers.{store_answer-reads}
use rex.Evaluator.Native.Gather.Order.{run, run-returns, IsRest, Fresh, state}
use rex.Evaluator.Native.Texts.{sequence_map_texts, sequence_filter_map_texts}
use rex.Evaluator.Native.Sequence.{
  receive_sequence_map, finish_sequence_map, alloc_native_sequence, receive_sequence_filter_map,
  finish_sequence_filter_map, some_answers, option_value_ptr,
}
use rex.Evaluator.Native.Task.{NativeSequenceMap, NativeSequenceShape, NativeSequenceFilterMap}

module _ {H P : Type 0} (scope : RootScope H P) where
  finish_sequence_map-some :
      (shape : NativeSequenceShape) (vs : List P)
      → finish_sequence_map scope shape (map some vs)
        ≡ (do root ← alloc_native_sequence scope shape vs; pure (return root))
  unfolding finish_sequence_map all_answers ok_or pure ◌>>=◌
  finish_sequence_map-some shape vs = rw (all_some-some vs) refl

-- What a list of answers comes to.
unfoldable pub somes : {P : Type 0} → List (Option P) → List P
somes [] = []
somes (some p ∷ os) = p ∷ somes os
somes (none ∷ os) = somes os

module _ {H P : Type 0} (scope : RootScope H P) where
  some_answers-some : (os : List (Option P)) → some_answers scope (map some os) ≡ pure (somes os)
  unfolding some_answers somes pure ◌>>=◌
  some_answers-some [] = refl
  some_answers-some (some p ∷ os) = rw (some_answers-some os) refl
  some_answers-some (none ∷ os) = some_answers-some os

  finish_sequence_filter_map-some :
      (shape : NativeSequenceShape) (os : List (Option P))
      → finish_sequence_filter_map scope shape (map some os)
        ≡ (do root ← alloc_native_sequence scope shape (somes os); pure (return root))
  unfolding finish_sequence_filter_map pure ◌>>=◌
  finish_sequence_filter_map-some shape os = rw (some_answers-some os) refl

module _ {H P : Type 0} (scope : RootScope H P) (children : List FrameId)
    (distinct : Distinct children) (value : FrameId → P) where
  module _ (task : NativeSequenceMap P) where
    abbrev map_at : List (Option P) → ℕ → NativeSequenceMap P
    map_at output remaining = record task {
      children = children;
      output = output;
      remaining = remaining;
    }

    map_fresh :
        Fresh value value children
          (receive_sequence_map scope)
          map_at
          (finish_sequence_map scope task.shape)
    unfolding receive_sequence_map state pure ◌>>=◌
    map_fresh child seen ours new h =
        rw
          (
            store_answer-reads value sequence_map_texts children distinct child seen
                (pure (value child)) h h refl,
            ours,
            new,
          )
          refl

    -- A `map` task with a child for each element, whose children have different identifiers, waits
    -- until its last child has answered, in whatever order they answer, and then returns one
    -- allocation of the list of the answers in the order of the elements.
    pub receive_sequence_map-all :
        (c : FrameId) (cs : List FrameId) (h : H)
        → IsRest children [] (c ∷ cs)
        → run
            (receive_sequence_map scope)
            value
            (c ∷ cs)
            (record task {
              children = children;
              output = replicate (length children) none;
              remaining = length children;
            })
            h
          ≡ (do
            root ← alloc_native_sequence scope task.shape (map value children)
            pure (
              record task {
                children = children;
                output = map some (map value children);
                remaining = 0;
              },
              replicate (length cs) wait ++ return root ∷ [],
            ))
              h
    receive_sequence_map-all =
        run-returns value value children (receive_sequence_map scope) map_at
          (finish_sequence_map scope task.shape) map_fresh
          (alloc_native_sequence scope task.shape (map value children))
          (finish_sequence_map-some scope task.shape (map value children))

  module _ (task : NativeSequenceFilterMap P) (answer : FrameId → Option P)
      (reads : (c : FrameId) (h : H) → option_value_ptr scope (value c) h ≡ ok (answer c) h) where
    abbrev filter_map_at : List (Option (Option P)) → ℕ → NativeSequenceFilterMap P
    filter_map_at output remaining = record task {
      children = children;
      output = output;
      remaining = remaining;
    }

    filter_map_fresh :
        Fresh answer value children
          (receive_sequence_filter_map scope)
          filter_map_at
          (finish_sequence_filter_map scope task.shape)
    unfolding receive_sequence_filter_map state pure ◌>>=◌
    filter_map_fresh child seen ours new h =
        rw
          (
            store_answer-reads answer sequence_filter_map_texts children distinct child seen
                (option_value_ptr scope (value child)) h h (reads child h),
            ours,
            new,
          )
          refl

    -- A `filter_map` task, whose children have different identifiers, and where reading an answer
    -- as an option leaves the heap alone, waits until its last child has answered and then returns
    -- the list of the values of the answers that have one, in the order of the elements, in
    -- whatever order they came.
    pub receive_sequence_filter_map-all :
        (c : FrameId) (cs : List FrameId) (h : H)
        → IsRest children [] (c ∷ cs)
        → run
            (receive_sequence_filter_map scope)
            value
            (c ∷ cs)
            (record task {
              children = children;
              output = replicate (length children) none;
              remaining = length children;
            })
            h
          ≡ (do
            root ← alloc_native_sequence scope task.shape (somes (map answer children))
            pure (
              record task {
                children = children;
                output = map some (map answer children);
                remaining = 0;
              },
              replicate (length cs) wait ++ return root ∷ [],
            ))
              h
    receive_sequence_filter_map-all =
        run-returns answer value children (receive_sequence_filter_map scope) filter_map_at
          (finish_sequence_filter_map scope task.shape) filter_map_fresh
          (alloc_native_sequence scope task.shape (somes (map answer children)))
          (finish_sequence_filter_map-some scope task.shape (map answer children))
