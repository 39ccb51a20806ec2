-- ===== src/Evaluator/Native/Sequence/FlatOrder.antt =====
-- rex-engine/src/evaluator/native_functions.rs: what `flat_map` returns when all children have answered, in
-- any order.
use rex.Prelude.{ℕ, List, [], ◌∷◌, ◌++◌, Option, none, some, length, replicate, map, ◌≡◌, refl}
use rex.Evaluator.FrameStore.{FrameId}
use rex.Evaluator.Frame.Effect.{ok, pure, ◌>>=◌}
use rex.Evaluator.Native.Scope.{RootScope}
use rex.Evaluator.Native.Apply.{wait, return}
use rex.Evaluator.Native.Gather.Slots.{Distinct}
use rex.Evaluator.Native.Gather.Answers.{store_answer-reads}
use rex.Evaluator.Native.Gather.Order.{run, run-returns, IsRest, Fresh, state}
use rex.Evaluator.Native.Texts.{sequence_flat_map_texts}
use rex.Evaluator.Native.Sequence.{
  alloc_native_sequence, receive_sequence_flat_map, finish_sequence_flat_map, joined_answers,
  native_flatten_sequence,
}
use rex.Evaluator.Native.Task.{NativeSequenceShape, NativeSequenceFlatMap}

unfoldable pub joined : {P : Type 0} → List (List P) → List P
joined [] = []
joined (ps ∷ pss) = ps ++ joined pss

module _ {H P : Type 0} (scope : RootScope H P) where
  joined_answers-some :
      (pss : List (List P)) → joined_answers scope (map some pss) ≡ pure (joined pss)
  unfolding joined_answers joined pure ◌>>=◌
  joined_answers-some [] = refl
  joined_answers-some (ps ∷ pss) = rw (joined_answers-some pss) refl

  finish_sequence_flat_map-some :
      (shape : NativeSequenceShape) (pss : List (List P))
      → finish_sequence_flat_map scope shape (map some pss)
        ≡ (do root ← alloc_native_sequence scope shape (joined pss); pure (return root))
  unfolding finish_sequence_flat_map pure ◌>>=◌
  finish_sequence_flat_map-some shape pss = rw (joined_answers-some pss) refl

module _ {H P : Type 0} (scope : RootScope H P) (children : List FrameId)
    (distinct : Distinct children) (value : FrameId → P) where
  module _ (task : NativeSequenceFlatMap P) (answer : FrameId → List P)
      (reads : (c : FrameId) (h : H)
        → native_flatten_sequence scope task.shape (value c) h ≡ ok (answer c) h) where
    abbrev flat_map_at : List (Option (List P)) → ℕ → NativeSequenceFlatMap P
    flat_map_at output remaining = record task {
      children = children;
      output = output;
      remaining = remaining;
    }

    flat_map_fresh :
        Fresh answer value children
          (receive_sequence_flat_map scope)
          flat_map_at
          (finish_sequence_flat_map scope task.shape)
    unfolding receive_sequence_flat_map state pure ◌>>=◌
    flat_map_fresh child seen ours new h =
        rw
          (
            store_answer-reads answer sequence_flat_map_texts children distinct child seen
                (native_flatten_sequence scope task.shape (value child)) h h (reads child h),
            ours,
            new,
          )
          refl

    -- A `flat_map` task, whose children have different identifiers, and where reading an answer as
    -- a list leaves the heap alone, waits until its last child has answered and then returns the
    -- lists joined in the order of the elements, in whatever order they came.
    pub receive_sequence_flat_map-all :
        (c : FrameId) (cs : List FrameId) (h : H)
        → IsRest children [] (c ∷ cs)
        → run
            (receive_sequence_flat_map scope)
            value
            (c ∷ cs)
            (record task {
              children = children;
              output = replicate (length children) none;
              remaining = length children;
            })
            h
          ≡ (do
            root ← alloc_native_sequence scope task.shape (joined (map answer children))
            pure (
              record task {
                children = children;
                output = map some (map answer children);
                remaining = 0;
              },
              replicate (length cs) wait ++ return root ∷ [],
            ))
              h
    receive_sequence_flat_map-all =
        run-returns answer value children (receive_sequence_flat_map scope) flat_map_at
          (finish_sequence_flat_map scope task.shape) flat_map_fresh
          (alloc_native_sequence scope task.shape (joined (map answer children)))
          (finish_sequence_flat_map-some scope task.shape (map answer children))
