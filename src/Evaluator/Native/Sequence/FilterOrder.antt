-- ===== src/Evaluator/Native/Sequence/FilterOrder.antt =====
-- rex-engine/src/evaluator/native_functions.rs: what `filter` returns when all children have answered, in
-- any order.
use rex.Prelude.{
  ℕ, suc, Bool, true, false, List, [], ◌∷◌, ◌++◌, Option, none, some, length, replicate, map,
  length-map, ◌≡◌, refl, ◌∙◌, arith, fun_ext,
}
use rex.Evaluator.FrameStore.{FrameId}
use rex.Evaluator.Frame.Effect.{ok, pure, ◌>>=◌}
use rex.Evaluator.Native.Scope.{RootScope}
use rex.Evaluator.Native.Items.{ListItems}
use rex.Evaluator.Native.Items.Holds.{Holds}
use rex.Evaluator.Native.Apply.{wait, return}
use rex.Evaluator.Native.Gather.Slots.{Distinct}
use rex.Evaluator.Native.Gather.Answers.{store_answer-reads}
use rex.Evaluator.Native.Gather.Order.{run, run-returns, IsRest, Fresh, state}
use rex.Evaluator.Native.Texts.{sequence_filter_texts}
use rex.Evaluator.Native.Sequence.{
  receive_sequence_filter, finish_sequence_filter, kept_values, alloc_native_sequence,
}
use rex.Evaluator.Native.Task.{NativeSequenceFilter, NativeSequenceShape}

-- The elements whose answer is `true`, in their order.
unfoldable pub kept : {P : Type 0} → List P → List Bool → List P
kept (x ∷ xs) (true ∷ bs) = x ∷ kept xs bs
kept (x ∷ xs) (false ∷ bs) = kept xs bs
kept _ _ = []

module _ {H P : Type 0} (scope : RootScope H P) (items : ListItems P) where
  kept_values-kept :
      (xs : List P) (bs : List Bool) (i : ℕ) (h : H)
      → Holds scope items i xs
      → length bs ≡ length xs
      → kept_values scope items i (map some bs) h ≡ ok (kept xs bs) h
  unfolding kept_values kept pure ◌>>=◌
  kept_values-kept [] [] i h holds same = refl
  kept_values-kept [] (b ∷ bs) i h holds same = absurd (omega (arith, same))
  kept_values-kept (x ∷ xs) [] i h holds same = absurd (omega (arith, same))
  kept_values-kept (x ∷ xs) (true ∷ bs) i h holds same =
      rw (holds.0 h, kept_values-kept xs bs (suc i) h holds.1 (omega (arith, same))) refl
  kept_values-kept (x ∷ xs) (false ∷ bs) i h holds same =
      kept_values-kept xs bs (suc i) h holds.1 (omega (arith, same))

  finish_sequence_filter-kept :
      (shape : NativeSequenceShape) (xs : List P) (bs : List Bool)
      → Holds scope items 0 xs
      → length bs ≡ length xs
      → finish_sequence_filter scope shape items (map some bs)
        ≡ (do root ← alloc_native_sequence scope shape (kept xs bs); pure (return root))
  unfolding finish_sequence_filter pure ◌>>=◌
  finish_sequence_filter-kept shape xs bs holds same =
      fun_ext (λ h. rw (kept_values-kept xs bs 0 h holds same) refl)

module _ {H P : Type 0} (scope : RootScope H P) (children : List FrameId)
    (distinct : Distinct children) (value : FrameId → P) (task : NativeSequenceFilter P)
    (answer : FrameId → Bool)
    (reads : (c : FrameId) (h : H) → scope.root_as_bool (value c) h ≡ ok (answer c) h) where
  filter_at : List (Option Bool) → ℕ → NativeSequenceFilter P
  filter_at keep remaining = record task { children = children; keep = keep; remaining = remaining }

  filter_fresh :
      Fresh answer value children
        (receive_sequence_filter scope)
        filter_at
        (finish_sequence_filter scope task.shape task.values)
  unfolding receive_sequence_filter filter_at state pure ◌>>=◌
  filter_fresh child seen ours new h =
      rw
        (
          store_answer-reads answer sequence_filter_texts children distinct child seen
              (scope.root_as_bool (value child)) h h (reads child h),
          ours,
          new,
        )
        refl

  -- A `filter` task, whose children have different identifiers and are as many as the elements, and
  -- where reading an answer as a Boolean and reading an element leave the heap alone, waits until
  -- its last child has answered and then returns the list of the elements whose answer is true, in
  -- their order, in whatever order the answers came.
  pub receive_sequence_filter-all :
      (xs : List P) (c : FrameId) (cs : List FrameId) (h : H)
      → Holds scope task.values 0 xs
      → length children ≡ length xs
      → IsRest children [] (c ∷ cs)
      → run
          (receive_sequence_filter scope)
          value
          (c ∷ cs)
          (record task {
            children = children;
            keep = replicate (length children) none;
            remaining = length children;
          })
          h
        ≡ (do
          root ← alloc_native_sequence scope task.shape (kept xs (map answer children))
          pure (
            record task {
              children = children;
              keep = map some (map answer children);
              remaining = 0;
            },
            replicate (length cs) wait ++ return root ∷ [],
          ))
            h
  unfolding filter_at
  receive_sequence_filter-all xs c cs h holds same =
      run-returns answer value children (receive_sequence_filter scope) filter_at
        (finish_sequence_filter scope task.shape task.values) filter_fresh
        (alloc_native_sequence scope task.shape (kept xs (map answer children)))
        (finish_sequence_filter-kept scope task.values task.shape xs (map answer children) holds
          (length-map answer children ∙ same))
        c cs h
