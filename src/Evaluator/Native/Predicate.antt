-- ===== src/Evaluator/Native/Predicate.antt =====
-- rex-engine/src/evaluator/native_functions.rs, `NativeSequencePredicate`: how many elements of a list
-- satisfy a predicate, or which do and which do not.
pub mod Order
use rex.Prelude.{
  ℕ, zero, suc, ◌+◌, Bool, true, false, List, [], ◌∷◌, Option, none, some, if◌then◌else◌, get_elem?,
  replicate, length,
}
use rex.Evaluator.FrameStore.{FrameId}
use rex.Evaluator.Frame.Effect.{Effect, pure, ◌>>=◌}
use rex.Evaluator.Native.Scope.{Action, RootScope, fail, internal}
use rex.Evaluator.Native.Items.{ListItems, items_len, items_is_empty, get}
use rex.Evaluator.Native.Apply.{NativeStep, schedule, return}
use rex.Evaluator.Native.Gather.{store_answer, wait_or}
use rex.Evaluator.Native.Texts.{sequence_predicate_texts}
use rex.Evaluator.Native.Task.{
  NativeSequencePredicate, NativeSequencePredicateMode, count, partition,
}

-- `filter(|matched| **matched == Some(true)).count()`
unfoldable pub count_matches : List (Option Bool) → ℕ
count_matches [] = 0
count_matches (some true ∷ matches) = suc (count_matches matches)
count_matches (_ ∷ matches) = count_matches matches

-- `matches.get(index).copied().flatten()`
unfoldable pub match_at : List (Option Bool) → ℕ → Option Bool
match_at [] index = none
match_at (m ∷ matches) zero = m
match_at (m ∷ matches) (suc index) = match_at matches index

unfoldable pub add_to : {P : Type 0} → Bool → P → List P × List P → List P × List P
add_to true value (matching, rejected) = (value ∷ matching, rejected)
add_to false value (matching, rejected) = (matching, value ∷ rejected)

module _ {H P : Type 0} (scope : RootScope H P) where
  -- The rounds of the loop that are left, and its index. Every round reads its element first.
  unfoldable pub partition_from :
      ℕ → ℕ → ListItems P → List (Option Bool) → Action H (List P × List P)
  unfolding pure fail match_at add_to
  partition_from zero index values matches = pure ([], [])
  partition_from (suc rounds) index values matches = do
    value ← get scope index values
    elim (match_at matches index) [
      | some matched ↦ do
        rest ← partition_from rounds (suc index) values matches
        pure (add_to matched value rest)
      | none ↦ fail (internal sequence_predicate_texts.missing)
    ]

  -- A count of a `Vec` fits in 64 bits, so the conversion to `u64` does not fail.
  unfoldable pub finish_in :
      NativeSequencePredicateMode → ListItems P → List (Option Bool) → Action H (NativeStep P)
  unfolding partition_from count_matches items_len
  finish_in count values matches = do
    root ← scope.alloc_root_u64 (count_matches matches)
    pure (return root)
  finish_in partition values matches = do
    (matching, rejected) ← partition_from (items_len values) 0 values matches
    matching' ← scope.alloc_root_list matching
    rejected' ← scope.alloc_root_list rejected
    root ← scope.alloc_root_tuple (matching' ∷ rejected' ∷ [])
    pure (return root)

  unfoldable pub finish : NativeSequencePredicate P → Action H (NativeStep P)
  unfolding finish_in
  finish task = finish_in task.mode task.values task.matches

  unfoldable pub enter_sequence_predicate :
      NativeSequencePredicate P → Action H (NativeSequencePredicate P × NativeStep P)
  unfolding pure items_is_empty items_len finish
  enter_sequence_predicate task =
      if items_is_empty task.values
      then (do step ← finish task; pure (task, step))
      else pure (
        record task {
          children = [];
          matches = replicate (items_len task.values) none;
          remaining = items_len task.values;
        },
        schedule (items_len task.values),
      )

  unfoldable pub receive_sequence_predicate :
      FrameId → P → NativeSequencePredicate P → Action H (NativeSequencePredicate P × NativeStep P)
  unfolding finish_in
  receive_sequence_predicate child value task = do
    (matches, remaining) ←
        store_answer sequence_predicate_texts child (scope.root_as_bool value) task.children
          task.matches task.remaining
    wait_or (record task { matches = matches; remaining = remaining }) remaining
        (finish_in task.mode task.values matches)
