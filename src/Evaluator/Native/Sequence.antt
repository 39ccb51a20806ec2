-- ===== src/Evaluator/Native/Sequence.antt =====
-- rex-engine/src/evaluator/native_functions.rs: the tasks that apply a function to every element of a
-- list by one child each, `map`, `filter`, `filter_map`, `flat_map`, `count` and `partition`.
pub mod Order
pub mod FilterOrder
pub mod FlatOrder
use rex.Prelude.{
  ℕ, zero, suc, ◌+◌, Bool, true, false, List, [], ◌∷◌, ◌++◌, Option, none, some, String,
  if◌then◌else◌, ◌==◌, get_elem?, replicate, length,
}
use text.Mathlib.Text.{◌==◌ as str_eq}
use rex.Types.Syntax.{Ty}
use rex.Evaluator.FrameStore.{FrameId}
use rex.Evaluator.Frame.Effect.{Effect, pure, ◌>>=◌}
use rex.Evaluator.Native.Scope.{Action, RootScope, fail, internal, native_type}
use rex.Evaluator.Native.Items.{ListItems, items_len, items_is_empty, get}
use rex.Evaluator.Native.Apply.{NativeStep, NativeChildSpec, schedule, return, native_apply_spec}
use rex.Evaluator.Native.Gather.{all_answers, store_answer, wait_or}
use rex.Evaluator.Native.Texts.{
  sequence_map_texts, sequence_filter_texts, sequence_filter_map_texts, sequence_flat_map_texts,
}
use rex.Evaluator.Native.Task.{
  NativeSequenceShape, list, NativeSequenceMap, NativeSequenceFilter, NativeSequenceFilterMap,
  NativeSequenceFlatMap, NativeSequencePredicate, NativeSequencePredicateMode, count, partition,
}

module _ {H P : Type 0} (scope : RootScope H P) where
  unfoldable pub alloc_native_sequence : NativeSequenceShape → List P → Action H P
  alloc_native_sequence list values = scope.alloc_root_list values

  unfoldable pub native_flatten_sequence : NativeSequenceShape → P → Action H (List P)
  native_flatten_sequence list root = scope.root_as_list root

  -- `tag == "Some"` with one argument, or `tag == "None"` with none.
  option_of_adt : P → String × List P → Action H (Option P)
  unfolding pure fail
  option_of_adt pointer (tag, arg ∷ []) =
      if str_eq tag "Some"
      then pure (some arg)
      else do got ← scope.type_name pointer; fail (native_type "Option" got)
  option_of_adt pointer (tag, []) =
      if str_eq tag "None"
      then pure none
      else do got ← scope.type_name pointer; fail (native_type "Option" got)
  option_of_adt pointer (tag, _ ∷ _ ∷ _) = do
    got ← scope.type_name pointer
    fail (native_type "Option" got)

  unfoldable pub option_value_ptr : P → Action H (Option P)
  unfolding option_of_adt
  option_value_ptr pointer = do adt ← scope.root_as_adt pointer; option_of_adt pointer adt

  -- `map`
  unfoldable pub enter_sequence_map :
      NativeSequenceMap P → Action H (NativeSequenceMap P × NativeStep P)
  unfolding pure items_is_empty items_len alloc_native_sequence
  enter_sequence_map task =
      if items_is_empty task.values
      then (do root ← alloc_native_sequence task.shape []; pure (task, return root))
      else pure (
        record task {
          children = [];
          output = replicate (items_len task.values) none;
          remaining = items_len task.values;
        },
        schedule (items_len task.values),
      )

  unfoldable pub finish_sequence_map :
      NativeSequenceShape → List (Option P) → Action H (NativeStep P)
  unfolding all_answers alloc_native_sequence
  finish_sequence_map shape slots = do
    output ← all_answers sequence_map_texts slots
    root ← alloc_native_sequence shape output
    pure (return root)

  unfoldable pub receive_sequence_map :
      FrameId → P → NativeSequenceMap P → Action H (NativeSequenceMap P × NativeStep P)
  unfolding finish_sequence_map
  receive_sequence_map child value task = do
    (output, remaining) ←
        store_answer sequence_map_texts child (pure value) task.children task.output task.remaining
    wait_or (record task { output = output; remaining = remaining }) remaining
        (finish_sequence_map task.shape output)

  -- `filter`: the loop over the answers, from the given position on.
  unfoldable pub kept_values : ListItems P → ℕ → List (Option Bool) → Action H (List P)
  unfolding pure fail
  kept_values values index [] = pure []
  kept_values values index (some true ∷ keep) = do
    value ← get scope index values
    rest ← kept_values values (suc index) keep
    pure (value ∷ rest)
  kept_values values index (some false ∷ keep) = kept_values values (suc index) keep
  kept_values values index (none ∷ keep) = fail (internal sequence_filter_texts.missing)

  unfoldable pub enter_sequence_filter :
      NativeSequenceFilter P → Action H (NativeSequenceFilter P × NativeStep P)
  unfolding pure items_is_empty items_len alloc_native_sequence
  enter_sequence_filter task =
      if items_is_empty task.values
      then (do root ← alloc_native_sequence task.shape []; pure (task, return root))
      else pure (
        record task {
          children = [];
          keep = replicate (items_len task.values) none;
          remaining = items_len task.values;
        },
        schedule (items_len task.values),
      )

  unfoldable pub finish_sequence_filter :
      NativeSequenceShape → ListItems P → List (Option Bool) → Action H (NativeStep P)
  unfolding kept_values alloc_native_sequence
  finish_sequence_filter shape values keep = do
    output ← kept_values values 0 keep
    root ← alloc_native_sequence shape output
    pure (return root)

  unfoldable pub receive_sequence_filter :
      FrameId → P → NativeSequenceFilter P → Action H (NativeSequenceFilter P × NativeStep P)
  unfolding finish_sequence_filter
  receive_sequence_filter child value task = do
    (keep, remaining) ←
        store_answer sequence_filter_texts child (scope.root_as_bool value) task.children task.keep
          task.remaining
    wait_or (record task { keep = keep; remaining = remaining }) remaining
        (finish_sequence_filter task.shape task.values keep)

  -- `filter_map`
  unfoldable pub some_answers : List (Option (Option P)) → Action H (List P)
  unfolding pure fail
  some_answers [] = pure []
  some_answers (some (some value) ∷ rest) = do values ← some_answers rest; pure (value ∷ values)
  some_answers (some none ∷ rest) = some_answers rest
  some_answers (none ∷ rest) = fail (internal sequence_filter_map_texts.missing)

  unfoldable pub enter_sequence_filter_map :
      NativeSequenceFilterMap P → Action H (NativeSequenceFilterMap P × NativeStep P)
  unfolding pure items_is_empty items_len alloc_native_sequence
  enter_sequence_filter_map task =
      if items_is_empty task.values
      then (do root ← alloc_native_sequence task.shape []; pure (task, return root))
      else pure (
        record task {
          children = [];
          output = replicate (items_len task.values) none;
          remaining = items_len task.values;
        },
        schedule (items_len task.values),
      )

  unfoldable pub finish_sequence_filter_map :
      NativeSequenceShape → List (Option (Option P)) → Action H (NativeStep P)
  unfolding some_answers alloc_native_sequence
  finish_sequence_filter_map shape slots = do
    output ← some_answers slots
    root ← alloc_native_sequence shape output
    pure (return root)

  unfoldable pub receive_sequence_filter_map :
      FrameId → P → NativeSequenceFilterMap P → Action H (NativeSequenceFilterMap P × NativeStep P)
  unfolding finish_sequence_filter_map
  receive_sequence_filter_map child value task = do
    (output, remaining) ←
        store_answer sequence_filter_map_texts child (option_value_ptr value) task.children
          task.output task.remaining
    wait_or (record task { output = output; remaining = remaining }) remaining
        (finish_sequence_filter_map task.shape output)

  -- `flat_map`
  unfoldable pub joined_answers : List (Option (List P)) → Action H (List P)
  unfolding pure fail
  joined_answers [] = pure []
  joined_answers (some values ∷ rest) = do values' ← joined_answers rest; pure (values ++ values')
  joined_answers (none ∷ rest) = fail (internal sequence_flat_map_texts.missing)

  unfoldable pub enter_sequence_flat_map :
      NativeSequenceFlatMap P → Action H (NativeSequenceFlatMap P × NativeStep P)
  unfolding pure items_is_empty items_len alloc_native_sequence
  enter_sequence_flat_map task =
      if items_is_empty task.values
      then (do root ← alloc_native_sequence task.shape []; pure (task, return root))
      else pure (
        record task {
          children = [];
          output = replicate (items_len task.values) none;
          remaining = items_len task.values;
        },
        schedule (items_len task.values),
      )

  unfoldable pub finish_sequence_flat_map :
      NativeSequenceShape → List (Option (List P)) → Action H (NativeStep P)
  unfolding joined_answers alloc_native_sequence
  finish_sequence_flat_map shape slots = do
    output ← joined_answers slots
    root ← alloc_native_sequence shape output
    pure (return root)

  unfoldable pub receive_sequence_flat_map :
      FrameId → P → NativeSequenceFlatMap P → Action H (NativeSequenceFlatMap P × NativeStep P)
  unfolding finish_sequence_flat_map
  receive_sequence_flat_map child value task = do
    (output, remaining) ←
        store_answer sequence_flat_map_texts child (native_flatten_sequence task.shape value)
          task.children task.output task.remaining
    wait_or (record task { output = output; remaining = remaining }) remaining
        (finish_sequence_flat_map task.shape output)

  -- The `child_spec` of these tasks: the function is applied to the element at the child's position.
  unfoldable pub element_spec : ℕ → P → Ty → Ty → ListItems P → ℕ → Action H (NativeChildSpec P)
  element_spec fuel func func_type elem_type values index = do
    value ← get scope index values
    native_apply_spec fuel func func_type value elem_type
