-- ===== src/Evaluator/Native/MapValues.antt =====
-- rex-engine/src/evaluator/native_functions.rs, `NativeTask::map_values`: each value of a task is handed
-- to a function, in the order of the fields, and the first error ends it.
pub mod Parts
pub mod Sequences
pub mod Calls
pub mod Dicts
use rex.Prelude.{List, Option, String}
use rex.Evaluator.Frame.Effect.{Effect, pure, ◌>>=◌}
use rex.Evaluator.Frame.MapValues.{map_option, map_vec, map_option_vec}
use rex.Evaluator.Native.Items.{map_items}
use rex.Evaluator.Native.Task.{
  NativeTask, NativeApplyUnary, NativeSequenceMap, NativeSequenceFilter, NativeSequencePredicate,
  NativeSequenceFilterMap, NativeSequenceFlatMap, NativeListSearch, NativeUnaryMap,
  NativeUnaryFilter, NativeUnaryFilterMap, NativeUnaryFlatMap, NativeFold, NativeDictMap,
  NativeDictEntryMap, NativeDictFilter, NativeDictFilterMap, NativeDictUpdate, NativeArrayEq,
  NativeSum, NativeMean, apply_unary, sequence_map, sequence_filter, sequence_predicate,
  sequence_filter_map, sequence_flat_map, list_search, unary_map, unary_filter, unary_filter_map,
  unary_flat_map, fold, dict_map, dict_entry_map, dict_filter, dict_filter_map, dict_update,
  array_eq, sum, mean,
}
unfoldable pub use rex.Evaluator.Native.MapValues.Parts.{
  map_nested_option_values, map_option_value_vecs, map_entries_into,
}
unfoldable pub use rex.Evaluator.Native.MapValues.Sequences.{
  map_sequence_map, map_sequence_filter, map_sequence_predicate, map_sequence_filter_map,
  map_sequence_flat_map, map_list_search,
}
unfoldable pub use rex.Evaluator.Native.MapValues.Calls.{
  map_apply_unary, map_unary_map, map_unary_filter, map_unary_filter_map, map_unary_flat_map,
  map_fold, map_array_eq, map_sum, map_mean,
}
unfoldable pub use rex.Evaluator.Native.MapValues.Dicts.{
  map_dict_map, map_dict_entry_map, map_dict_filter, map_dict_filter_map, map_dict_update,
}

module _ {S Err P Q : Type 0} (f : P → Effect S Err Q) where
  unfoldable pub map_task : NativeTask P → Effect S Err (NativeTask Q)
  unfolding map_apply_unary map_sequence_map map_sequence_filter map_sequence_predicate
      map_sequence_filter_map map_sequence_flat_map map_list_search map_unary_map map_unary_filter
      map_unary_filter_map map_unary_flat_map map_fold map_dict_map map_dict_entry_map
      map_dict_filter map_dict_filter_map map_dict_update map_array_eq map_sum map_mean
  map_task (apply_unary task) = do task' ← map_apply_unary f task; pure (apply_unary task')
  map_task (sequence_map task) = do task' ← map_sequence_map f task; pure (sequence_map task')
  map_task (sequence_filter task) = do
    task' ← map_sequence_filter f task
    pure (sequence_filter task')
  map_task (sequence_predicate task) = do
    task' ← map_sequence_predicate f task
    pure (sequence_predicate task')
  map_task (sequence_filter_map task) = do
    task' ← map_sequence_filter_map f task
    pure (sequence_filter_map task')
  map_task (sequence_flat_map task) = do
    task' ← map_sequence_flat_map f task
    pure (sequence_flat_map task')
  map_task (list_search task) = do task' ← map_list_search f task; pure (list_search task')
  map_task (unary_map task) = do task' ← map_unary_map f task; pure (unary_map task')
  map_task (unary_filter task) = do task' ← map_unary_filter f task; pure (unary_filter task')
  map_task (unary_filter_map task) = do
    task' ← map_unary_filter_map f task
    pure (unary_filter_map task')
  map_task (unary_flat_map task) = do task' ← map_unary_flat_map f task; pure (unary_flat_map task')
  map_task (fold task) = do task' ← map_fold f task; pure (fold task')
  map_task (dict_map task) = do task' ← map_dict_map f task; pure (dict_map task')
  map_task (dict_entry_map task) = do task' ← map_dict_entry_map f task; pure (dict_entry_map task')
  map_task (dict_filter task) = do task' ← map_dict_filter f task; pure (dict_filter task')
  map_task (dict_filter_map task) = do
    task' ← map_dict_filter_map f task
    pure (dict_filter_map task')
  map_task (dict_update task) = do task' ← map_dict_update f task; pure (dict_update task')
  map_task (array_eq task) = do task' ← map_array_eq f task; pure (array_eq task')
  map_task (sum task) = do task' ← map_sum f task; pure (sum task')
  map_task (mean task) = do task' ← map_mean f task; pure (mean task')
