-- ===== src/Evaluator/Native/MapValues/Sequences.antt =====
-- rex-engine/src/evaluator/native_functions.rs, `NativeTask::map_values`: the tasks on lists with children.
use rex.Evaluator.Frame.Effect.{Effect, pure, ◌>>=◌}
use rex.Evaluator.Frame.MapValues.{map_option_vec}
use rex.Evaluator.Native.Items.{map_items}
use rex.Evaluator.Native.Task.{
  NativeSequenceMap, NativeSequenceFilter, NativeSequencePredicate, NativeSequenceFilterMap,
  NativeSequenceFlatMap, NativeListSearch,
}
use rex.Evaluator.Native.MapValues.Parts.{map_nested_option_values, map_option_value_vecs}

module _ {S Err P Q : Type 0} (f : P → Effect S Err Q) where
  unfoldable pub map_sequence_map : NativeSequenceMap P → Effect S Err (NativeSequenceMap Q)
  map_sequence_map task = do
    func ← f task.func
    values ← map_items f task.values
    output ← map_option_vec f task.output
    pure (record {
      func = func;
      func_type = task.func_type;
      elem_type = task.elem_type;
      values = values;
      shape = task.shape;
      children = task.children;
      output = output;
      remaining = task.remaining;
    })

  unfoldable pub map_sequence_filter :
      NativeSequenceFilter P → Effect S Err (NativeSequenceFilter Q)
  map_sequence_filter task = do
    func ← f task.func
    values ← map_items f task.values
    pure (record {
      func = func;
      func_type = task.func_type;
      elem_type = task.elem_type;
      values = values;
      shape = task.shape;
      children = task.children;
      keep = task.keep;
      remaining = task.remaining;
    })

  unfoldable pub map_sequence_predicate :
      NativeSequencePredicate P → Effect S Err (NativeSequencePredicate Q)
  map_sequence_predicate task = do
    func ← f task.func
    values ← map_items f task.values
    pure (record {
      func = func;
      func_type = task.func_type;
      elem_type = task.elem_type;
      values = values;
      mode = task.mode;
      children = task.children;
      matches = task.matches;
      remaining = task.remaining;
    })

  unfoldable pub map_sequence_filter_map :
      NativeSequenceFilterMap P → Effect S Err (NativeSequenceFilterMap Q)
  map_sequence_filter_map task = do
    func ← f task.func
    values ← map_items f task.values
    output ← map_nested_option_values f task.output
    pure (record {
      func = func;
      func_type = task.func_type;
      elem_type = task.elem_type;
      values = values;
      shape = task.shape;
      children = task.children;
      output = output;
      remaining = task.remaining;
    })

  unfoldable pub map_sequence_flat_map :
      NativeSequenceFlatMap P → Effect S Err (NativeSequenceFlatMap Q)
  map_sequence_flat_map task = do
    func ← f task.func
    values ← map_items f task.values
    output ← map_option_value_vecs f task.output
    pure (record {
      func = func;
      func_type = task.func_type;
      elem_type = task.elem_type;
      values = values;
      shape = task.shape;
      children = task.children;
      output = output;
      remaining = task.remaining;
    })

  unfoldable pub map_list_search : NativeListSearch P → Effect S Err (NativeListSearch Q)
  map_list_search task = do
    func ← f task.func
    values ← map_items f task.values
    pure (record {
      func = func;
      func_type = task.func_type;
      elem_type = task.elem_type;
      values = values;
      mode = task.mode;
      next_index = task.next_index;
    })
