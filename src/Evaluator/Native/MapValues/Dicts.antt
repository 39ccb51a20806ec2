-- ===== src/Evaluator/Native/MapValues/Dicts.antt =====
-- rex-engine/src/evaluator/native_functions.rs, `NativeTask::map_values`: the tasks on dictionaries.
use rex.Evaluator.Frame.Effect.{Effect, pure, ◌>>=◌}
use rex.Evaluator.Frame.MapValues.{map_vec, map_option_vec}
use rex.Evaluator.Native.Task.{
  NativeDictMap, NativeDictEntryMap, NativeDictFilter, NativeDictFilterMap, NativeDictUpdate,
}
use rex.Evaluator.Native.MapValues.Parts.{map_nested_option_values, map_entries_into}

module _ {S Err P Q : Type 0} (f : P → Effect S Err Q) where
  unfoldable pub map_dict_map : NativeDictMap P → Effect S Err (NativeDictMap Q)
  map_dict_map task = do
    func ← f task.func
    entries ← map_entries_into f task.entries
    output ← map_entries_into f task.output
    pure (record {
      func = func;
      func_type = task.func_type;
      elem_type = task.elem_type;
      entries = entries;
      children = task.children;
      output = output;
      remaining = task.remaining;
    })

  unfoldable pub map_dict_entry_map : NativeDictEntryMap P → Effect S Err (NativeDictEntryMap Q)
  map_dict_entry_map task = do
    func ← f task.func
    args ← map_vec f task.args
    output ← map_option_vec f task.output
    pure (record {
      func = func;
      func_type = task.func_type;
      entry_type = task.entry_type;
      args = args;
      children = task.children;
      output = output;
      remaining = task.remaining;
    })

  unfoldable pub map_dict_filter : NativeDictFilter P → Effect S Err (NativeDictFilter Q)
  map_dict_filter task = do
    func ← f task.func
    entries ← map_entries_into f task.entries
    args ← map_vec f task.args
    pure (record {
      func = func;
      func_type = task.func_type;
      arg_type = task.arg_type;
      entries = entries;
      args = args;
      children = task.children;
      keep = task.keep;
      remaining = task.remaining;
    })

  unfoldable pub map_dict_filter_map : NativeDictFilterMap P → Effect S Err (NativeDictFilterMap Q)
  map_dict_filter_map task = do
    func ← f task.func
    entries ← map_entries_into f task.entries
    output ← map_nested_option_values f task.output
    pure (record {
      func = func;
      func_type = task.func_type;
      elem_type = task.elem_type;
      entries = entries;
      children = task.children;
      output = output;
      remaining = task.remaining;
    })

  unfoldable pub map_dict_update : NativeDictUpdate P → Effect S Err (NativeDictUpdate Q)
  map_dict_update task = do
    func ← f task.func
    entries ← map_entries_into f task.entries
    arg ← f task.arg
    pure (record {
      func = func;
      func_type = task.func_type;
      option_type = task.option_type;
      key = task.key;
      entries = entries;
      arg = arg;
      children = task.children;
    })
