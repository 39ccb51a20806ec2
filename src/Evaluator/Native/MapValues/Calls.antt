-- ===== src/Evaluator/Native/MapValues/Calls.antt =====
-- rex-engine/src/evaluator/native_functions.rs, `NativeTask::map_values`: the tasks with one child at a time.
use rex.Evaluator.Frame.Effect.{Effect, pure, ◌>>=◌}
use rex.Evaluator.Frame.MapValues.{map_option}
use rex.Evaluator.Native.Items.{map_items}
use rex.Evaluator.Native.Task.{
  NativeApplyUnary, NativeUnaryMap, NativeUnaryFilter, NativeUnaryFilterMap, NativeUnaryFlatMap,
  NativeFold, NativeArrayEq, NativeSum, NativeMean,
}

module _ {S Err P Q : Type 0} (f : P → Effect S Err Q) where
  unfoldable pub map_apply_unary : NativeApplyUnary P → Effect S Err (NativeApplyUnary Q)
  map_apply_unary task = do
    func ← f task.func
    arg ← f task.arg
    pure (record { func = func; func_type = task.func_type; arg = arg; arg_type = task.arg_type })

  unfoldable pub map_unary_map : NativeUnaryMap P → Effect S Err (NativeUnaryMap Q)
  map_unary_map task = do
    func ← f task.func
    value ← f task.value
    pure (record {
      func = func;
      func_type = task.func_type;
      elem_type = task.elem_type;
      value = value;
      shape = task.shape;
    })

  unfoldable pub map_unary_filter : NativeUnaryFilter P → Effect S Err (NativeUnaryFilter Q)
  map_unary_filter task = do
    func ← f task.func
    value ← f task.value
    original ← f task.original
    pure (record {
      func = func;
      func_type = task.func_type;
      elem_type = task.elem_type;
      value = value;
      original = original;
    })

  unfoldable pub map_unary_filter_map :
      NativeUnaryFilterMap P → Effect S Err (NativeUnaryFilterMap Q)
  map_unary_filter_map task = do
    func ← f task.func
    value ← f task.value
    pure (record {
      func = func;
      func_type = task.func_type;
      elem_type = task.elem_type;
      value = value;
    })

  unfoldable pub map_unary_flat_map : NativeUnaryFlatMap P → Effect S Err (NativeUnaryFlatMap Q)
  map_unary_flat_map task = do
    func ← f task.func
    value ← f task.value
    pure (record {
      func = func;
      func_type = task.func_type;
      elem_type = task.elem_type;
      value = value;
      shape = task.shape;
    })

  unfoldable pub map_fold : NativeFold P → Effect S Err (NativeFold Q)
  map_fold task = do
    func ← f task.func
    values ← map_items f task.values
    acc ← f task.acc
    step ← map_option f task.step
    pure (record {
      func = func;
      func_type = task.func_type;
      acc_type = task.acc_type;
      elem_type = task.elem_type;
      values = values;
      acc = acc;
      order = task.order;
      state = task.state;
      next_index = task.next_index;
      step = step;
    })

  unfoldable pub map_array_eq : NativeArrayEq P → Effect S Err (NativeArrayEq Q)
  map_array_eq task = do
    xs ← map_items f task.xs
    ys ← map_items f task.ys
    step ← map_option f task.step
    pure (record {
      elem_type = task.elem_type;
      xs = xs;
      ys = ys;
      state = task.state;
      next_index = task.next_index;
      step = step;
      negate = task.negate;
    })

  unfoldable pub map_sum : NativeSum P → Effect S Err (NativeSum Q)
  map_sum task = do
    values ← map_items f task.values
    acc ← map_option f task.acc
    plus ← map_option f task.plus
    step ← map_option f task.step
    pure (record {
      elem_type = task.elem_type;
      values = values;
      acc = acc;
      plus = plus;
      state = task.state;
      next_index = task.next_index;
      step = step;
    })

  unfoldable pub map_mean : NativeMean P → Effect S Err (NativeMean Q)
  map_mean task = do
    values ← map_items f task.values
    acc ← map_option f task.acc
    step ← map_option f task.step
    len_value ← map_option f task.len_value
    pure (record {
      elem_type = task.elem_type;
      values = values;
      len = task.len;
      acc = acc;
      state = task.state;
      next_index = task.next_index;
      step = step;
      len_value = len_value;
    })
