-- ===== src/Evaluator/Native/Sum.antt =====
-- rex-engine/src/evaluator/native_functions.rs: `NativeSum` and `NativeMean`, which add the elements up with
-- the `+` of their type, two applications an addition.
use rex.Prelude.{ℕ, ◌+◌, Option, none, some, if◌then◌else◌, ◌==◌}
use rex.Types.Syntax.{Ty, fun, con, is_builtin}
use rex.Types.Builtin.{f32, f64}
use rex.Evaluator.Frame.Effect.{pure, ◌>>=◌}
use rex.Evaluator.Native.Scope.{Action, RootScope, fail, ok_or, empty_sequence, not_a_float}
use rex.Evaluator.Native.Items.{items_len, items_is_empty, get}
use rex.Evaluator.Native.Apply.{
  NativeStep, return, native_apply_step, native_eval_var_step, binary_same_type,
}
use rex.Evaluator.Native.Fold.{unexpected_child_result}
use rex.Evaluator.Native.Task.{NativeSum, NativeMean, NativeFoldState, NativeMeanState}

module _ {H P : Type 0} (scope : RootScope H P) (fuel : ℕ) where
  sum_apply_first : NativeSum P → Action H (NativeStep P)
  unfolding ok_or binary_same_type
  sum_apply_first task = do
    plus ← ok_or "native sum missing plus function" task.plus
    acc ← ok_or "native sum missing accumulator" task.acc
    native_apply_step fuel plus (binary_same_type task.elem_type) acc task.elem_type

  sum_apply_second : NativeSum P → Action H (NativeStep P)
  unfolding ok_or
  sum_apply_second task = do
    step ← ok_or "native sum missing step" task.step
    arg ← get scope task.next_index task.values
    native_apply_step fuel step (fun task.elem_type task.elem_type) arg task.elem_type

  with_plus : Option P → NativeSum P → Action H (NativeSum P)
  unfolding pure binary_same_type
  with_plus (some plus) task = pure task
  with_plus none task = do
    root ← scope.alloc_root_overloaded "+" (binary_same_type task.elem_type)
    pure (record task { plus = some root })

  sum_apply_first_may_allocate : NativeSum P → Action H (NativeSum P × NativeStep P)
  unfolding pure with_plus sum_apply_first
  sum_apply_first_may_allocate task = do
    task' ← with_plus task.plus task
    step ← sum_apply_first task'
    pure (task', step)

  sum_start : P → NativeSum P → Action H (NativeSum P × NativeStep P)
  unfolding pure items_len sum_apply_first_may_allocate
  sum_start head task =
      if task.next_index == items_len task.values
      then pure (task, return head)
      else sum_apply_first_may_allocate (record task { state = NativeFoldState.apply_first })

  unfoldable pub enter_sum : NativeSum P → Action H (NativeSum P × NativeStep P)
  unfolding pure items_is_empty items_len native_eval_var_step sum_start
  enter_sum task =
      if items_is_empty task.values
      then pure (task, native_eval_var_step "zero" task.elem_type)
      else do
        head ← get scope 0 task.values
        sum_start head (record task { acc = some head; next_index = 1 })

  receive_sum_in : NativeFoldState → P → NativeSum P → Action H (NativeSum P × NativeStep P)
  unfolding pure items_len sum_apply_first sum_apply_second
  receive_sum_in NativeFoldState.enter value task = pure (task, return value)
  receive_sum_in NativeFoldState.apply_first value task = do
    let task' = record task { step = some value; state = NativeFoldState.apply_second }
    step ← sum_apply_second task'
    pure (task', step)
  receive_sum_in NativeFoldState.apply_second value task =
      let next = record task { acc = some value; step = none; next_index = task.next_index + 1 } in
      if next.next_index == items_len next.values then pure (next, return value) else do
        let task' = record next { state = NativeFoldState.apply_first }
        step ← sum_apply_first task'
        pure (task', step)

  unfoldable pub receive_sum : P → NativeSum P → Action H (NativeSum P × NativeStep P)
  unfolding receive_sum_in
  receive_sum value task = receive_sum_in task.state value task

  -- `NativeMean`
  mean_apply_plus_first : NativeMean P → Action H (NativeStep P)
  unfolding ok_or binary_same_type
  mean_apply_plus_first task = do
    acc ← ok_or "native mean missing accumulator" task.acc
    plus ← scope.alloc_root_overloaded "+" (binary_same_type task.elem_type)
    native_apply_step fuel plus (binary_same_type task.elem_type) acc task.elem_type

  mean_apply_plus_second : NativeMean P → Action H (NativeStep P)
  unfolding ok_or
  mean_apply_plus_second task = do
    step ← ok_or "native mean missing addition step" task.step
    arg ← get scope task.next_index task.values
    native_apply_step fuel step (fun task.elem_type task.elem_type) arg task.elem_type

  -- A length as a value of the element type, which must be `f32` or `f64`.
  unfoldable pub len_value_for_native_type : Ty → ℕ → Action H P
  unfolding fail
  len_value_for_native_type (con c) len =
      if is_builtin c f32
      then scope.alloc_root_float f32 len
      else if is_builtin c f64
      then scope.alloc_root_float f64 len
      else fail (not_a_float (con c))
  len_value_for_native_type typ len = fail (not_a_float typ)

  with_len_value : Option P → NativeMean P → Action H (NativeMean P)
  unfolding pure len_value_for_native_type
  with_len_value (some value) task = pure task
  with_len_value none task = do
    root ← len_value_for_native_type task.elem_type task.len
    pure (record task { len_value = some root })

  mean_apply_div_first : NativeMean P → Action H (NativeMean P × NativeStep P)
  unfolding pure ok_or binary_same_type with_len_value
  mean_apply_div_first task = do
    acc ← ok_or "native mean missing accumulator" task.acc
    div ← scope.alloc_root_overloaded "/" (binary_same_type task.elem_type)
    task' ← with_len_value task.len_value task
    step ← native_apply_step fuel div (binary_same_type task.elem_type) acc task.elem_type
    pure (task', step)

  mean_apply_div_second : NativeMean P → Action H (NativeStep P)
  unfolding ok_or
  mean_apply_div_second task = do
    step ← ok_or "native mean missing division step" task.step
    len_value ← ok_or "native mean missing length value" task.len_value
    native_apply_step fuel step (fun task.elem_type task.elem_type) len_value task.elem_type

  mean_start : NativeMean P → Action H (NativeMean P × NativeStep P)
  unfolding pure items_len mean_apply_div_first mean_apply_plus_first
  mean_start task =
      if task.next_index == items_len task.values
      then mean_apply_div_first (record task { state = NativeMeanState.apply_div_first })
      else do
        let task' = record task { state = NativeMeanState.apply_plus_first }
        step ← mean_apply_plus_first task'
        pure (task', step)

  unfoldable pub enter_mean : NativeMean P → Action H (NativeMean P × NativeStep P)
  unfolding fail items_is_empty items_len mean_start
  enter_mean task = if items_is_empty task.values then fail empty_sequence else do
    head ← get scope 0 task.values
    mean_start (record task { acc = some head; next_index = 1 })

  receive_mean_in : NativeMeanState → P → NativeMean P → Action H (NativeMean P × NativeStep P)
  unfolding pure mean_start mean_apply_plus_second mean_apply_div_second unexpected_child_result
  receive_mean_in NativeMeanState.apply_plus_first value task = do
    let task' = record task { step = some value; state = NativeMeanState.apply_plus_second }
    step ← mean_apply_plus_second task'
    pure (task', step)
  receive_mean_in NativeMeanState.apply_plus_second value task =
      mean_start (record task { acc = some value; step = none; next_index = task.next_index + 1 })
  receive_mean_in NativeMeanState.apply_div_first value task = do
    let task' = record task { step = some value; state = NativeMeanState.apply_div_second }
    step ← mean_apply_div_second task'
    pure (task', step)
  receive_mean_in NativeMeanState.apply_div_second value task = pure (task, return value)
  receive_mean_in NativeMeanState.enter value task = unexpected_child_result "native mean"

  unfoldable pub receive_mean : P → NativeMean P → Action H (NativeMean P × NativeStep P)
  unfolding receive_mean_in
  receive_mean value task = receive_mean_in task.state value task
