-- ===== src/Evaluator/Native/Fold.antt =====
-- rex-engine/src/evaluator/native_functions.rs, `NativeFold`: one child at a time. The function of two
-- arguments is applied in two steps: to the first, and then the answer to the second.
pub mod Rounds
pub mod Laws
use rex.Prelude.{
  ℕ, ◌+◌, ◌-◌, Bool, true, false, List, Option, none, some, String, ltb, if◌then◌else◌, ◌==◌,
}
use rex.Types.Syntax.{Ty, fun}
use rex.Evaluator.Frame.Effect.{Effect, pure, ◌>>=◌}
use rex.Evaluator.Native.Scope.{Action, RootScope, fail, internal, ok_or}
use rex.Evaluator.Native.Items.{ListItems, items_len, items_is_empty, get}
use rex.Evaluator.Native.Apply.{NativeStep, return, native_apply_step}
use rex.Evaluator.Native.Task.{NativeFold, NativeFoldOrder, left, right, NativeFoldState}

-- rex-engine/src/evaluator/eval.rs. Of the text only the name of the frame is kept.
unfoldable pub unexpected_child_result : {H A : Type 0} → String → Action H A
unfolding fail
unexpected_child_result frame = fail (internal frame)

module _ {H P : Type 0} (scope : RootScope H P) (fuel : ℕ) where
  -- `NativeFold`
  value_at : NativeFoldOrder → ListItems P → ℕ → Action H P
  unfolding fail items_len
  value_at left values index = get scope index values
  value_at right values index =
      if ltb (items_len values) (index + 1)
      then fail (internal "native fold index out of bounds")
      else get scope (items_len values - (index + 1)) values

  first_arg : NativeFoldOrder → NativeFold P → Action H (P × Ty)
  unfolding pure value_at
  first_arg left task = pure (task.acc, task.acc_type)
  first_arg right task = do
    value ← value_at right task.values task.next_index
    pure (value, task.elem_type)

  second_arg : NativeFoldOrder → NativeFold P → Action H (P × Ty)
  unfolding pure value_at
  second_arg left task = do
    value ← value_at left task.values task.next_index
    pure (value, task.elem_type)
  second_arg right task = pure (task.acc, task.acc_type)

  fold_apply_first : NativeFold P → Action H (NativeStep P)
  unfolding first_arg
  fold_apply_first task = do
    (arg, arg_type) ← first_arg task.order task
    native_apply_step fuel task.func task.func_type arg arg_type

  fold_apply_second : NativeFold P → Action H (NativeStep P)
  unfolding second_arg ok_or
  fold_apply_second task = do
    step ← ok_or "native fold missing step function" task.step
    (arg, arg_type) ← second_arg task.order task
    native_apply_step fuel step (fun arg_type task.acc_type) arg arg_type

  unfoldable pub enter_fold : NativeFold P → Action H (NativeFold P × NativeStep P)
  unfolding pure items_is_empty items_len fold_apply_first
  enter_fold task = if items_is_empty task.values then pure (task, return task.acc) else do
    let task' = record task { state = NativeFoldState.apply_first; next_index = 0 }
    step ← fold_apply_first task'
    pure (task', step)

  receive_fold_in : NativeFoldState → P → NativeFold P → Action H (NativeFold P × NativeStep P)
  unfolding pure items_len fold_apply_first fold_apply_second unexpected_child_result
  receive_fold_in NativeFoldState.apply_first value task = do
    let task' = record task { step = some value; state = NativeFoldState.apply_second }
    step ← fold_apply_second task'
    pure (task', step)
  receive_fold_in NativeFoldState.apply_second value task =
      let next = record task { acc = value; step = none; next_index = task.next_index + 1 } in
      if next.next_index == items_len next.values then pure (next, return next.acc) else do
        let task' = record next { state = NativeFoldState.apply_first }
        step ← fold_apply_first task'
        pure (task', step)
  receive_fold_in NativeFoldState.enter value task = unexpected_child_result "native fold"

  unfoldable pub receive_fold : P → NativeFold P → Action H (NativeFold P × NativeStep P)
  unfolding receive_fold_in
  receive_fold value task = receive_fold_in task.state value task
