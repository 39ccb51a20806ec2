-- ===== src/Evaluator/Native/Search.antt =====
-- rex-engine/src/evaluator/native_functions.rs: `NativeListSearch`, which asks of one element after the
-- other and stops at the first that decides, and `NativeArrayEq`.
pub mod Laws
use rex.Prelude.{ℕ, ◌+◌, Bool, true, false, not, Option, none, some, if◌then◌else◌, ◌==◌}
use rex.Types.Syntax.{fun, builtin_ty}
use rex.Types.Builtin.{bool}
use rex.Evaluator.Frame.Effect.{pure, ◌>>=◌}
use rex.Evaluator.Native.Scope.{Action, RootScope, ok_or}
use rex.Evaluator.Native.Items.{items_len, items_is_empty, get}
use rex.Evaluator.Native.Apply.{NativeStep, return, native_apply_step}
use rex.Evaluator.Native.Unary.{option_from_native_pointer}
use rex.Evaluator.Native.Fold.{unexpected_child_result}
use rex.Evaluator.Native.Task.{
  NativeListSearch, NativeListSearchMode, any, every, find, find_index, NativeArrayEq,
  NativeArrayEqState,
}

module _ {H P : Type 0} (scope : RootScope H P) (fuel : ℕ) where
  unfoldable pub apply_next : NativeListSearch P → Action H (NativeStep P)
  apply_next task = do
    value ← get scope task.next_index task.values
    native_apply_step fuel task.func task.func_type value task.elem_type

  exhausted_value : NativeListSearchMode → Action H P
  unfolding option_from_native_pointer
  exhausted_value any = scope.alloc_root_bool false
  exhausted_value every = scope.alloc_root_bool true
  exhausted_value find = option_from_native_pointer scope none
  exhausted_value find_index = option_from_native_pointer scope none

  unfoldable pub exhausted : NativeListSearch P → Action H (NativeStep P)
  unfolding exhausted_value pure
  exhausted task = do value ← exhausted_value task.mode; pure (return value)

  unfoldable pub enter_list_search :
      NativeListSearch P → Action H (NativeListSearch P × NativeStep P)
  unfolding pure items_is_empty items_len exhausted apply_next
  enter_list_search task =
      let start = record task { next_index = 0 } in
      if items_is_empty task.values
      then (do step ← exhausted start; pure (start, step))
      else do step ← apply_next start; pure (start, step)

  -- The answer that decides, if this one does. An index of a `Vec` fits in 64 bits.
  decided : NativeListSearchMode → Bool → NativeListSearch P → Option (Action H P)
  unfolding option_from_native_pointer
  decided any true task = some (scope.alloc_root_bool true)
  decided every false task = some (scope.alloc_root_bool false)
  decided find true task = some (do
    value ← get scope task.next_index task.values
    option_from_native_pointer scope (some value))
  decided find_index true task = some (do
    index ← scope.alloc_root_u64 task.next_index
    option_from_native_pointer scope (some index))
  decided _ _ task = none

  go_on : NativeListSearch P → Action H (NativeListSearch P × NativeStep P)
  unfolding pure items_len exhausted apply_next
  go_on task =
      let next = record task { next_index = task.next_index + 1 } in
      if next.next_index == items_len next.values
      then (do step ← exhausted next; pure (next, step))
      else do step ← apply_next next; pure (next, step)

  after_answer :
      Option (Action H P) → NativeListSearch P → Action H (NativeListSearch P × NativeStep P)
  unfolding pure go_on
  after_answer (some found) task = do value ← found; pure (task, return value)
  after_answer none task = go_on task

  unfoldable pub receive_list_search :
      P → NativeListSearch P → Action H (NativeListSearch P × NativeStep P)
  unfolding decided after_answer
  receive_list_search value task = do
    matched ← scope.root_as_bool value
    after_answer (decided task.mode matched task) task

  -- `NativeArrayEq`
  eq_apply_first : NativeArrayEq P → Action H (NativeStep P)
  eq_apply_first task = do
    let eq_ty = fun task.elem_type (fun task.elem_type (builtin_ty bool))
    lhs ← get scope task.next_index task.xs
    eq ← scope.alloc_root_overloaded "==" eq_ty
    native_apply_step fuel eq eq_ty lhs task.elem_type

  eq_apply_second : NativeArrayEq P → Action H (NativeStep P)
  unfolding ok_or
  eq_apply_second task = do
    step ← ok_or "native list equality missing step" task.step
    y ← get scope task.next_index task.ys
    native_apply_step fuel step (fun task.elem_type (builtin_ty bool)) y task.elem_type

  eq_result : NativeArrayEq P → Bool → Action H (NativeStep P)
  unfolding pure
  eq_result task equal = do
    root ← scope.alloc_root_bool (if task.negate then not equal else equal)
    pure (return root)

  unfoldable pub enter_array_eq : NativeArrayEq P → Action H (NativeArrayEq P × NativeStep P)
  unfolding pure items_is_empty items_len eq_result eq_apply_first
  enter_array_eq task =
      if not (items_len task.xs == items_len task.ys)
      then (do step ← eq_result task false; pure (task, step))
      else if items_is_empty task.xs
      then (do step ← eq_result task true; pure (task, step))
      else do
        let task' = record task { state = NativeArrayEqState.apply_first; next_index = 0 }
        step ← eq_apply_first task'
        pure (task', step)

  eq_next : NativeArrayEq P → Action H (NativeArrayEq P × NativeStep P)
  unfolding pure items_len eq_result eq_apply_first
  eq_next task =
      let next = record task { step = none; next_index = task.next_index + 1 } in
      if next.next_index == items_len next.xs
      then (do step ← eq_result next true; pure (next, step))
      else do
        let task' = record next { state = NativeArrayEqState.apply_first }
        step ← eq_apply_first task'
        pure (task', step)

  receive_array_eq_in :
      NativeArrayEqState → P → NativeArrayEq P → Action H (NativeArrayEq P × NativeStep P)
  unfolding pure eq_apply_second eq_result eq_next unexpected_child_result
  receive_array_eq_in NativeArrayEqState.apply_first value task = do
    let task' = record task { step = some value; state = NativeArrayEqState.apply_second }
    step ← eq_apply_second task'
    pure (task', step)
  receive_array_eq_in NativeArrayEqState.apply_second value task = do
    same ← scope.root_as_bool value
    if same then eq_next task else (do step ← eq_result task false; pure (task, step))
  receive_array_eq_in NativeArrayEqState.enter value task =
      unexpected_child_result "native list equality"

  unfoldable pub receive_array_eq : P → NativeArrayEq P → Action H (NativeArrayEq P × NativeStep P)
  unfolding receive_array_eq_in
  receive_array_eq value task = receive_array_eq_in task.state value task
