-- ===== src/Evaluator/Native/Unary.antt =====
-- rex-engine/src/evaluator/native_functions.rs: the tasks that apply a function once, to the value inside
-- an option or a result.
use rex.Prelude.{List, [], ◌∷◌, Option, none, some, if◌then◌else◌, ℕ}
use text.Mathlib.Text.{◌==◌ as str_eq}
use rex.Types.Syntax.{Symbol}
use rex.Evaluator.Frame.Effect.{pure, ◌>>=◌}
use rex.Evaluator.Native.Scope.{Action, RootScope, fail, native_type}
use rex.Evaluator.Native.Apply.{NativeStep, return, native_apply_step}
use rex.Evaluator.Native.Task.{
  NativeUnaryShape, option, result, NativeApplyUnary, NativeUnaryMap, NativeUnaryFilter,
  NativeUnaryFilterMap, NativeUnaryFlatMap,
}

module _ {H P : Type 0} (fuel : ℕ) where
  unfoldable pub enter_apply_unary : NativeApplyUnary P → Action H (NativeStep P)
  enter_apply_unary task = native_apply_step fuel task.func task.func_type task.arg task.arg_type

  unfoldable pub enter_unary_map : NativeUnaryMap P → Action H (NativeStep P)
  enter_unary_map task = native_apply_step fuel task.func task.func_type task.value task.elem_type

  unfoldable pub enter_unary_filter : NativeUnaryFilter P → Action H (NativeStep P)
  enter_unary_filter task =
      native_apply_step fuel task.func task.func_type task.value task.elem_type

  unfoldable pub enter_unary_filter_map : NativeUnaryFilterMap P → Action H (NativeStep P)
  enter_unary_filter_map task =
      native_apply_step fuel task.func task.func_type task.value task.elem_type

  unfoldable pub enter_unary_flat_map : NativeUnaryFlatMap P → Action H (NativeStep P)
  enter_unary_flat_map task =
      native_apply_step fuel task.func task.func_type task.value task.elem_type

-- `NativeApplyUnary` and `NativeUnaryFilterMap` return what they receive.
unfoldable pub receive_returned : {H P : Type 0} → P → Action H (NativeStep P)
unfolding pure
receive_returned value = pure (return value)

module _ {H P : Type 0} (scope : RootScope H P) where
  unfoldable pub option_from_native_pointer : Option P → Action H P
  option_from_native_pointer (some value) = scope.alloc_root_adt "Some" (value ∷ [])
  option_from_native_pointer none = scope.alloc_root_adt "None" []

  -- `result_from_native_pointer`, for the `Ok` that its caller gives.
  unfoldable pub ok_from_native_pointer : P → Action H P
  ok_from_native_pointer value = scope.alloc_root_adt "Ok" (value ∷ [])

  -- `Ok(_)` and `Err(_)` are told apart only to be accepted.
  check_result : P → Symbol × List P → Action H Unit
  unfolding pure fail
  check_result pointer (tag, arg ∷ []) =
      if str_eq tag "Ok"
      then pure tt
      else if str_eq tag "Err"
      then pure tt
      else do got ← scope.type_name pointer; fail (native_type "Result" got)
  check_result pointer _ = do got ← scope.type_name pointer; fail (native_type "Result" got)

  unfoldable pub result_value_ptr : P → Action H Unit
  unfolding check_result
  result_value_ptr pointer = do adt ← scope.root_as_adt pointer; check_result pointer adt

  wrapped : NativeUnaryShape → P → Action H P
  unfolding option_from_native_pointer ok_from_native_pointer
  wrapped option value = option_from_native_pointer (some value)
  wrapped result value = ok_from_native_pointer value

  unfoldable pub receive_unary_map : P → NativeUnaryMap P → Action H (NativeStep P)
  unfolding wrapped pure
  receive_unary_map value task = do value' ← wrapped task.shape value; pure (return value')

  unfoldable pub receive_unary_filter : P → NativeUnaryFilter P → Action H (NativeStep P)
  unfolding option_from_native_pointer pure
  receive_unary_filter value task = do
    kept ← scope.root_as_bool value
    value' ← (if kept then pure task.original else option_from_native_pointer none)
    pure (return value')

  checked : NativeUnaryShape → P → Action H Unit
  unfolding result_value_ptr pure
  checked option value = pure tt
  checked result value = result_value_ptr value

  unfoldable pub receive_unary_flat_map : P → NativeUnaryFlatMap P → Action H (NativeStep P)
  unfolding checked pure
  receive_unary_flat_map value task = do accepted ← checked task.shape value; pure (return value)
