-- ===== src/Evaluator/Native/Control.antt =====
-- rex-engine/src/evaluator/native_functions.rs and eval.rs: what the step of a task does with the frames
-- of the evaluation. The state is that of the heap together with the frame store. `A` is an argument or
-- an arm that a frame holds.
pub mod Schedule
pub mod Enter
use rex.Prelude.{ℕ, zero, suc, List, [], ◌∷◌, String, Option, none, some}
use rex.Evaluator.FrameStore.{FrameId, FrameStore, Failure, raised, Result, insert, get, replace}
use rex.Evaluator.Environment.{Environment}
use rex.Evaluator.Frame.{
  Frame, FrValue, FrApp, FrNativeCall, FrNativeCallState, FrValueState, FrAppState, native_call,
}
use rex.Evaluator.Frame.Effect.{Effect, ok, err, pure, ◌>>=◌}
use rex.Evaluator.Frame.Effect
use rex.Evaluator.Native.Scope.{Action, RootScope, EngineError, internal}
use rex.Evaluator.Native.Apply.{TypedExpr, TypedExprKind, typed, NativeStep, NativeChildSpec}
use rex.Evaluator.Native.Task.{NativeTask}
use rex.Evaluator.Native.Coroutine.{
  push_scheduled_child, scheduled_children, scheduled_child_spec, enter_task, receive_task,
}
use rex.Evaluator.Native.Fold.{unexpected_child_result}

abbrev pub NativeFrame : Type 0 → Type 0 → Type 0
NativeFrame P A = Frame P (Environment P) TypedExpr A (NativeTask P)

abbrev pub Control : Type 0 → Type 0 → Type 0 → Type 0 → Type 0
Control H P A B = Effect (H × FrameStore (NativeFrame P A)) (Failure EngineError) B

-- rex-engine/src/evaluator/eval.rs, without the request to the host, which no task makes.
pub data EvalControl (P A : Type 0) : Type 0 where
  push : TypedExpr → Environment P → EvalControl P A
  push_frame : NativeFrame P A → EvalControl P A
  schedule : List FrameId → EvalControl P A
  wait : EvalControl P A
  return : P → EvalControl P A

module _ {H P A : Type 0} where
  lifted :
      {B : Type 0}
      → FrameStore (NativeFrame P A)
      → Effect.Done H EngineError B
      → Effect.Done (H × FrameStore (NativeFrame P A)) (Failure EngineError) B
  lifted frames (ok b h) = ok b (h, frames)
  lifted frames (err e h) = err (raised e) (h, frames)

  unfoldable pub in_heap : {B : Type 0} → Action H B → Control H P A B
  unfolding lifted
  in_heap action (h, frames) = lifted frames (action h)

  got :
      {B : Type 0}
      → H
      → FrameStore (NativeFrame P A)
      → Result EngineError B
      → Effect.Done (H × FrameStore (NativeFrame P A)) (Failure EngineError) B
  got h frames (Result.ok b) = ok b (h, frames)
  got h frames (Result.err e) = err e (h, frames)

  changed :
      H
      → FrameStore (NativeFrame P A)
      → Result EngineError (FrameStore (NativeFrame P A))
      → Effect.Done (H × FrameStore (NativeFrame P A)) (Failure EngineError) Unit
  changed h frames (Result.ok frames') = ok tt (h, frames')
  changed h frames (Result.err e) = err e (h, frames)

  added :
      H
      → FrameStore (NativeFrame P A)
      → Result EngineError (FrameStore (NativeFrame P A) × FrameId)
      → Effect.Done (H × FrameStore (NativeFrame P A)) (Failure EngineError) FrameId
  added h frames (Result.ok (frames', id)) = ok id (h, frames')
  added h frames (Result.err e) = err e (h, frames)

  unfoldable pub get_frame : FrameId → Control H P A (NativeFrame P A)
  unfolding got
  get_frame id (h, frames) = got h frames (get id frames)

  unfoldable pub replace_frame : FrameId → NativeFrame P A → Control H P A Unit
  unfolding changed
  replace_frame id frame (h, frames) = changed h frames (replace id frame frames)

  unfoldable pub insert_frame : NativeFrame P A → Control H P A FrameId
  unfolding added
  insert_frame frame (h, frames) = added h frames (insert frame frames)

  -- Of the text only the name of the kind is kept.
  unfoldable pub frame_kind_error : {B : Type 0} → String → Control H P A B
  frame_kind_error expected s = err (raised (internal expected)) s

  unfoldable pub native_call_of : NativeFrame P A → Control H P A (FrNativeCall (NativeTask P))
  unfolding pure frame_kind_error
  native_call_of (native_call frame) = pure frame
  native_call_of _ = frame_kind_error "native call"

-- For the two kinds of expression that a task builds.
unfoldable pub frame_for_expr :
    {P A : Type 0} → Option FrameId → TypedExpr → Environment P → NativeFrame P A
frame_for_expr parent (typed t (TypedExprKind.var name overloads)) env = Frame.var (record {
  parent = parent;
  expr = typed t (TypedExprKind.var name overloads);
  env = env;
  state = FrValueState.enter;
  value = none;
})
frame_for_expr parent (typed t (TypedExprKind.app f x)) env = Frame.app (record {
  parent = parent;
  expr = typed t (TypedExprKind.app f x);
  env = env;
  state = FrAppState.enter;
  head = none;
  spine = [];
  head_child = none;
  arg_children = [];
  arg_values = [];
  remaining = 0;
  next_arg_index = 0;
  func = none;
  arg = none;
})

module _ {H P A : Type 0} (scope : RootScope H P) (fuel : ℕ) (frame_id : FrameId) where
  -- One round of the loop that makes the children.
  unfoldable pub schedule_child : ℕ → Control H P A Unit
  unfolding native_call_of in_heap
  schedule_child index = do
    frame ← get_frame frame_id
    current ← native_call_of frame
    spec ← in_heap (scheduled_child_spec scope fuel index current.task)
    child ← insert_frame (frame_for_expr (some frame_id) spec.expr spec.env)
    frame' ← get_frame frame_id
    current' ← native_call_of frame'
    task ← in_heap (push_scheduled_child child current'.task)
    replace_frame frame_id (native_call (record current' { task = task }))

  unfoldable pub schedule_children : ℕ → ℕ → Control H P A Unit
  unfolding pure
  schedule_children zero index = pure tt
  schedule_children (suc count) index = do
    done ← schedule_child index
    schedule_children count (suc index)

  unfoldable pub native_step_to_control :
      FrNativeCall (NativeTask P) → NativeStep P → Control H P A (EvalControl P A)
  unfolding pure native_call_of in_heap
  native_step_to_control frame NativeStep.wait = do
    done ← replace_frame frame_id (native_call frame)
    pure wait
  native_step_to_control frame (NativeStep.return value) = pure (return value)
  native_step_to_control frame (NativeStep.push expr env) = do
    done ← replace_frame frame_id (native_call (record frame { state = FrNativeCallState.waiting }))
    pure (push expr env)
  native_step_to_control frame (NativeStep.schedule count) = do
    done ← replace_frame frame_id (native_call (record frame { state = FrNativeCallState.waiting }))
    made ← schedule_children count 0
    frame' ← get_frame frame_id
    current ← native_call_of frame'
    children ← in_heap (scheduled_children current.task)
    pure (schedule children)

  entered : FrNativeCallState → FrNativeCall (NativeTask P) → Control H P A (EvalControl P A)
  unfolding in_heap
  entered FrNativeCallState.enter frame = do
    (task, step) ← in_heap (enter_task scope fuel frame.task)
    native_step_to_control (record frame { task = task }) step
  entered FrNativeCallState.waiting frame = in_heap (unexpected_child_result "native call")

  unfoldable pub eval_native_enter : FrNativeCall (NativeTask P) → Control H P A (EvalControl P A)
  unfolding entered
  eval_native_enter frame = entered frame.state frame

  answered :
      FrNativeCallState
      → FrNativeCall (NativeTask P)
      → FrameId
      → P
      → Control H P A (EvalControl P A)
  unfolding in_heap
  answered FrNativeCallState.waiting frame child value = do
    (task, step) ← in_heap (receive_task scope fuel child value frame.task)
    native_step_to_control (record frame { task = task }) step
  answered FrNativeCallState.enter frame child value =
      in_heap (unexpected_child_result "native call")

  unfoldable pub eval_native_receive :
      FrNativeCall (NativeTask P) → FrameId → P → Control H P A (EvalControl P A)
  unfolding answered
  eval_native_receive frame child value = answered frame.state frame child value
