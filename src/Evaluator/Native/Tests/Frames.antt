-- ===== src/Evaluator/Native/Tests/Frames.antt =====
-- Runs of a native task over a store of frames.
use rex.Prelude.{List, [], ◌∷◌, none, ◌≡◌}
use rex.Evaluator.FrameStore.{FrameId, FrameStore}
use rex.Evaluator.Frame.{FrNativeCall, FrNativeCallState, native_call}
use rex.Evaluator.Frame.Effect.{pure}
use rex.Evaluator.Native.Tests.Store.{Value, text, u8_ty, step_ty, values}
use rex.Evaluator.Native.Items.{pointers}
use rex.Evaluator.Native.Task.{NativeTask, NativeSequenceMap, sequence_map, list}
use rex.Evaluator.Native.Control.{NativeFrame}
use rex.Evaluator.Frame.MapValues.{map_values}
use rex.Evaluator.Frame.Keeps.{keep}
use rex.Evaluator.Native.MapValues.{map_task}
use rex.Evaluator.Native.Task.Keeps.{map_values-keep_task}

abbrev mapped : NativeSequenceMap Value
mapped = record {
  func = text "f";
  func_type = step_ty;
  elem_type = u8_ty;
  values = pointers values;
  shape = list;
  children = [];
  output = none ∷ none ∷ [];
  remaining = 2;
}

-- The task with the children `cs`.
abbrev at : List FrameId → NativeTask Value
at cs = sequence_map (record mapped { children = cs })

abbrev entered_call : FrNativeCall (NativeTask Value)
entered_call = record { parent = none; state = FrNativeCallState.enter; task = at [] }

-- The store holds the frame of the task alone.
abbrev one : FrameStore (NativeFrame Value Unit)
one = record { next_id = 1; frames = (0, native_call entered_call) ∷ [] }

abbrev task_frame : NativeFrame Value Unit
task_frame = native_call entered_call

map_values-keep_task_example :
    map_values {S = Unit} {Err = Unit} keep map_task task_frame ≡ pure task_frame
map_values-keep_task_example = map_values-keep_task task_frame
