-- ===== src/Evaluator/Native/Dict/Update.antt =====
-- rex-engine/src/evaluator/native_functions.rs, `NativeDictUpdate`, whose one child answers with an option;
-- and the specifications of the children of the tasks on dictionaries.
use rex.Prelude.{ℕ, List, [], ◌∷◌, Option, none, some, String, if◌then◌else◌, ◌==◌, get_elem?}
use rex.Types.Syntax.{Ty}
use rex.Evaluator.FrameStore.{FrameId}
use rex.Evaluator.Frame.Effect.{pure, ◌>>=◌}
use rex.Evaluator.Native.Scope.{Action, RootScope, fail, internal, ok_or}
use rex.Evaluator.Native.Apply.{NativeStep, NativeChildSpec, schedule, native_apply_spec}
use rex.Evaluator.Native.Sequence.{option_value_ptr}
use rex.Evaluator.Native.Task.{NativeDictUpdate}
use rex.Evaluator.Native.Dict.{returned_dict}
use rex.Evaluator.SortedMap.{Entries, put, without}

module _ {H P : Type 0} (scope : RootScope H P) where
  unfoldable pub enter_dict_update :
      NativeDictUpdate P → Action H (NativeDictUpdate P × NativeStep P)
  unfolding pure
  enter_dict_update task = pure (record task { children = [] }, schedule 1)

  updated : String → Option P → Entries P → Entries P
  unfolding put without
  updated key (some value) entries = put key value entries
  updated key none entries = without key entries

  -- The only child is the one that answers.
  check_only : FrameId → List FrameId → Action H Unit
  unfolding pure fail
  check_only child (c ∷ []) =
      if c == child then pure tt else fail (internal "native dict update received unexpected child")
  check_only child _ = fail (internal "native dict update received unexpected child")

  unfoldable pub receive_dict_update :
      FrameId → P → NativeDictUpdate P → Action H (NativeDictUpdate P × NativeStep P)
  unfolding check_only option_value_ptr updated returned_dict
  receive_dict_update child value task = do
    checked ← check_only child task.children
    answer ← option_value_ptr scope value
    let entries = updated task.key answer task.entries
    step ← returned_dict scope entries
    pure (record task { entries = entries }, step)

-- The `child_spec` of these tasks.
module _ {H P : Type 0} where
  unfoldable pub entry_spec :
      ℕ → String → P → Ty → Ty → Entries P → ℕ → Action H (NativeChildSpec P)
  unfolding ok_or
  entry_spec fuel text func func_type elem_type entries index = do
    entry ← ok_or text (get_elem? entries index)
    native_apply_spec fuel func func_type entry.1 elem_type

  unfoldable pub arg_spec : ℕ → String → P → Ty → Ty → List P → ℕ → Action H (NativeChildSpec P)
  unfolding ok_or
  arg_spec fuel text func func_type arg_type args index = do
    arg ← ok_or text (get_elem? args index)
    native_apply_spec fuel func func_type arg arg_type

  unfoldable pub update_spec : ℕ → NativeDictUpdate P → ℕ → Action H (NativeChildSpec P)
  unfolding fail
  update_spec fuel task index =
      if index == 0
      then native_apply_spec fuel task.func task.func_type task.arg task.option_type
      else fail (internal "native dict update child index out of bounds")
