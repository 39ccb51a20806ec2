-- ===== src/Evaluator/Native/Coroutine.antt =====
-- rex-engine/src/evaluator/native_functions.rs: `enter` and `receive` of `NativeTask`, which hand on to
-- the task's kind, and the operations on the children of a task.
use rex.Prelude.{ℕ, List, [], ◌∷◌, ◌++◌}
use rex.Evaluator.FrameStore.{FrameId}
use rex.Evaluator.Frame.Effect.{pure, ◌>>=◌}
use rex.Evaluator.Native.Scope.{Action, RootScope, fail, internal}
use rex.Evaluator.Native.Apply.{NativeStep, NativeChildSpec}
use rex.Evaluator.Native.Task.{
  NativeTask, sequence_map, sequence_filter, sequence_predicate, sequence_filter_map,
  sequence_flat_map, dict_map, dict_entry_map, dict_filter, dict_filter_map, dict_update, fold,
  list_search, array_eq, sum, mean, unary_map, unary_filter, unary_flat_map, apply_unary,
  unary_filter_map,
}
use rex.Evaluator.Native.Sequence.{
  element_spec, enter_sequence_map, receive_sequence_map, enter_sequence_filter,
  receive_sequence_filter, enter_sequence_filter_map, receive_sequence_filter_map,
  enter_sequence_flat_map, receive_sequence_flat_map,
}
use rex.Evaluator.Native.Predicate.{enter_sequence_predicate, receive_sequence_predicate}
use rex.Evaluator.Native.Dict.{
  enter_dict_map, receive_dict_map, enter_dict_entry_map, receive_dict_entry_map, enter_dict_filter,
  receive_dict_filter, enter_dict_filter_map, receive_dict_filter_map,
}
use rex.Evaluator.Native.Dict.Update.{
  entry_spec, arg_spec, update_spec, enter_dict_update, receive_dict_update,
}
use rex.Evaluator.Native.Unary.{
  enter_apply_unary, enter_unary_map, enter_unary_filter, enter_unary_filter_map,
  enter_unary_flat_map, receive_returned, receive_unary_map, receive_unary_filter,
  receive_unary_flat_map,
}
use rex.Evaluator.Native.Fold.{enter_fold, receive_fold}
use rex.Evaluator.Native.Search.{
  enter_list_search, receive_list_search, enter_array_eq, receive_array_eq,
}
use rex.Evaluator.Native.Sum.{enter_sum, receive_sum, enter_mean, receive_mean}

module _ {H P : Type 0} where
  unfoldable pub push_scheduled_child : FrameId → NativeTask P → Action H (NativeTask P)
  unfolding pure fail
  push_scheduled_child child (sequence_map task) =
      pure (sequence_map (record task { children = task.children ++ child ∷ [] }))
  push_scheduled_child child (sequence_filter task) =
      pure (sequence_filter (record task { children = task.children ++ child ∷ [] }))
  push_scheduled_child child (sequence_predicate task) =
      pure (sequence_predicate (record task { children = task.children ++ child ∷ [] }))
  push_scheduled_child child (sequence_filter_map task) =
      pure (sequence_filter_map (record task { children = task.children ++ child ∷ [] }))
  push_scheduled_child child (sequence_flat_map task) =
      pure (sequence_flat_map (record task { children = task.children ++ child ∷ [] }))
  push_scheduled_child child (dict_map task) =
      pure (dict_map (record task { children = task.children ++ child ∷ [] }))
  push_scheduled_child child (dict_entry_map task) =
      pure (dict_entry_map (record task { children = task.children ++ child ∷ [] }))
  push_scheduled_child child (dict_filter task) =
      pure (dict_filter (record task { children = task.children ++ child ∷ [] }))
  push_scheduled_child child (dict_filter_map task) =
      pure (dict_filter_map (record task { children = task.children ++ child ∷ [] }))
  push_scheduled_child child (dict_update task) =
      pure (dict_update (record task { children = task.children ++ child ∷ [] }))
  push_scheduled_child child _ = fail (internal "native task does not accept scheduled children")

  unfoldable pub scheduled_children : NativeTask P → Action H (List FrameId)
  unfolding pure fail
  scheduled_children (sequence_map task) = pure task.children
  scheduled_children (sequence_filter task) = pure task.children
  scheduled_children (sequence_predicate task) = pure task.children
  scheduled_children (sequence_filter_map task) = pure task.children
  scheduled_children (sequence_flat_map task) = pure task.children
  scheduled_children (dict_map task) = pure task.children
  scheduled_children (dict_entry_map task) = pure task.children
  scheduled_children (dict_filter task) = pure task.children
  scheduled_children (dict_filter_map task) = pure task.children
  scheduled_children (dict_update task) = pure task.children
  scheduled_children _ = fail (internal "native task does not have scheduled children")

module _ {H P : Type 0} (scope : RootScope H P) (fuel : ℕ) where
  unfoldable pub scheduled_child_spec : ℕ → NativeTask P → Action H (NativeChildSpec P)
  unfolding element_spec entry_spec arg_spec update_spec fail
  scheduled_child_spec index (sequence_map task) =
      element_spec scope fuel task.func task.func_type task.elem_type task.values index
  scheduled_child_spec index (sequence_filter task) =
      element_spec scope fuel task.func task.func_type task.elem_type task.values index
  scheduled_child_spec index (sequence_predicate task) =
      element_spec scope fuel task.func task.func_type task.elem_type task.values index
  scheduled_child_spec index (sequence_filter_map task) =
      element_spec scope fuel task.func task.func_type task.elem_type task.values index
  scheduled_child_spec index (sequence_flat_map task) =
      element_spec scope fuel task.func task.func_type task.elem_type task.values index
  scheduled_child_spec index (dict_map task) =
      entry_spec fuel "native dict map child index out of bounds" task.func task.func_type
        task.elem_type task.entries index
  scheduled_child_spec index (dict_entry_map task) =
      arg_spec fuel "native dict entry map child index out of bounds" task.func task.func_type
        task.entry_type task.args index
  scheduled_child_spec index (dict_filter task) =
      arg_spec fuel "native dict filter child index out of bounds" task.func task.func_type
        task.arg_type task.args index
  scheduled_child_spec index (dict_filter_map task) =
      entry_spec fuel "native dict filter_map child index out of bounds" task.func task.func_type
        task.elem_type task.entries index
  scheduled_child_spec index (dict_update task) = update_spec fuel task index
  scheduled_child_spec index _ = fail (internal "native task does not have scheduled child specs")

  unfoldable pub enter_task : NativeTask P → Action H (NativeTask P × NativeStep P)
  unfolding pure
  enter_task (sequence_map task) = do
    (task', step) ← enter_sequence_map scope task
    pure (sequence_map task', step)
  enter_task (sequence_filter task) = do
    (task', step) ← enter_sequence_filter scope task
    pure (sequence_filter task', step)
  enter_task (sequence_predicate task) = do
    (task', step) ← enter_sequence_predicate scope task
    pure (sequence_predicate task', step)
  enter_task (sequence_filter_map task) = do
    (task', step) ← enter_sequence_filter_map scope task
    pure (sequence_filter_map task', step)
  enter_task (sequence_flat_map task) = do
    (task', step) ← enter_sequence_flat_map scope task
    pure (sequence_flat_map task', step)
  enter_task (dict_map task) = do
    (task', step) ← enter_dict_map scope task
    pure (dict_map task', step)
  enter_task (dict_entry_map task) = do
    (task', step) ← enter_dict_entry_map scope task
    pure (dict_entry_map task', step)
  enter_task (dict_filter task) = do
    (task', step) ← enter_dict_filter scope task
    pure (dict_filter task', step)
  enter_task (dict_filter_map task) = do
    (task', step) ← enter_dict_filter_map scope task
    pure (dict_filter_map task', step)
  enter_task (dict_update task) = do
    (task', step) ← enter_dict_update scope task
    pure (dict_update task', step)
  enter_task (fold task) = do (task', step) ← enter_fold scope fuel task; pure (fold task', step)
  enter_task (list_search task) = do
    (task', step) ← enter_list_search scope fuel task
    pure (list_search task', step)
  enter_task (array_eq task) = do
    (task', step) ← enter_array_eq scope fuel task
    pure (array_eq task', step)
  enter_task (sum task) = do (task', step) ← enter_sum scope fuel task; pure (sum task', step)
  enter_task (mean task) = do (task', step) ← enter_mean scope fuel task; pure (mean task', step)
  enter_task (apply_unary task) = do
    step ← enter_apply_unary fuel task
    pure (apply_unary task, step)
  enter_task (unary_map task) = do step ← enter_unary_map fuel task; pure (unary_map task, step)
  enter_task (unary_filter task) = do
    step ← enter_unary_filter fuel task
    pure (unary_filter task, step)
  enter_task (unary_filter_map task) = do
    step ← enter_unary_filter_map fuel task
    pure (unary_filter_map task, step)
  enter_task (unary_flat_map task) = do
    step ← enter_unary_flat_map fuel task
    pure (unary_flat_map task, step)

  unfoldable pub receive_task : FrameId → P → NativeTask P → Action H (NativeTask P × NativeStep P)
  unfolding pure receive_returned
  receive_task child value (sequence_map task) = do
    (task', step) ← receive_sequence_map scope child value task
    pure (sequence_map task', step)
  receive_task child value (sequence_filter task) = do
    (task', step) ← receive_sequence_filter scope child value task
    pure (sequence_filter task', step)
  receive_task child value (sequence_predicate task) = do
    (task', step) ← receive_sequence_predicate scope child value task
    pure (sequence_predicate task', step)
  receive_task child value (sequence_filter_map task) = do
    (task', step) ← receive_sequence_filter_map scope child value task
    pure (sequence_filter_map task', step)
  receive_task child value (sequence_flat_map task) = do
    (task', step) ← receive_sequence_flat_map scope child value task
    pure (sequence_flat_map task', step)
  receive_task child value (dict_map task) = do
    (task', step) ← receive_dict_map scope child value task
    pure (dict_map task', step)
  receive_task child value (dict_entry_map task) = do
    (task', step) ← receive_dict_entry_map scope child value task
    pure (dict_entry_map task', step)
  receive_task child value (dict_filter task) = do
    (task', step) ← receive_dict_filter scope child value task
    pure (dict_filter task', step)
  receive_task child value (dict_filter_map task) = do
    (task', step) ← receive_dict_filter_map scope child value task
    pure (dict_filter_map task', step)
  receive_task child value (dict_update task) = do
    (task', step) ← receive_dict_update scope child value task
    pure (dict_update task', step)
  receive_task child value (fold task) = do
    (task', step) ← receive_fold scope fuel value task
    pure (fold task', step)
  receive_task child value (list_search task) = do
    (task', step) ← receive_list_search scope fuel value task
    pure (list_search task', step)
  receive_task child value (array_eq task) = do
    (task', step) ← receive_array_eq scope fuel value task
    pure (array_eq task', step)
  receive_task child value (sum task) = do
    (task', step) ← receive_sum scope fuel value task
    pure (sum task', step)
  receive_task child value (mean task) = do
    (task', step) ← receive_mean scope fuel value task
    pure (mean task', step)
  receive_task child value (unary_map task) = do
    step ← receive_unary_map scope value task
    pure (unary_map task, step)
  receive_task child value (unary_filter task) = do
    step ← receive_unary_filter scope value task
    pure (unary_filter task, step)
  receive_task child value (unary_flat_map task) = do
    step ← receive_unary_flat_map scope value task
    pure (unary_flat_map task, step)
  receive_task child value (apply_unary task) = do
    step ← receive_returned value
    pure (apply_unary task, step)
  receive_task child value (unary_filter_map task) = do
    step ← receive_returned value
    pure (unary_filter_map task, step)
