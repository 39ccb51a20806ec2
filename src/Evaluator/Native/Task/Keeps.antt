-- ===== src/Evaluator/Native/Task/Keeps.antt =====
-- rex-engine/src/evaluator/native_functions.rs, `NativeTask::map_values`: what it leaves as it was; and
-- with it the frames of rex-engine/src/stack.rs, whose native task was a parameter.
use rex.Prelude.{List, Option, none, some, String, ◌≡◌, refl}
use rex.Evaluator.Frame.{Frame}
use rex.Evaluator.Frame.Effect.{pure, ◌>>=◌}
use rex.Evaluator.Frame.MapValues.{map_option, map_vec, map_option_vec, map_values}
use rex.Evaluator.Frame.Keeps.{
  keep, map_option-pure, map_vec-pure, map_option_vec-pure, map_values-keep,
}
use rex.Evaluator.Native.Items.{ListItems, slice, binary_slice, pointers, map_items}
use rex.Evaluator.Native.Task.{
  NativeTask, apply_unary, sequence_map, sequence_filter, sequence_predicate, sequence_filter_map,
  sequence_flat_map, list_search, unary_map, unary_filter, unary_filter_map, unary_flat_map, fold,
  dict_map, dict_entry_map, dict_filter, dict_filter_map, dict_update, array_eq, sum, mean,
}
use rex.Evaluator.Native.MapValues.{
  map_nested_option_values, map_option_value_vecs, map_entries_into, map_task, map_apply_unary,
  map_sequence_map, map_sequence_filter, map_sequence_predicate, map_sequence_filter_map,
  map_sequence_flat_map, map_list_search, map_unary_map, map_unary_filter, map_unary_filter_map,
  map_unary_flat_map, map_fold, map_dict_map, map_dict_entry_map, map_dict_filter,
  map_dict_filter_map, map_dict_update, map_array_eq, map_sum, map_mean,
}

module _ {S Err P : Type 0} where
  map_items-pure : (items : ListItems P) → map_items {S = S} {Err = Err} pure items ≡ pure items
  unfolding map_items pure ◌>>=◌
  map_items-pure (slice elements start end) = refl
  map_items-pure (binary_slice elements start end bytes) = refl
  map_items-pure (pointers values) = rw (map_vec-pure (λ p. refl) values) refl

  nested_option-pure :
      (o : Option (Option P)) → map_option {S = S} {Err = Err} (map_option pure) o ≡ pure o
  unfolding map_option pure ◌>>=◌
  nested_option-pure none = refl
  nested_option-pure (some none) = refl
  nested_option-pure (some (some p)) = refl

  option_vec-pure : (o : Option (List P)) → map_option {S = S} {Err = Err} (map_vec pure) o ≡ pure o
  unfolding map_option pure ◌>>=◌
  option_vec-pure none = refl
  option_vec-pure (some ps) = rw (map_vec-pure (λ p. refl) ps) refl

  map_nested_option_values-pure :
      (os : List (Option (Option P)))
      → map_nested_option_values {S = S} {Err = Err} pure os ≡ pure os
  unfolding map_nested_option_values map_option_vec
  map_nested_option_values-pure os = map_vec-pure nested_option-pure os

  map_option_value_vecs-pure :
      (os : List (Option (List P))) → map_option_value_vecs {S = S} {Err = Err} pure os ≡ pure os
  unfolding map_option_value_vecs map_option_vec
  map_option_value_vecs-pure os = map_vec-pure option_vec-pure os

  map_entries_into-pure :
      (entries : List (String × P))
      → map_entries_into {S = S} {Err = Err} pure entries ≡ pure entries
  unfolding map_entries_into pure ◌>>=◌
  map_entries_into-pure entries = map_vec-pure (λ e. refl) entries

  map_task-pure : (task : NativeTask P) → map_task {S = S} {Err = Err} pure task ≡ pure task
  unfolding map_task map_apply_unary map_sequence_map map_sequence_filter map_sequence_predicate
      map_sequence_filter_map map_sequence_flat_map map_list_search map_unary_map map_unary_filter
      map_unary_filter_map map_unary_flat_map map_fold map_dict_map map_dict_entry_map
      map_dict_filter map_dict_filter_map map_dict_update map_array_eq map_sum map_mean pure ◌>>=◌
  map_task-pure (apply_unary task) = refl
  map_task-pure (sequence_map task) =
      rw (map_items-pure task.values, map_option_vec-pure task.output) refl
  map_task-pure (sequence_filter task) = rw (map_items-pure task.values) refl
  map_task-pure (sequence_predicate task) = rw (map_items-pure task.values) refl
  map_task-pure (sequence_filter_map task) =
      rw (map_items-pure task.values, map_nested_option_values-pure task.output) refl
  map_task-pure (sequence_flat_map task) =
      rw (map_items-pure task.values, map_option_value_vecs-pure task.output) refl
  map_task-pure (list_search task) = rw (map_items-pure task.values) refl
  map_task-pure (unary_map task) = refl
  map_task-pure (unary_filter task) = refl
  map_task-pure (unary_filter_map task) = refl
  map_task-pure (unary_flat_map task) = refl
  map_task-pure (fold task) = rw (map_items-pure task.values, map_option-pure task.step) refl
  map_task-pure (dict_map task) =
      rw (map_entries_into-pure task.entries, map_entries_into-pure task.output) refl
  map_task-pure (dict_entry_map task) =
      rw (map_vec-pure (λ p. refl) task.args, map_option_vec-pure task.output) refl
  map_task-pure (dict_filter task) =
      rw (map_entries_into-pure task.entries, map_vec-pure (λ p. refl) task.args) refl
  map_task-pure (dict_filter_map task) =
      rw (map_entries_into-pure task.entries, map_nested_option_values-pure task.output) refl
  map_task-pure (dict_update task) = rw (map_entries_into-pure task.entries) refl
  map_task-pure (array_eq task) =
      rw (map_items-pure task.xs, map_items-pure task.ys, map_option-pure task.step) refl
  map_task-pure (sum task) =
      rw
        (
          map_items-pure task.values,
          map_option-pure task.acc,
          map_option-pure task.plus,
          map_option-pure task.step,
        )
        refl
  map_task-pure (mean task) =
      rw
        (
          map_items-pure task.values,
          map_option-pure task.acc,
          map_option-pure task.step,
          map_option-pure task.len_value,
        )
        refl

-- A mapper that answers each call with its argument gets the frame back, where a frame of a native
-- call holds one of the twenty tasks: every field of the frame and of its task is as it was.
pub map_values-keep_task :
    {S Err P E X A : Type 0} (frame : Frame P E X A (NativeTask P))
    → map_values {S = S} {Err = Err} keep map_task frame ≡ pure frame
map_values-keep_task frame = map_values-keep map_task map_task-pure frame
