-- ===== src/Evaluator/Native/Dict.antt =====
-- rex-engine/src/evaluator/native_functions.rs: the tasks on dictionaries. A `BTreeMap` is a list of
-- entries, as in SortedMap.
pub mod Readings
pub mod Order
pub mod FilterOrder
pub mod Update
use rex.Prelude.{
  ℕ, zero, suc, Bool, true, false, List, [], ◌∷◌, Option, none, some, String, if◌then◌else◌, ◌==◌,
  get_elem?, replicate, length, not,
}
use rex.Types.Syntax.{Ty}
use rex.Evaluator.SortedMap.{Entries, put, held_at, without}
use rex.Evaluator.FrameStore.{FrameId}
use rex.Evaluator.Frame.Effect.{Effect, pure, ◌>>=◌}
use rex.Evaluator.Native.Scope.{Action, RootScope, fail, internal, native_type, ok_or}
use rex.Evaluator.Native.Apply.{
  NativeStep, NativeChildSpec, wait, schedule, return, native_apply_spec,
}
use rex.Evaluator.Native.Gather.{
  position, all_answers, one_less, replace_answer, check_empty, wait_or,
}
use rex.Evaluator.Native.Texts.{
  dict_map_texts, dict_entry_map_texts, dict_filter_texts, dict_filter_map_texts,
}
use rex.Evaluator.Native.Sequence.{option_value_ptr}
use rex.Evaluator.Native.Task.{
  NativeDictMap, NativeDictEntryMap, NativeDictFilter, NativeDictFilterMap, NativeDictUpdate,
}

module _ {H P : Type 0} (scope : RootScope H P) where
  unfoldable pub enter_dict_map : NativeDictMap P → Action H (NativeDictMap P × NativeStep P)
  unfolding pure
  enter_dict_map task =
      if length task.entries == 0
      then (do root ← scope.alloc_root_dict []; pure (task, return root))
      else pure (
        record task { children = []; output = []; remaining = length task.entries },
        schedule (length task.entries),
      )

  unfoldable pub returned_dict : Entries P → Action H (NativeStep P)
  unfolding pure
  returned_dict output = do root ← scope.alloc_root_dict output; pure (return root)

  unfoldable pub receive_dict_map :
      FrameId → P → NativeDictMap P → Action H (NativeDictMap P × NativeStep P)
  unfolding ok_or position check_empty held_at put one_less wait_or returned_dict
  receive_dict_map child value task = do
    index ← ok_or dict_map_texts.unknown_child (position child task.children)
    entry ← ok_or dict_map_texts.out_of_bounds (get_elem? task.entries index)
    free ← check_empty dict_map_texts (held_at entry.0 task.output)
    remaining ← one_less dict_map_texts task.remaining
    let output = put entry.0 value task.output
    wait_or (record task { output = output; remaining = remaining }) remaining
        (returned_dict output)

  unfoldable pub enter_dict_entry_map :
      NativeDictEntryMap P → Action H (NativeDictEntryMap P × NativeStep P)
  unfolding pure
  enter_dict_entry_map task =
      if length task.args == 0
      then (do root ← scope.alloc_root_dict []; pure (task, return root))
      else pure (
        record task {
          children = [];
          output = replicate (length task.args) none;
          remaining = length task.args;
        },
        schedule (length task.args),
      )

  pair_of : P → List P → Action H (P × P)
  unfolding pure fail
  pair_of result (key ∷ value ∷ []) = pure (key, value)
  pair_of result _ = do got ← scope.type_name result; fail (native_type "(String, a)" got)

  -- The results are applied in the order of the arguments, and a later one with the same name wins.
  unfoldable pub entries_of : List P → Entries P → Action H (Entries P)
  unfolding pure pair_of put
  entries_of [] output = pure output
  entries_of (result ∷ results) output = do
    items ← scope.root_as_tuple result
    pair ← pair_of result items
    key ← scope.root_as_string pair.0
    entries_of results (put key pair.1 output)

  unfoldable pub finish_dict_entry_map : List (Option P) → Action H (NativeStep P)
  unfolding all_answers entries_of returned_dict
  finish_dict_entry_map slots = do
    results ← all_answers dict_entry_map_texts slots
    output ← entries_of results []
    returned_dict output

  unfoldable pub receive_dict_entry_map :
      FrameId → P → NativeDictEntryMap P → Action H (NativeDictEntryMap P × NativeStep P)
  unfolding finish_dict_entry_map
  receive_dict_entry_map child value task = do
    (output, remaining) ←
        replace_answer dict_entry_map_texts child (pure value) task.children task.output
          task.remaining
    wait_or (record task { output = output; remaining = remaining }) remaining
        (finish_dict_entry_map output)

  unfoldable pub enter_dict_filter :
      NativeDictFilter P → Action H (NativeDictFilter P × NativeStep P)
  unfolding pure fail
  enter_dict_filter task =
      if length task.entries == 0
      then (do root ← scope.alloc_root_dict []; pure (task, return root))
      else if not (length task.entries == length task.args)
      then fail (internal "native dict filter has mismatched entries and arguments")
      else pure (
        record task {
          children = [];
          keep = replicate (length task.entries) none;
          remaining = length task.entries;
        },
        schedule (length task.entries),
      )

  -- The loop over the entries and their answers, which ends with the shorter list.
  unfoldable pub kept_entries : Entries P → List (Option Bool) → Entries P → Action H (Entries P)
  unfolding pure fail put
  kept_entries (entry ∷ entries) (some true ∷ keep) output =
      kept_entries entries keep (put entry.0 entry.1 output)
  kept_entries (entry ∷ entries) (some false ∷ keep) output = kept_entries entries keep output
  kept_entries (entry ∷ entries) (none ∷ keep) output = fail (internal dict_filter_texts.missing)
  kept_entries [] keep output = pure output
  kept_entries (entry ∷ entries) [] output = pure output

  unfoldable pub finish_dict_filter : Entries P → List (Option Bool) → Action H (NativeStep P)
  unfolding kept_entries returned_dict
  finish_dict_filter entries keep = do output ← kept_entries entries keep []; returned_dict output

  unfoldable pub receive_dict_filter :
      FrameId → P → NativeDictFilter P → Action H (NativeDictFilter P × NativeStep P)
  unfolding finish_dict_filter
  receive_dict_filter child value task = do
    (keep, remaining) ←
        replace_answer dict_filter_texts child (scope.root_as_bool value) task.children task.keep
          task.remaining
    wait_or (record task { keep = keep; remaining = remaining }) remaining
        (finish_dict_filter task.entries keep)

  unfoldable pub enter_dict_filter_map :
      NativeDictFilterMap P → Action H (NativeDictFilterMap P × NativeStep P)
  unfolding pure
  enter_dict_filter_map task =
      if length task.entries == 0
      then (do root ← scope.alloc_root_dict []; pure (task, return root))
      else pure (
        record task {
          children = [];
          output = replicate (length task.entries) none;
          remaining = length task.entries;
        },
        schedule (length task.entries),
      )

  unfoldable pub some_entries :
      Entries P → List (Option (Option P)) → Entries P → Action H (Entries P)
  unfolding pure fail put
  some_entries (entry ∷ entries) (some (some value) ∷ answers) output =
      some_entries entries answers (put entry.0 value output)
  some_entries (entry ∷ entries) (some none ∷ answers) output = some_entries entries answers output
  some_entries (entry ∷ entries) (none ∷ answers) output =
      fail (internal dict_filter_map_texts.missing)
  some_entries [] answers output = pure output
  some_entries (entry ∷ entries) [] output = pure output

  unfoldable pub finish_dict_filter_map :
      Entries P → List (Option (Option P)) → Action H (NativeStep P)
  unfolding some_entries returned_dict
  finish_dict_filter_map entries answers = do
    output ← some_entries entries answers []
    returned_dict output

  unfoldable pub receive_dict_filter_map :
      FrameId → P → NativeDictFilterMap P → Action H (NativeDictFilterMap P × NativeStep P)
  unfolding finish_dict_filter_map
  receive_dict_filter_map child value task = do
    (output, remaining) ←
        replace_answer dict_filter_map_texts child (option_value_ptr scope value) task.children
          task.output task.remaining
    wait_or (record task { output = output; remaining = remaining }) remaining
        (finish_dict_filter_map task.entries output)
