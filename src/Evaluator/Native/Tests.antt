-- ===== src/Evaluator/Native/Tests.antt =====
-- Runs of the native tasks of the evaluator, over values that are held in place.
pub mod Store
pub mod Dicts
pub mod Folds
pub mod Frames
pub mod Typing
use rex.Prelude.{
  ℕ, zero, suc, Bool, true, false, List, [], ◌∷◌, Option, none, some, String, length, ◌≡◌, refl,
  arith, ◌==◌, if◌then◌else◌, replicate, map,
}
use rex.Types.Syntax.{Ty}
use rex.Evaluator.FrameStore.{FrameId}
use rex.Evaluator.Frame.Effect.{ok, err, pure, ◌>>=◌}
use rex.Evaluator.Native.Scope.{internal}
use rex.Evaluator.Native.Tests.Store.{
  Value, nothing, pair, boolean, number, text, of_list, to_list, store, u8_ty, step_ty, values,
  children, children-Distinct, children-IsRest,
}
use rex.Evaluator.Native.Items.{pointers, items_len}
use rex.Evaluator.Native.Items.Holds.{pointers-Holds}
use rex.Evaluator.Native.Apply.{wait, return}
use rex.Evaluator.Native.Gather.{store_answer, replace_answer}
use rex.Evaluator.Native.Gather.Slots.{elem, Distinct, missing, slots_of}
use rex.Evaluator.Native.Gather.Answers.{store_answer_lem, replace_answer_lem}
use rex.Evaluator.Native.Gather.Order.{run, IsRest}
use rex.Evaluator.Native.Texts.{sequence_map_texts, dict_filter_texts}
use rex.Evaluator.Native.Sequence.{
  receive_sequence_map, receive_sequence_filter, receive_sequence_filter_map,
  receive_sequence_flat_map, alloc_native_sequence, option_value_ptr, native_flatten_sequence,
}
use rex.Evaluator.Native.Sequence.Order.{
  receive_sequence_map-all, receive_sequence_filter_map-all, somes,
}
use rex.Evaluator.Native.Sequence.FlatOrder.{joined, receive_sequence_flat_map-all}
use rex.Evaluator.Native.Sequence.FilterOrder.{receive_sequence_filter-all, kept}
use rex.Evaluator.Native.Task.{
  NativeSequenceMap, NativeSequenceFilter, NativeSequenceFilterMap, NativeSequenceFlatMap, list,
}

store_answer_lem_example :
    store_answer {H = Unit} sequence_map_texts 3
      (pure (number 3))
      children
      (slots_of number (5 ∷ []) children)
      (missing (slots_of number (5 ∷ []) children))
      tt
    ≡ ok (some (number 5) ∷ some (number 3) ∷ [], 0) tt
unfolding slots_of elem missing pure
store_answer_lem_example =
    store_answer_lem number sequence_map_texts children children-Distinct 3 (5 ∷ [])
      (pure (number 3)) tt (λ a h' e. cc e)

replace_answer_lem_example :
    replace_answer {H = Unit} dict_filter_texts 5
      (pure (number 5))
      children
      (slots_of number (5 ∷ []) children)
      (missing (slots_of number (5 ∷ []) children))
      tt
    ≡ err (internal "native dict filter received duplicate child result") tt
unfolding slots_of elem missing pure
replace_answer_lem_example =
    replace_answer_lem number dict_filter_texts children children-Distinct 5 (5 ∷ [])
      (pure (number 5)) tt (λ a h' e. cc e)

abbrev mapped : NativeSequenceMap Value
mapped = record {
  func = nothing;
  func_type = step_ty;
  elem_type = u8_ty;
  values = pointers values;
  shape = list;
  children = children;
  output = none ∷ none ∷ [];
  remaining = 2;
}

receive_sequence_map-all_example :
    run (receive_sequence_map store) number (3 ∷ 5 ∷ []) mapped tt
    ≡ ok
        (
          record mapped { output = some (number 5) ∷ some (number 3) ∷ []; remaining = 0 },
          wait ∷ return (of_list (number 5 ∷ number 3 ∷ [])) ∷ [],
        )
        tt
unfolding alloc_native_sequence pure ◌>>=◌
receive_sequence_map-all_example =
    receive_sequence_map-all store children children-Distinct number mapped 3 (5 ∷ []) tt
      children-IsRest

abbrev optional : FrameId → Value
optional c = pair (text "Some") (pair (number c) nothing)

abbrev filter_mapped : NativeSequenceFilterMap Value
filter_mapped = record {
  func = nothing;
  func_type = step_ty;
  elem_type = u8_ty;
  values = pointers values;
  shape = list;
  children = children;
  output = none ∷ none ∷ [];
  remaining = 2;
}

receive_sequence_filter_map-all_example :
    run (receive_sequence_filter_map store) optional (3 ∷ 5 ∷ []) filter_mapped tt
    ≡ ok
        (
          record filter_mapped {
            output = some (some (number 5)) ∷ some (some (number 3)) ∷ [];
            remaining = 0;
          },
          wait ∷ return (of_list (number 5 ∷ number 3 ∷ [])) ∷ [],
        )
        tt
unfolding alloc_native_sequence option_value_ptr somes pure ◌>>=◌
receive_sequence_filter_map-all_example =
    receive_sequence_filter_map-all store children children-Distinct optional filter_mapped
      (λ c. some (number c)) (λ c h. refl) 3 (5 ∷ []) tt children-IsRest

abbrev doubled : FrameId → Value
doubled c = of_list (number c ∷ number c ∷ [])

abbrev flat_mapped : NativeSequenceFlatMap Value
flat_mapped = record {
  func = nothing;
  func_type = step_ty;
  elem_type = u8_ty;
  values = pointers values;
  shape = list;
  children = children;
  output = none ∷ none ∷ [];
  remaining = 2;
}

receive_sequence_flat_map-all_example :
    run (receive_sequence_flat_map store) doubled (3 ∷ 5 ∷ []) flat_mapped tt
    ≡ ok
        (
          record flat_mapped {
            output = some (number 5 ∷ number 5 ∷ []) ∷ some (number 3 ∷ number 3 ∷ []) ∷ [];
            remaining = 0;
          },
          wait ∷ return (of_list (number 5 ∷ number 5 ∷ number 3 ∷ number 3 ∷ [])) ∷ [],
        )
        tt
unfolding alloc_native_sequence native_flatten_sequence joined pure ◌>>=◌
receive_sequence_flat_map-all_example =
    receive_sequence_flat_map-all store children children-Distinct doubled flat_mapped
      (λ c. number c ∷ number c ∷ []) (λ c h. refl) 3 (5 ∷ []) tt children-IsRest

-- Only the second child says `true`.
abbrev is_three : FrameId → Bool
is_three c = 3 == c

abbrev filtered : NativeSequenceFilter Value
filtered = record {
  func = nothing;
  func_type = step_ty;
  elem_type = u8_ty;
  values = pointers values;
  shape = list;
  children = children;
  keep = none ∷ none ∷ [];
  remaining = 2;
}

receive_sequence_filter-all_example :
    run (receive_sequence_filter store) (λ c. boolean (is_three c)) (3 ∷ 5 ∷ []) filtered tt
    ≡ ok
        (
          record filtered { keep = some false ∷ some true ∷ []; remaining = 0 },
          wait ∷ return (of_list (number 11 ∷ [])) ∷ [],
        )
        tt
unfolding alloc_native_sequence kept pure ◌>>=◌
receive_sequence_filter-all_example =
    receive_sequence_filter-all store children children-Distinct (λ c. boolean (is_three c))
      filtered is_three (λ c h. refl) values 3 (5 ∷ []) tt (pointers-Holds store values) refl
      children-IsRest
