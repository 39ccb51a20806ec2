-- ===== src/Evaluator/Native/Tests/Dicts.antt =====
-- Runs of the native tasks on dictionaries.
use rex.Prelude.{Bool, true, false, List, [], ◌∷◌, none, some, String, ◌≡◌, refl, ◌==◌, ◌⊎◌}
use rex.Evaluator.FrameStore.{FrameId}
use rex.Evaluator.Frame.Effect.{ok, err, pure, ◌>>=◌}
use rex.Evaluator.Native.Tests.Store.{
  Value, nothing, pair, boolean, number, text, of_list, of_entries, store, u8_ty, step_ty, values,
  children, children-Distinct, children-IsRest,
}
use rex.Evaluator.Native.Apply.{wait, return}
use rex.Evaluator.Native.Gather.Order.{run}
use rex.Evaluator.Native.Sequence.{option_value_ptr}
use rex.Evaluator.Native.Dict.{receive_dict_entry_map, receive_dict_filter, receive_dict_filter_map}
use rex.Evaluator.SortedMap.{Entries, put, held_at}
use rex.Evaluator.Native.Dict.Readings.{Reading, named, first_other, last_named}
use rex.Evaluator.Native.Dict.Order.{receive_dict_entry_map-all}
use rex.Evaluator.Native.Scope.{native_type}
use rex.Evaluator.Native.Dict.FilterOrder.{
  receive_dict_filter-all, receive_dict_filter_map-all, put_kept, put_somes,
}
use rex.Evaluator.Native.Task.{NativeDictEntryMap, NativeDictFilter, NativeDictFilterMap}

abbrev held : List (String × Value)
held = ("a", number 10) ∷ ("b", number 11) ∷ []

-- Both children answer with the name `x`.
abbrev pair_named : FrameId → Value
pair_named c = of_list (text "x" ∷ number c ∷ [])

abbrev entry_mapped : NativeDictEntryMap Value
entry_mapped = record {
  func = nothing;
  func_type = step_ty;
  entry_type = u8_ty;
  args = values;
  children = children;
  output = none ∷ none ∷ [];
  remaining = 2;
}

abbrev readings : FrameId → Reading Value
readings c = named "x" (number c)

receive_dict_entry_map-all_example :
    ((got : String) × (first_other (readings 5 ∷ readings 3 ∷ []) ≡ some got)
      × (run (receive_dict_entry_map store) pair_named (3 ∷ 5 ∷ []) entry_mapped tt
          ≡ err (native_type "(String, a)" got) tt))
    ⊎ ((d : Entries Value) × (first_other (readings 5 ∷ readings 3 ∷ []) ≡ none)
        × ((name : String) → held_at name d ≡ last_named name (readings 5 ∷ readings 3 ∷ []))
        × (run (receive_dict_entry_map store) pair_named (3 ∷ 5 ∷ []) entry_mapped tt
            ≡ (do
              root ← store.alloc_root_dict d
              pure (
                record entry_mapped {
                  output = some (pair_named 5) ∷ some (pair_named 3) ∷ [];
                  remaining = 0;
                },
                wait ∷ return root ∷ [],
              ))
                tt))
receive_dict_entry_map-all_example =
    receive_dict_entry_map-all store children children-Distinct pair_named entry_mapped readings
      (λ c. (text "x", (λ h. refl), λ h. refl)) 3 (5 ∷ []) tt children-IsRest

abbrev is_three : FrameId → Bool
is_three c = 3 == c

abbrev filtered : NativeDictFilter Value
filtered = record {
  func = nothing;
  func_type = step_ty;
  arg_type = u8_ty;
  entries = held;
  args = values;
  children = children;
  keep = none ∷ none ∷ [];
  remaining = 2;
}

receive_dict_filter-all_example :
    run (receive_dict_filter store) (λ c. boolean (is_three c)) (3 ∷ 5 ∷ []) filtered tt
    ≡ ok
        (
          record filtered { keep = some false ∷ some true ∷ []; remaining = 0 },
          wait ∷ return (of_entries (("b", number 11) ∷ [])) ∷ [],
        )
        tt
unfolding put_kept put pure ◌>>=◌
receive_dict_filter-all_example =
    receive_dict_filter-all store children children-Distinct (λ c. boolean (is_three c)) filtered
      is_three (λ c h. refl) 3 (5 ∷ []) tt children-IsRest

abbrev optional : FrameId → Value
optional c = pair (text "Some") (pair (number c) nothing)

abbrev filter_mapped : NativeDictFilterMap Value
filter_mapped = record {
  func = nothing;
  func_type = step_ty;
  elem_type = u8_ty;
  entries = held;
  children = children;
  output = none ∷ none ∷ [];
  remaining = 2;
}

receive_dict_filter_map-all_example :
    run (receive_dict_filter_map store) optional (3 ∷ 5 ∷ []) filter_mapped tt
    ≡ ok
        (
          record filter_mapped {
            output = some (some (number 5)) ∷ some (some (number 3)) ∷ [];
            remaining = 0;
          },
          wait ∷ return (of_entries (("a", number 5) ∷ ("b", number 3) ∷ [])) ∷ [],
        )
        tt
unfolding put_somes put option_value_ptr pure ◌>>=◌
receive_dict_filter_map-all_example =
    receive_dict_filter_map-all store children children-Distinct optional filter_mapped
      (λ c. some (number c)) (λ c h. refl) 3 (5 ∷ []) tt children-IsRest
