-- ===== src/Evaluator/Native/Dict/FilterOrder.antt =====
-- rex-engine/src/evaluator/native_functions.rs: what `filter` and `filter_map` of a dictionary return when all
-- children have answered, in any order.
use rex.Prelude.{
  ℕ, Bool, true, false, List, [], ◌∷◌, ◌++◌, Option, none, some, length, replicate, map, ◌≡◌, refl,
}
use rex.Evaluator.FrameStore.{FrameId}
use rex.Evaluator.Frame.Effect.{ok, pure, ◌>>=◌}
use rex.Evaluator.Native.Scope.{RootScope}
use rex.Evaluator.Native.Apply.{wait, return}
use rex.Evaluator.Native.Gather.Slots.{Distinct}
use rex.Evaluator.Native.Gather.Answers.{replace_answer-reads}
use rex.Evaluator.Native.Gather.Order.{run, run-returns, IsRest, Fresh, state}
use rex.Evaluator.Native.Texts.{dict_filter_texts, dict_filter_map_texts}
use rex.Evaluator.Native.Sequence.{option_value_ptr}
use rex.Evaluator.Native.Dict.{
  receive_dict_filter, finish_dict_filter, kept_entries, receive_dict_filter_map,
  finish_dict_filter_map, some_entries, returned_dict,
}
use rex.Evaluator.SortedMap.{Entries, put}
use rex.Evaluator.Native.Task.{NativeDictFilter, NativeDictFilterMap}

-- The entries whose answer is `true`, put into the map `output` one after the other.
unfoldable pub put_kept : {P : Type 0} → Entries P → List Bool → Entries P → Entries P
unfolding put
put_kept (entry ∷ entries) (true ∷ bs) output = put_kept entries bs (put entry.0 entry.1 output)
put_kept (entry ∷ entries) (false ∷ bs) output = put_kept entries bs output
put_kept _ _ output = output

-- The entries whose answer has a value, with that value.
unfoldable pub put_somes : {P : Type 0} → Entries P → List (Option P) → Entries P → Entries P
unfolding put
put_somes (entry ∷ entries) (some value ∷ os) output =
    put_somes entries os (put entry.0 value output)
put_somes (entry ∷ entries) (none ∷ os) output = put_somes entries os output
put_somes _ _ output = output

module _ {H P : Type 0} (scope : RootScope H P) where
  kept_entries-some :
      (entries : Entries P) (bs : List Bool) (output : Entries P)
      → kept_entries scope entries (map some bs) output ≡ pure (put_kept entries bs output)
  unfolding kept_entries put_kept
  kept_entries-some [] [] output = refl
  kept_entries-some [] (b ∷ bs) output = refl
  kept_entries-some (entry ∷ entries) [] output = refl
  kept_entries-some (entry ∷ entries) (true ∷ bs) output =
      kept_entries-some entries bs (put entry.0 entry.1 output)
  kept_entries-some (entry ∷ entries) (false ∷ bs) output = kept_entries-some entries bs output

  some_entries-some :
      (entries : Entries P) (os : List (Option P)) (output : Entries P)
      → some_entries scope entries (map some os) output ≡ pure (put_somes entries os output)
  unfolding some_entries put_somes
  some_entries-some [] [] output = refl
  some_entries-some [] (o ∷ os) output = refl
  some_entries-some (entry ∷ entries) [] output = refl
  some_entries-some (entry ∷ entries) (some v ∷ os) output =
      some_entries-some entries os (put entry.0 v output)
  some_entries-some (entry ∷ entries) (none ∷ os) output = some_entries-some entries os output

  finish_dict_filter-some :
      (entries : Entries P) (bs : List Bool)
      → finish_dict_filter scope entries (map some bs)
        ≡ (do root ← scope.alloc_root_dict (put_kept entries bs []); pure (return root))
  unfolding finish_dict_filter returned_dict pure ◌>>=◌
  finish_dict_filter-some entries bs = rw (kept_entries-some entries bs []) refl

  finish_dict_filter_map-some :
      (entries : Entries P) (os : List (Option P))
      → finish_dict_filter_map scope entries (map some os)
        ≡ (do root ← scope.alloc_root_dict (put_somes entries os []); pure (return root))
  unfolding finish_dict_filter_map returned_dict pure ◌>>=◌
  finish_dict_filter_map-some entries os = rw (some_entries-some entries os []) refl

module _ {H P : Type 0} (scope : RootScope H P) (children : List FrameId)
    (distinct : Distinct children) (value : FrameId → P) where
  module _ (task : NativeDictFilter P) (answer : FrameId → Bool)
      (reads : (c : FrameId) (h : H) → scope.root_as_bool (value c) h ≡ ok (answer c) h) where
    dict_filter_at : List (Option Bool) → ℕ → NativeDictFilter P
    dict_filter_at keep remaining = record task {
      children = children;
      keep = keep;
      remaining = remaining;
    }

    dict_filter_fresh :
        Fresh answer value children
          (receive_dict_filter scope)
          dict_filter_at
          (finish_dict_filter scope task.entries)
    unfolding receive_dict_filter dict_filter_at state pure ◌>>=◌
    dict_filter_fresh child seen ours new h =
        rw
          (
            replace_answer-reads answer dict_filter_texts children distinct child seen
                (scope.root_as_bool (value child)) h h (reads child h),
            ours,
            new,
          )
          refl

    -- The filter of a dictionary, whose children have different identifiers, and where reading an
    -- answer as a Boolean leaves the heap alone, returns the dictionary of the entries whose answer
    -- is true, in whatever order the answers came.
    pub receive_dict_filter-all :
        (c : FrameId) (cs : List FrameId) (h : H)
        → IsRest children [] (c ∷ cs)
        → run
            (receive_dict_filter scope)
            value
            (c ∷ cs)
            (record task {
              children = children;
              keep = replicate (length children) none;
              remaining = length children;
            })
            h
          ≡ (do
            root ← scope.alloc_root_dict (put_kept task.entries (map answer children) [])
            pure (
              record task {
                children = children;
                keep = map some (map answer children);
                remaining = 0;
              },
              replicate (length cs) wait ++ return root ∷ [],
            ))
              h
    unfolding dict_filter_at
    receive_dict_filter-all =
        run-returns answer value children (receive_dict_filter scope) dict_filter_at
          (finish_dict_filter scope task.entries) dict_filter_fresh
          (scope.alloc_root_dict (put_kept task.entries (map answer children) []))
          (finish_dict_filter-some scope task.entries (map answer children))

  module _ (task : NativeDictFilterMap P) (answer : FrameId → Option P)
      (reads : (c : FrameId) (h : H) → option_value_ptr scope (value c) h ≡ ok (answer c) h) where
    dict_filter_map_at : List (Option (Option P)) → ℕ → NativeDictFilterMap P
    dict_filter_map_at output remaining = record task {
      children = children;
      output = output;
      remaining = remaining;
    }

    dict_filter_map_fresh :
        Fresh answer value children
          (receive_dict_filter_map scope)
          dict_filter_map_at
          (finish_dict_filter_map scope task.entries)
    unfolding receive_dict_filter_map dict_filter_map_at state pure ◌>>=◌
    dict_filter_map_fresh child seen ours new h =
        rw
          (
            replace_answer-reads answer dict_filter_map_texts children distinct child seen
                (option_value_ptr scope (value child)) h h (reads child h),
            ours,
            new,
          )
          refl

    -- The `filter_map` of a dictionary, whose children have different identifiers, and where
    -- reading an answer as an option leaves the heap alone, returns the names whose answer has a
    -- value, with that value, in whatever order the answers came.
    pub receive_dict_filter_map-all :
        (c : FrameId) (cs : List FrameId) (h : H)
        → IsRest children [] (c ∷ cs)
        → run
            (receive_dict_filter_map scope)
            value
            (c ∷ cs)
            (record task {
              children = children;
              output = replicate (length children) none;
              remaining = length children;
            })
            h
          ≡ (do
            root ← scope.alloc_root_dict (put_somes task.entries (map answer children) [])
            pure (
              record task {
                children = children;
                output = map some (map answer children);
                remaining = 0;
              },
              replicate (length cs) wait ++ return root ∷ [],
            ))
              h
    unfolding dict_filter_map_at
    receive_dict_filter_map-all =
        run-returns answer value children (receive_dict_filter_map scope) dict_filter_map_at
          (finish_dict_filter_map scope task.entries) dict_filter_map_fresh
          (scope.alloc_root_dict (put_somes task.entries (map answer children) []))
          (finish_dict_filter_map-some scope task.entries (map answer children))
