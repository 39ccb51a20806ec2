-- ===== src/Evaluator/Tests.antt =====
-- Runs of the evaluator's queue and frame store at small inputs.
use mathlib.Core.List.{Memᴰ}
use rex.Evaluator.Environment.{
  Environment, Bindings, first, scope, binding, get, contains, entries, from_entries, visit_values,
  to_scoped_environment,
}
use rex.Evaluator.Environment.Laws.{
  to_scoped_environment_lem, entries-from_entries, get-visit_values, contains-get,
}
use rex.Prelude.{
  true, false, ℕ, ◌+◌, List, [], ◌∷◌, none, some, ◌≡◌, ◌≢◌, refl, arith, length, ◌⊎◌, if◌then◌else◌,
  ◌==◌,
}
use rex.Evaluator.FrameStore.{
  FrameId, FrameStore, ok, err, panic, unknown_frame, usize_max, insert, replace, remove,
}
use rex.Evaluator.FrameStore.Laws.{IsValid}
use rex.Evaluator.FrameStore.Fresh.{
  view, insert_lem, replace_lem, remove_lem, change, inserts, removes, run, Later, run-Later,
}
use rex.Evaluator.Scheduler.{
  EvalScheduler, enter, receive, new, schedule_next, set_ready_work_limit, pop_next, pop_back,
}
use rex.Evaluator.Scheduler.Bounds
use rex.Evaluator.Scheduler.Bounds.{contents}
use rex.Evaluator.Scheduler.Lifo
use rex.Evaluator.Scheduler.Lifo.{
  schedule, pop, set_limit, run_stack, run-new, top, rest, pop_next_lem, schedule_next_lem,
  set_ready_work_limit_lem,
}

abbrev ops : List (Lifo.Op ℕ)
ops = schedule (receive 1 2 7) ∷ schedule (enter 3) ∷ set_limit 0 ∷ pop ∷ pop ∷ pop ∷ pop ∷ []

answers :
    Lifo.run ops (new 0 1) ≡ some (enter 3) ∷ some (receive 1 2 7) ∷ some (enter 0) ∷ none ∷ []
unfolding Lifo.run new schedule_next set_ready_work_limit pop_next enter receive pop_back
answers = refl

run-new_example : Lifo.run ops (new 0 1) ≡ run_stack ops (enter 0 ∷ [])
run-new_example = run-new 0 1 ops

-- One item is active and one is deferred.
abbrev busy : EvalScheduler ℕ
busy = record {
  ready = record { frame = 5; returned = none } ∷ [];
  deferred_ready = record { frame = 6; returned = none } ∷ [];
  ready_work_limit = 1;
}

busy-IsValid : Bounds.IsValid busy
busy-IsValid = record { positive = omega arith; within = omega arith }

pop_next_lem_example :
    ((pop_next busy).1 ≡ top (contents busy))
    × (contents (pop_next busy).0 ≡ rest (contents busy))
    × Bounds.IsValid (pop_next busy).0
    × (((pop_next busy).0.deferred_ready ≡ [])
        ⊎ (length (pop_next busy).0.ready ≡ (pop_next busy).0.ready_work_limit))
pop_next_lem_example = pop_next_lem busy busy-IsValid

schedule_next_lem_example :
    (contents (schedule_next (enter 7) busy) ≡ enter 7 ∷ contents busy)
    × Bounds.IsValid (schedule_next (enter 7) busy)
schedule_next_lem_example = schedule_next_lem (enter 7) busy busy-IsValid

set_ready_work_limit_lem_example :
    (contents (set_ready_work_limit 0 busy) ≡ contents busy)
    × Bounds.IsValid (set_ready_work_limit 0 busy)
set_ready_work_limit_lem_example = set_ready_work_limit_lem 0 busy

-- The store after two insertions.
abbrev two : FrameStore ℕ
two = record { next_id = 2; frames = (0, 10) ∷ (1, 11) ∷ [] }

two-IsValid : IsValid two
two-IsValid = record { below = omega arith; ascending = omega arith }

insert_lem_example :
    ((two.next_id ≡ usize_max) × (insert {E = ℕ} 12 two ≡ err panic))
    ⊎ ((s' : FrameStore ℕ) × (insert {E = ℕ} 12 two ≡ ok (s', two.next_id))
        × (two.next_id ≢ usize_max)
        × IsValid s'
        × (view two two.next_id ≡ none)
        × (s'.next_id ≡ two.next_id + 1)
        × ((j : FrameId) → view s' j ≡ (if two.next_id == j then some 12 else view two j)))
insert_lem_example = insert_lem 12 two two-IsValid

replace_lem_example :
    ((view two 1 ≡ none) × (replace {E = ℕ} 1 12 two ≡ err (unknown_frame 1)))
    ⊎ ((s' : FrameStore ℕ) × (replace {E = ℕ} 1 12 two ≡ ok s')
        × (view two 1 ≢ none)
        × IsValid s'
        × (s'.next_id ≡ two.next_id)
        × ((j : FrameId) → view s' j ≡ (if ◌==◌ 1 j then some 12 else view two j)))
replace_lem_example = replace_lem 1 12 two two-IsValid

remove_lem_example :
    ((view two 5 ≡ none) × (remove {E = ℕ} 5 two ≡ err (unknown_frame 5)))
    ⊎ ((frame : ℕ) × (s' : FrameStore ℕ) × (remove {E = ℕ} 5 two ≡ ok (s', frame))
        × (view two 5 ≡ some frame)
        × IsValid s'
        × (s'.next_id ≡ two.next_id)
        × ((j : FrameId) → view s' j ≡ (if ◌==◌ 5 j then none else view two j)))
remove_lem_example = remove_lem 5 two two-IsValid

abbrev three : FrameStore ℕ
three = record { next_id = 3; frames = (1, 11) ∷ (2, 12) ∷ [] }

changed : run {E = ℕ} (removes 0 ∷ inserts 12 ∷ []) two ≡ ok three
unfolding run change remove insert
changed = refl

run-Later_example : Later two three
run-Later_example = run-Later {E = ℕ} (removes 0 ∷ inserts 12 ∷ []) two three two-IsValid changed

-- The inner scope hides the outer binding of `x`.
abbrev shadowed : Environment ℕ
shadowed = scope (first (("x", 1) ∷ ("y", 2) ∷ [])) (("x", 3) ∷ [])

found : get "x" shadowed ≡ some 3
unfolding get binding
found = refl

to_scoped_environment_lem_example : to_scoped_environment shadowed ≡ shadowed
to_scoped_environment_lem_example =
    to_scoped_environment_lem shadowed ((tt, tt), (tt, ((refl, tt), tt)))

abbrev scopes : List (Bindings ℕ)
scopes = (("x", 3) ∷ []) ∷ [] ∷ []

entries-from_entries_example : entries (from_entries scopes) ≡ scopes
entries-from_entries_example = entries-from_entries scopes

get-visit_values_example : Memᴰ 3 (visit_values shadowed)
get-visit_values_example = get-visit_values "x" shadowed 3 found

contains-get_example :
    contains "z" shadowed ≡ (elim (get "z" shadowed) [ some value ↦ true | none ↦ false ])
contains-get_example = contains-get "z" shadowed
