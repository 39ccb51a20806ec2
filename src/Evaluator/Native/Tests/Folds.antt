-- ===== src/Evaluator/Native/Tests/Folds.antt =====
-- Runs of the native tasks that come to one value: `partition` and the folds.
use rex.Prelude.{Bool, true, false, [], ◌∷◌, Option, none, some, ◌≡◌, refl, ◌==◌}
use rex.Types.Syntax.{fun, is_builtin, const_eq}
use rex.Types.Unify.{unify}
use rex.Types.Apply.{apply, apply_with_change}
use rex.Evaluator.Environment.{Environment, get}
use rex.Evaluator.FrameStore.{FrameId}
use rex.Evaluator.Frame.Effect.{ok, pure, ◌>>=◌}
use rex.Evaluator.Native.Tests.Store.{
  Value, nothing, pair, boolean, number, text, of_list, store, u8_ty, step_ty, values, children,
  children-Distinct, children-IsRest, step-CanApply,
}
use rex.Evaluator.Native.Items.{pointers, items_len}
use rex.Evaluator.Native.Items.Holds.{pointers-Holds}
use rex.Evaluator.Native.Apply.{TypedExpr, typed, var, app, wait, return, application_result_type}
use rex.Evaluator.Native.Apply.Drive.{Evaluates, CanApply, drive}
use rex.Evaluator.Native.Gather.Order.{run}
use rex.Evaluator.Native.Predicate.{receive_sequence_predicate}
use rex.Evaluator.Native.Predicate.Order.{receive_sequence_predicate-all, summary}
use rex.Evaluator.Native.Sequence.FilterOrder.{kept}
use rex.Evaluator.Native.Fold.{enter_fold, receive_fold}
use rex.Evaluator.Native.Fold.Laws.{folded, enter_fold-folded}
use rex.Evaluator.Native.Fold.Rounds.{fold_right, double}
use rex.Evaluator.Native.Unary.{option_from_native_pointer}
use rex.Evaluator.Native.Search.{enter_list_search, receive_list_search}
use rex.Evaluator.Native.Search.Laws.{searched, enter_list_search-searched}
use rex.Evaluator.Native.Task.{
  NativeListSearch, find_index, NativeSequencePredicate, partition, NativeFold, NativeFoldState,
  right,
}

abbrev is_three : FrameId → Bool
is_three c = 3 == c

abbrev partitioned : NativeSequencePredicate Value
partitioned = record {
  func = nothing;
  func_type = step_ty;
  elem_type = u8_ty;
  values = pointers values;
  mode = partition;
  children = children;
  matches = none ∷ none ∷ [];
  remaining = 2;
}

receive_sequence_predicate-all_example :
    run (receive_sequence_predicate store) (λ c. boolean (is_three c)) (3 ∷ 5 ∷ []) partitioned tt
    ≡ ok
        (
          record partitioned { matches = some false ∷ some true ∷ []; remaining = 0 },
          wait ∷ return (of_list (of_list (number 11 ∷ []) ∷ of_list (number 10 ∷ []) ∷ [])) ∷ [],
        )
        tt
unfolding summary kept items_len pure ◌>>=◌
receive_sequence_predicate-all_example =
    receive_sequence_predicate-all store children children-Distinct (λ c. boolean (is_three c))
      partitioned is_three (λ c h. refl) values 3 (5 ∷ []) tt (pointers-Holds store values) refl
      refl children-IsRest

-- An application is evaluated to the pair of its parts, so that a value shows how it was made.
abbrev applied : Option Value → Option Value → Value
applied (some f) (some a) = pair f a
applied _ _ = nothing

abbrev evaluate_app : Environment Value → TypedExpr → TypedExpr → Value
evaluate_app env (typed _ (var f _)) (typed _ (var a _)) = applied (get f env) (get a env)
evaluate_app env _ _ = nothing

abbrev evaluate : TypedExpr → Environment Value → Value
evaluate (typed _ (app f a)) env = evaluate_app env f a
evaluate (typed _ (var _ _)) env = nothing

evaluate-Evaluates : Evaluates evaluate pair
evaluate-Evaluates r f_type a_type f_name a_name env f a held_f held_a = rw (held_f, held_a) refl

abbrev fold_task : NativeFold Value
fold_task = record {
  func = text "f";
  func_type = fun u8_ty (fun u8_ty u8_ty);
  acc_type = u8_ty;
  elem_type = u8_ty;
  values = pointers values;
  acc = number 0;
  order = right;
  state = NativeFoldState.enter;
  next_index = 0;
  step = none;
}

first-CanApply : CanApply Unit 3 (fun u8_ty (fun u8_ty u8_ty)) u8_ty
unfolding application_result_type unify apply apply_with_change const_eq is_builtin pure ◌>>=◌
first-CanApply = (fun u8_ty u8_ty, λ h. refl)

enter_fold-folded_example :
    (do next ← enter_fold store 3 fold_task; drive evaluate (receive_fold store 3) 4 next) tt
    ≡ ok
        (some (pair (pair (text "f") (number 10)) (pair (pair (text "f") (number 11)) (number 0))))
        tt
unfolding folded fold_right double items_len
enter_fold-folded_example =
    enter_fold-folded store 3 evaluate pair evaluate-Evaluates fold_task right values tt
      (first-CanApply, step-CanApply) (pointers-Holds store values) refl

abbrev search_task : NativeListSearch Value
search_task = record {
  func = text "f";
  func_type = step_ty;
  elem_type = u8_ty;
  values = pointers values;
  mode = find_index;
  next_index = 0;
}

-- The function `f` tells whether a number is 11.
abbrev is_eleven : Value → Bool
is_eleven (number n) = 11 == n
is_eleven _ = false

abbrev f_of : Value → Value → Value
f_of (text _) a = boolean (is_eleven a)
f_of _ _ = nothing

abbrev tested : Option Value → Option Value → Value
tested (some f) (some a) = f_of f a
tested _ _ = nothing

abbrev test_app : Environment Value → TypedExpr → TypedExpr → Value
test_app env (typed _ (var f _)) (typed _ (var a _)) = tested (get f env) (get a env)
test_app env _ _ = nothing

abbrev test_eval : TypedExpr → Environment Value → Value
test_eval (typed _ (app f a)) env = test_app env f a
test_eval (typed _ (var _ _)) env = nothing

test_eval-Evaluates : Evaluates test_eval f_of
test_eval-Evaluates r f_type a_type f_name a_name env f a held_f held_a = rw (held_f, held_a) refl

enter_list_search-searched_example :
    (do
      next ← enter_list_search store 3 search_task
      drive test_eval (receive_list_search store 3) 2 next)
      tt
    ≡ ok (some (pair (text "Some") (of_list (number 1 ∷ [])))) tt
unfolding searched items_len option_from_native_pointer pure ◌>>=◌
enter_list_search-searched_example =
    enter_list_search-searched store 3 test_eval f_of test_eval-Evaluates search_task is_eleven
      step-CanApply values tt ((λ h. refl), ((λ h. refl), tt)) (pointers-Holds store values) refl
