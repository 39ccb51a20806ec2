-- ===== src/Evaluator/Native/Search/Laws.antt =====
-- rex-engine/src/evaluator/native_functions.rs, `NativeListSearch`: the task, driven to its end, searches the
-- list.
use rex.Prelude.{
  ℕ, suc, ◌+◌, Bool, true, false, not, List, [], ◌∷◌, Option, none, some, length, if◌then◌else◌,
  ◌==◌, ◌≡◌, refl, ap, ◌∙◌, arith, fun_ext, Bool-cases, inl, inr,
}
use rex.Evaluator.Environment.{Environment}
use rex.Evaluator.Frame.Effect.{ok, pure, ◌>>=◌, >>=_assoc}
use rex.Evaluator.Native.Scope.{Action, RootScope}
use rex.Evaluator.Native.Items.{items_len, items_is_empty, get}
use rex.Evaluator.Native.Items.Holds.{Holds}
use rex.Evaluator.Native.Apply.{TypedExpr, NativeStep, return}
use rex.Evaluator.Native.Apply.Drive.{Evaluates, CanApply, drive, native_apply_step_lem}
use rex.Evaluator.Native.Unary.{option_from_native_pointer}
use rex.Evaluator.Native.Search.{
  apply_next, exhausted, exhausted_value, enter_list_search, receive_list_search, decided,
  after_answer, go_on,
}
use rex.Evaluator.Native.Task.{NativeListSearch, NativeListSearchMode, any, every, find, find_index}

-- Whether an answer ends the search.
unfoldable pub stops : NativeListSearchMode → Bool → Bool
stops every b = not b
stops _ b = b

module _ {H P : Type 0} (scope : RootScope H P) where
  -- What the search comes to when the element `x` with the number `i` ends it, and when none does.
  unfoldable pub hit : NativeListSearchMode → P → ℕ → Action H P
  hit any x i = scope.alloc_root_bool true
  hit every x i = scope.alloc_root_bool false
  hit find x i = option_from_native_pointer scope (some x)
  hit find_index x i = do
    index ← scope.alloc_root_u64 i
    option_from_native_pointer scope (some index)

  unfoldable pub missed : NativeListSearchMode → Action H P
  missed any = scope.alloc_root_bool false
  missed every = scope.alloc_root_bool true
  missed find = option_from_native_pointer scope none
  missed find_index = option_from_native_pointer scope none

  -- The search of a list from the number `i` on, by a test of the elements.
  unfoldable pub searched : NativeListSearchMode → (P → Bool) → List P → ℕ → Action H P
  unfolding stops hit missed
  searched mode test [] i = missed mode
  searched mode test (x ∷ xs) i =
      if stops mode (test x) then hit mode x i else searched mode test xs (suc i)

module _ {H P : Type 0} (scope : RootScope H P) (fuel : ℕ) where
  exhausted_value-missed :
      (mode : NativeListSearchMode) → exhausted_value scope fuel mode ≡ missed scope mode
  unfolding exhausted_value missed
  exhausted_value-missed any = refl
  exhausted_value-missed every = refl
  exhausted_value-missed find = refl
  exhausted_value-missed find_index = refl

  decided-hit :
      (mode : NativeListSearchMode) (b : Bool) (task : NativeListSearch P) (x : P)
      → ((h : H) → get scope task.next_index task.values h ≡ ok x h)
      → decided scope fuel mode b task
        ≡ (if stops mode b then some (hit scope mode x task.next_index) else none)
  unfolding decided stops hit ◌>>=◌
  decided-hit any true task x reads = refl
  decided-hit any false task x reads = refl
  decided-hit every true task x reads = refl
  decided-hit every false task x reads = refl
  decided-hit find true task x reads = ap some (fun_ext (λ h. rw (reads h) refl))
  decided-hit find false task x reads = refl
  decided-hit find_index true task x reads = refl
  decided-hit find_index false task x reads = refl

module _ {H P : Type 0} (scope : RootScope H P) (fuel : ℕ) (eval : TypedExpr → Environment P → P)
    (apply : P → P → P) (evaluates : Evaluates eval apply) (task : NativeListSearch P)
    (test : P → Bool) (can : CanApply H fuel task.func_type task.elem_type) where
  abbrev search_at : ℕ → NativeListSearch P
  search_at i = record task { next_index = i }

  -- The answer for the element `x` reads as the Boolean `test x`, and leaves the heap alone.
  abbrev Answers : P → Type 0
  Answers x = (h : H) → scope.root_as_bool (apply task.func x) h ≡ ok (test x) h

  ended :
      (action : Action H P) (task' : NativeListSearch P) (n : ℕ) (h : H)
      → (do
        next ← (do v ← action; pure (task', return v))
        drive eval (receive_list_search scope fuel) n next)
          h
        ≡ (do v ← action; pure (some v)) h
  unfolding drive ◌>>=◌
  ended action task' n h =
      ap (λ f. f h)
        (>>=_assoc action (λ v. pure (task', return v))
          (drive eval (receive_list_search scope fuel) n))

  plain :
      (action : Action H P) (task' : NativeListSearch P)
      → ◌≡◌ {A = Action H (NativeListSearch P × NativeStep P)}
          (do step ← (do v ← action; pure (return v)); pure (task', step))
          (do v ← action; pure (task', return v))
  unfolding pure ◌>>=◌
  plain action task' =
      >>=_assoc {C = NativeListSearch P × NativeStep P} action (λ v. pure (return v))
        (λ step. pure (task', step))

  exhausted_lem :
      (task' : NativeListSearch P) (n : ℕ) (h : H)
      → (do
        next ← (do step ← exhausted scope fuel task'; pure (task', step))
        drive eval (receive_list_search scope fuel) n next)
          h
        ≡ (do v ← missed scope task'.mode; pure (some v)) h
  unfolding exhausted
  exhausted_lem task' n h =
      rw (exhausted_value-missed scope fuel task'.mode, plain (missed scope task'.mode) task')
        (ended (missed scope task'.mode) task' n h)

  -- Before the application to the element with the number `i`.
  rounds : ℕ → ℕ → Action H (Option P)
  unfolding apply_next drive
  rounds i n = do
    step ← apply_next scope fuel (search_at i)
    drive eval (receive_list_search scope fuel) n (search_at i, step)

  answered_round :
      (x : P) (i n : ℕ) (h : H)
      → get scope i task.values h ≡ ok x h
      → rounds i (suc n) h
        ≡ (do
          next ← receive_list_search scope fuel (apply task.func x) (search_at i)
          drive eval (receive_list_search scope fuel) n next)
            h
  unfolding rounds apply_next drive pure ◌>>=◌
  answered_round x i n h reads =
      let (e, env, step, value) =
        native_apply_step_lem fuel eval apply evaluates task.func x task.func_type task.elem_type h
          can in
      rw (reads, step, value) refl

  stopped :
      (x : P) (i n : ℕ) (h : H)
      → Answers x
      → ((h' : H) → get scope i task.values h' ≡ ok x h')
      → stops task.mode (test x) ≡ true
      → (do
        next ← receive_list_search scope fuel (apply task.func x) (search_at i)
        drive eval (receive_list_search scope fuel) n next)
          h
        ≡ (do v ← hit scope task.mode x i; pure (some v)) h
  unfolding receive_list_search after_answer drive pure ◌>>=◌
  stopped x i n h answers reads ends =
      rw (answers h, decided-hit scope fuel task.mode (test x) (search_at i) x reads, ends)
        (ended (hit scope task.mode x i) (search_at i) n h)

  last_round :
      (x : P) (i n : ℕ) (h : H)
      → Answers x
      → ((h' : H) → get scope i task.values h' ≡ ok x h')
      → stops task.mode (test x) ≡ false
      → items_len task.values ≡ i + 1
      → (do
        next ← receive_list_search scope fuel (apply task.func x) (search_at i)
        drive eval (receive_list_search scope fuel) n next)
          h
        ≡ (do v ← missed scope task.mode; pure (some v)) h
  unfolding receive_list_search after_answer go_on exhausted drive pure ◌>>=◌
  last_round x i n h answers reads goes end =
      let here : ((i + 1) == (i + 1)) ≡ true = ground arith in
      rw
        (
          answers h,
          decided-hit scope fuel task.mode (test x) (search_at i) x reads,
          goes,
          end,
          here,
        )
        (exhausted_lem (search_at (i + 1)) n h)

  next_round :
      (x : P) (i n k : ℕ) (h : H)
      → Answers x
      → ((h' : H) → get scope i task.values h' ≡ ok x h')
      → stops task.mode (test x) ≡ false
      → items_len task.values ≡ i + suc (suc k)
      → (do
        next ← receive_list_search scope fuel (apply task.func x) (search_at i)
        drive eval (receive_list_search scope fuel) n next)
          h
        ≡ rounds (i + 1) n h
  unfolding rounds receive_list_search after_answer go_on pure ◌>>=◌
  next_round x i n k h answers reads goes more =
      rw (answers h, decided-hit scope fuel task.mode (test x) (search_at i) x reads, goes, more)
        (ground arith)

  -- So do the answers for all the elements of the list.
  abbrev pub AllAnswer : List P → Type 0
  AllAnswer [] = Unit
  AllAnswer (x ∷ xs) = Answers x × AllAnswer xs

  list_rounds :
      (x : P) (xs : List P) (i : ℕ) (h : H)
      → AllAnswer (x ∷ xs)
      → Holds scope task.values i (x ∷ xs)
      → items_len task.values ≡ i + length (x ∷ xs)
      → rounds i (length (x ∷ xs)) h
        ≡ (do v ← searched scope task.mode test (x ∷ xs) i; pure (some v)) h
  unfolding searched
  list_rounds x [] i h all holds len =
      answered_round x i 0 h (holds.0 h) ∙ elim (Bool-cases (stops task.mode (test x))) [
        | inl ends ↦ stopped x i 0 h all.0 holds.0 ends ∙ rw ends refl
        | inr goes ↦ last_round x i 0 h all.0 holds.0 goes len ∙ rw goes refl
      ]
  list_rounds x (y ∷ ys) i h all holds len =
      let n = length (y ∷ ys) in
      let rest = list_rounds y ys (suc i) h all.1 holds.1 (omega (arith, len)) in
      answered_round x i n h (holds.0 h) ∙ elim (Bool-cases (stops task.mode (test x))) [
        | inl ends ↦ stopped x i n h all.0 holds.0 ends ∙ rw ends refl
        | inr goes ↦
            next_round x i n (length ys) h all.0 holds.0 goes len
            ∙ ap (λ j. rounds j n h) (omega arith)
            ∙ rest
            ∙ rw goes refl
      ]

  enter-empty :
      (n : ℕ) (h : H)
      → items_len task.values ≡ 0
      → (do
        next ← enter_list_search scope fuel task
        drive eval (receive_list_search scope fuel) n next)
          h
        ≡ (do v ← missed scope task.mode; pure (some v)) h
  unfolding enter_list_search items_is_empty
  enter-empty n h none_left = rw none_left (exhausted_lem (search_at 0) n h)

  enter-some :
      (n k : ℕ) (h : H)
      → items_len task.values ≡ suc k
      → (do
        next ← enter_list_search scope fuel task
        drive eval (receive_list_search scope fuel) n next)
          h
        ≡ rounds 0 n h
  unfolding enter_list_search items_is_empty rounds pure ◌>>=◌
  enter-some n k h more = rw more (ground arith)

  -- The task of a search, when the evaluation of an application applies the one name's value to the
  -- other's, the function can be applied to an element, the answer for each element of the list
  -- reads as a Boolean, and this and reading an element leave the heap alone, is ended by one
  -- evaluation for each element at most, with what the plain search of the list gives in its mode:
  -- whether some element or every element passes the test, or the first element that passes or its
  -- number, as an option.
  pub enter_list_search-searched :
      (xs : List P) (h : H)
      → AllAnswer xs
      → Holds scope task.values 0 xs
      → items_len task.values ≡ length xs
      → (do
        next ← enter_list_search scope fuel task
        drive eval (receive_list_search scope fuel) (length xs) next)
          h
        ≡ (do v ← searched scope task.mode test xs 0; pure (some v)) h
  unfolding searched
  enter_list_search-searched [] h all holds len = enter-empty 0 h len
  enter_list_search-searched (x ∷ xs) h all holds len =
      enter-some (length (x ∷ xs)) (length xs) h len
      ∙ list_rounds x xs 0 h all holds (omega (arith, len))
