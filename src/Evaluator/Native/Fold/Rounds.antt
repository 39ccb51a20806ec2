-- ===== src/Evaluator/Native/Fold/Rounds.antt =====
-- rex-engine/src/evaluator/native_functions.rs, `NativeFold`: the two applications for each element, one
-- element after the other.
use rex.Prelude.{
  ℕ, zero, suc, ◌+◌, ◌-◌, List, [], ◌∷◌, Option, none, some, length, ◌≡◌, refl, ◌∙◌, arith, subst,
  false, ltb,
}
use rex.Types.Syntax.{fun}
use rex.Evaluator.Environment.{Environment}
use rex.Evaluator.Frame.Effect.{ok, pure, ◌>>=◌}
use rex.Evaluator.Native.Scope.{Action, RootScope, ok_or}
use rex.Evaluator.Native.Items.{ListItems, items_len, get}
use rex.Evaluator.Native.Items.Holds.{Holds}
use rex.Evaluator.Native.Apply.{TypedExpr, NativeStep}
use rex.Evaluator.Native.Apply.Drive.{Evaluates, CanApply, drive, native_apply_step_lem}
use rex.Evaluator.Native.Fold.{
  receive_fold, receive_fold_in, fold_apply_first, fold_apply_second, first_arg, second_arg,
  value_at,
}
use rex.Evaluator.Native.Task.{NativeFold, NativeFoldOrder, left, right, NativeFoldState}

unfoldable pub double : ℕ → ℕ
double zero = zero
double (suc n) = suc (suc (double n))

unfoldable pub fold_left : {A B : Type 0} → (B → A → B) → B → List A → B
fold_left f b [] = b
fold_left f b (a ∷ as') = fold_left f (f b a) as'

unfoldable pub fold_right : {A B : Type 0} → (A → B → B) → B → List A → B
fold_right f b [] = b
fold_right f b (a ∷ as') = f a (fold_right f b as')

-- The list from its end, before the list `ys`.
unfoldable pub onto : {A : Type 0} → List A → List A → List A
onto [] ys = ys
onto (x ∷ xs) ys = onto xs (x ∷ ys)

pub fold_left-onto :
    {A B : Type 0} (f : A → B → B) (b : B) (xs ys : List A)
    → fold_left (λ acc a. f a acc) b (onto xs ys)
      ≡ fold_left (λ acc a. f a acc) (fold_right f b xs) ys
unfolding fold_left fold_right onto
fold_left-onto f b [] ys = refl
fold_left-onto f b (x ∷ xs) ys = fold_left-onto f b xs (x ∷ ys)

pub length-onto : {A : Type 0} (xs ys : List A) → length (onto xs ys) ≡ length xs + length ys
unfolding onto
length-onto [] ys = omega arith
length-onto (x ∷ xs) ys = omega (arith, length-onto xs (x ∷ ys))

module _ {H P : Type 0} (scope : RootScope H P) (items : ListItems P) where
  -- The values that the items give from the last to the first.
  abbrev pub HoldsBack : List P → Type 0
  HoldsBack [] = Unit
  HoldsBack (y ∷ ys) = ((h : H) → get scope (length ys) items h ≡ ok y h) × HoldsBack ys

  pub onto-HoldsBack :
      (xs ys : List P) → Holds scope items (length ys) xs → HoldsBack ys → HoldsBack (onto xs ys)
  unfolding onto
  onto-HoldsBack [] ys holds back = back
  onto-HoldsBack (x ∷ xs) ys holds back = onto-HoldsBack xs (x ∷ ys) holds.1 (holds.0, back)

module _ {H P : Type 0} (scope : RootScope H P) (fuel : ℕ) (eval : TypedExpr → Environment P → P)
    (apply : P → P → P) (evaluates : Evaluates eval apply) (task : NativeFold P) where
  unfoldable pub run_fold : ℕ → NativeFold P × NativeStep P → Action H (Option P)
  unfolding drive
  run_fold n next = drive eval (receive_fold scope fuel) n next

  -- What the evaluation of `func` at two arguments gives.
  abbrev pub both : P → P → P
  both a b = apply (apply task.func a) b

  -- Before the first application for the element with the number `i`.
  abbrev fold_at : NativeFoldOrder → ℕ → P → Option P → NativeFold P
  fold_at order i acc s = record task {
    order = order;
    state = NativeFoldState.apply_first;
    next_index = i;
    acc = acc;
    step = s;
  }

  -- Before the second application, when the first gave `f`.
  abbrev fold_second : NativeFoldOrder → ℕ → P → P → NativeFold P
  fold_second order i acc f = record task {
    order = order;
    state = NativeFoldState.apply_second;
    next_index = i;
    acc = acc;
    step = some f;
  }

  unfoldable pub rounds : NativeFoldOrder → ℕ → P → Option P → ℕ → Action H (Option P)
  unfolding run_fold fold_apply_first
  rounds order i acc s n = do
    step ← fold_apply_first scope fuel (fold_at order i acc s)
    run_fold n (fold_at order i acc s, step)

  last_step :
      (order : NativeFoldOrder) (i : ℕ) (acc f v : P) (n : ℕ) (h : H)
      → items_len task.values ≡ i + 1
      → (do next ← receive_fold scope fuel v (fold_second order i acc f); run_fold n next) h
        ≡ ok (some v) h
  unfolding run_fold drive receive_fold receive_fold_in pure ◌>>=◌
  last_step order i acc f v n h end = rw end (ground arith)

  next_step :
      (order : NativeFoldOrder) (i : ℕ) (acc f v : P) (n k : ℕ) (h : H)
      → items_len task.values ≡ i + suc (suc k)
      → (do next ← receive_fold scope fuel v (fold_second order i acc f); run_fold n next) h
        ≡ rounds order (i + 1) v none n h
  unfolding rounds run_fold receive_fold receive_fold_in pure ◌>>=◌
  next_step order i acc f v n k h more = rw more (ground arith)

  module _ (can_first : CanApply H fuel task.func_type task.acc_type)
      (can_second : CanApply H fuel (fun task.elem_type task.acc_type) task.elem_type) where
    -- The two applications for one element.
    left_round :
        (x : P) (i : ℕ) (acc : P) (s : Option P) (n : ℕ) (h : H)
        → get scope i task.values h ≡ ok x h
        → rounds left i acc s (suc (suc n)) h
          ≡ (do
            next ←
                receive_fold scope fuel (both acc x) (fold_second left i acc (apply task.func acc))
            run_fold n next)
              h
    unfolding rounds run_fold drive fold_apply_first first_arg receive_fold receive_fold_in
        fold_apply_second second_arg value_at ok_or pure ◌>>=◌
    left_round x i acc s n h reads =
        let (e1, env1, step1, value1) =
          native_apply_step_lem fuel eval apply evaluates task.func acc task.func_type task.acc_type
            h can_first in
        let (e2, env2, step2, value2) =
          native_apply_step_lem fuel eval apply evaluates (apply task.func acc) x
            (fun task.elem_type task.acc_type) task.elem_type h can_second in
        rw (step1, value1, reads, step2, value2) refl

    pub rounds-left :
        (x : P) (xs : List P) (i : ℕ) (acc : P) (s : Option P) (h : H)
        → Holds scope task.values i (x ∷ xs)
        → items_len task.values ≡ i + length (x ∷ xs)
        → rounds left i acc s (double (length (x ∷ xs))) h
          ≡ ok (some (fold_left both acc (x ∷ xs))) h
    unfolding double fold_left
    rounds-left x [] i acc s h holds len =
        left_round x i acc s 0 h (holds.0 h)
        ∙ last_step left i acc (apply task.func acc) (both acc x) 0 h len
    rounds-left x (y ∷ ys) i acc s h holds len =
        left_round x i acc s (double (length (y ∷ ys))) h (holds.0 h)
        ∙ next_step left i acc (apply task.func acc) (both acc x) (double (length (y ∷ ys)))
            (length ys) h len
        ∙ rounds-left y ys (i + 1) (both acc x) none h
            (subst (λ j. Holds scope task.values j (y ∷ ys)) (omega arith) holds.1)
            (omega (arith, len))

  module _ (can_first : CanApply H fuel task.func_type task.elem_type)
      (can_second : CanApply H fuel (fun task.acc_type task.acc_type) task.acc_type) where
    right_round :
        (y : P) (k i : ℕ) (acc : P) (s : Option P) (n : ℕ) (h : H)
        → items_len task.values ≡ i + suc k
        → get scope k task.values h ≡ ok y h
        → rounds right i acc s (suc (suc n)) h
          ≡ (do
            next ←
                receive_fold scope fuel (both y acc) (fold_second right i acc (apply task.func y))
            run_fold n next)
              h
    unfolding rounds run_fold drive fold_apply_first first_arg receive_fold receive_fold_in
        fold_apply_second second_arg value_at ok_or pure ◌>>=◌
    right_round y k i acc s n h len reads =
        let (e1, env1, step1, value1) =
          native_apply_step_lem fuel eval apply evaluates task.func y task.func_type task.elem_type
            h can_first in
        let (e2, env2, step2, value2) =
          native_apply_step_lem fuel eval apply evaluates (apply task.func y) acc
            (fun task.acc_type task.acc_type) task.acc_type h can_second in
        let within : ltb (items_len task.values) (i + 1) ≡ false = ground (arith, len) in
        let place : items_len task.values - (i + 1) ≡ k = omega (arith, len) in
        rw (within, place, reads, step1, value1, step2, value2) refl

    rounds-right :
        (y : P) (ys : List P) (i : ℕ) (acc : P) (s : Option P) (h : H)
        → HoldsBack scope task.values (y ∷ ys)
        → items_len task.values ≡ i + length (y ∷ ys)
        → rounds right i acc s (double (length (y ∷ ys))) h
          ≡ ok (some (fold_left (λ acc' y'. both y' acc') acc (y ∷ ys))) h
    unfolding double fold_left
    rounds-right y [] i acc s h holds len =
        right_round y 0 i acc s 0 h len (holds.0 h)
        ∙ last_step right i acc (apply task.func y) (both y acc) 0 h len
    rounds-right y (z ∷ zs) i acc s h holds len =
        right_round y (length (z ∷ zs)) i acc s (double (length (z ∷ zs))) h len (holds.0 h)
        ∙ next_step right i acc (apply task.func y) (both y acc) (double (length (z ∷ zs)))
            (length zs) h len
        ∙ rounds-right z zs (i + 1) (both y acc) none h holds.1 (omega (arith, len))

    pub right_list :
        (ys : List P) (k : ℕ) (acc : P) (s : Option P) (h : H)
        → length ys ≡ suc k
        → HoldsBack scope task.values ys
        → items_len task.values ≡ length ys
        → rounds right 0 acc s (double (length ys)) h
          ≡ ok (some (fold_left (λ acc' y'. both y' acc') acc ys)) h
    right_list [] k acc s h size holds len = absurd (omega (arith, size))
    right_list (y ∷ ys) k acc s h size holds len =
        rounds-right y ys 0 acc s h holds (omega (arith, len))
