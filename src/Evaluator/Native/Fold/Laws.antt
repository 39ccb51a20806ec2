-- ===== src/Evaluator/Native/Fold/Laws.antt =====
-- rex-engine/src/evaluator/native_functions.rs, `NativeFold`: the task, driven to its end, computes the
-- fold of the list.
use rex.Prelude.{ℕ, suc, List, [], ◌∷◌, some, length, ◌≡◌, sym, ap, ◌∙◌, arith}
use rex.Types.Syntax.{fun}
use rex.Evaluator.Environment.{Environment}
use rex.Evaluator.Frame.Effect.{ok, pure, ◌>>=◌}
use rex.Evaluator.Native.Scope.{RootScope}
use rex.Evaluator.Native.Items.{items_len, items_is_empty}
use rex.Evaluator.Native.Items.Holds.{Holds}
use rex.Evaluator.Native.Apply.{TypedExpr}
use rex.Evaluator.Native.Apply.Drive.{Evaluates, CanApply, drive}
use rex.Evaluator.Native.Fold.{enter_fold, receive_fold}
use rex.Evaluator.Native.Task.{NativeFold, NativeFoldOrder, left, right}
use rex.Evaluator.Native.Fold.Rounds.{
  double, fold_left, fold_right, onto, fold_left-onto, length-onto, onto-HoldsBack, run_fold,
  rounds, rounds-left, right_list,
}

-- What the list is folded to.
unfoldable pub folded : {P : Type 0} → NativeFoldOrder → (P → P → P) → P → List P → P
unfolding fold_left fold_right
folded left f b xs = fold_left f b xs
folded right f b xs = fold_right f b xs

-- The two applications of `func`, whose types are those of the task.
abbrev pub CanFold : {P : Type 0} → Type 0 → ℕ → NativeFoldOrder → NativeFold P → Type 0
CanFold H fuel left task =
    CanApply H fuel task.func_type task.acc_type
    × CanApply H fuel (fun task.elem_type task.acc_type) task.elem_type
CanFold H fuel right task =
    CanApply H fuel task.func_type task.elem_type
    × CanApply H fuel (fun task.acc_type task.acc_type) task.acc_type

module _ {H P : Type 0} (scope : RootScope H P) (fuel : ℕ) (eval : TypedExpr → Environment P → P)
    (apply : P → P → P) (evaluates : Evaluates eval apply) (task : NativeFold P) where
  enter_fold-empty :
      (order : NativeFoldOrder) (n : ℕ) (h : H)
      → items_len task.values ≡ 0
      → (do
        next ← enter_fold scope fuel (record task { order = order })
        run_fold scope fuel eval apply evaluates task n next)
          h
        ≡ ok (some task.acc) h
  unfolding enter_fold items_is_empty run_fold drive pure ◌>>=◌
  enter_fold-empty order n h none_left = rw none_left (ground arith)

  enter_fold-some :
      (order : NativeFoldOrder) (n k : ℕ) (h : H)
      → items_len task.values ≡ suc k
      → (do
        next ← enter_fold scope fuel (record task { order = order })
        run_fold scope fuel eval apply evaluates task n next)
          h
        ≡ rounds scope fuel eval apply evaluates task order 0 task.acc task.step n h
  unfolding enter_fold items_is_empty rounds pure ◌>>=◌
  enter_fold-some order n k h more = rw more (ground arith)

  -- The task of a fold, when the evaluation of an application applies the one name's value to the
  -- other's, the types of the task allow its two applications and reading an element leaves the
  -- heap alone, is ended by two evaluations for each element, with the left or the right fold of
  -- the list, on any list that its items hold.
  pub enter_fold-folded :
      (order : NativeFoldOrder) (xs : List P) (h : H)
      → CanFold H fuel order task
      → Holds scope task.values 0 xs
      → items_len task.values ≡ length xs
      → (do
        next ← enter_fold scope fuel (record task { order = order })
        drive eval (receive_fold scope fuel) (double (length xs)) next)
          h
        ≡ ok (some (folded order (λ a b. apply (apply task.func a) b) task.acc xs)) h
  unfolding folded run_fold fold_left fold_right double
  enter_fold-folded left [] h can holds len = enter_fold-empty left 0 h len
  enter_fold-folded right [] h can holds len = enter_fold-empty right 0 h len
  enter_fold-folded left (x ∷ xs) h can holds len =
      enter_fold-some left (double (length (x ∷ xs))) (length xs) h len
      ∙ rounds-left scope fuel eval apply evaluates task can.0 can.1 x xs 0 task.acc task.step h
          holds (omega (arith, len))
  enter_fold-folded right (x ∷ xs) h can holds len =
      let size : length (onto (x ∷ xs) []) ≡ length (x ∷ xs) =
        length-onto (x ∷ xs) [] ∙ omega arith in
      enter_fold-some right (double (length (x ∷ xs))) (length xs) h len
      ∙ ap
          (λ n. rounds scope fuel eval apply evaluates task right 0 task.acc task.step (double n) h)
          (sym size)
      ∙ right_list scope fuel eval apply evaluates task can.0 can.1 (onto (x ∷ xs) []) (length xs)
          task.acc task.step h size (onto-HoldsBack scope task.values (x ∷ xs) [] holds tt)
          (len ∙ sym size)
      ∙ ap (λ v. ok (some v) h)
          (fold_left-onto (λ a b. apply (apply task.func a) b) task.acc (x ∷ xs) [])
