-- ===== src/Evaluator/Native/Predicate/Order.antt =====
-- rex-engine/src/evaluator/native_functions.rs: what `count` and `partition` return when all children have
-- answered, in any order.
use rex.Prelude.{
  ℕ, suc, Bool, true, false, not, List, [], ◌∷◌, ◌++◌, Option, none, some, length, replicate, map,
  length-map, length-append, append_assoc, subst, ◌≡◌, refl, ap, ◌∙◌, arith, fun_ext,
}
use rex.Evaluator.FrameStore.{FrameId}
use rex.Evaluator.Frame.Effect.{ok, pure, ◌>>=◌}
use rex.Evaluator.Native.Scope.{Action, RootScope}
use rex.Evaluator.Native.Items.{ListItems, items_len}
use rex.Evaluator.Native.Items.Holds.{Holds}
use rex.Evaluator.Native.Apply.{wait, return}
use rex.Evaluator.Native.Gather.Slots.{Distinct}
use rex.Evaluator.Native.Gather.Answers.{store_answer-reads}
use rex.Evaluator.Native.Gather.Order.{run, run-returns, IsRest, Fresh, state}
use rex.Evaluator.Native.Texts.{sequence_predicate_texts}
use rex.Evaluator.Native.Sequence.FilterOrder.{kept}
use rex.Evaluator.Native.Predicate.{
  receive_sequence_predicate, finish_in, partition_from, count_matches, match_at, add_to,
}
use rex.Evaluator.Native.Task.{
  NativeSequencePredicate, NativeSequencePredicateMode, count, partition,
}

-- How many answers are `true`.
unfoldable pub count_true : List Bool → ℕ
count_true [] = 0
count_true (true ∷ bs) = suc (count_true bs)
count_true (false ∷ bs) = count_true bs

count_matches-some : (bs : List Bool) → count_matches (map some bs) ≡ count_true bs
unfolding count_matches count_true
count_matches-some [] = refl
count_matches-some (true ∷ bs) = ap suc (count_matches-some bs)
count_matches-some (false ∷ bs) = count_matches-some bs

match_at-some :
    (pre : List Bool) (b : Bool) (bs : List Bool)
    → match_at (map some (pre ++ b ∷ bs)) (length pre) ≡ some b
unfolding match_at
match_at-some [] b bs = refl
match_at-some (p ∷ pre) b bs = match_at-some pre b bs

add_to-kept :
    {P : Type 0} (x : P) (xs : List P) (b : Bool) (bs : List Bool)
    → add_to b x (kept xs bs, kept xs (map not bs))
      ≡ (kept (x ∷ xs) (b ∷ bs), kept (x ∷ xs) (map not (b ∷ bs)))
unfolding add_to kept
add_to-kept x xs true bs = refl
add_to-kept x xs false bs = refl

module _ {H P : Type 0} (scope : RootScope H P) where
  -- What the task returns at its end, as one allocation.
  unfoldable pub summary : NativeSequencePredicateMode → List P → List Bool → Action H P
  unfolding count_true kept
  summary count xs bs = scope.alloc_root_u64 (count_true bs)
  summary partition xs bs = do
    matching ← scope.alloc_root_list (kept xs bs)
    rejected ← scope.alloc_root_list (kept xs (map not bs))
    scope.alloc_root_tuple (matching ∷ rejected ∷ [])

module _ {H P : Type 0} (scope : RootScope H P) (items : ListItems P) where
  -- The rounds from position `i` on, where `pre` answers stand before it.
  partition_from-kept :
      (xs : List P) (pre bs : List Bool) (i : ℕ) (h : H)
      → Holds scope items i xs
      → i ≡ length pre
      → length bs ≡ length xs
      → partition_from scope (length xs) i items (map some (pre ++ bs)) h
        ≡ ok (kept xs bs, kept xs (map not bs)) h
  unfolding partition_from kept pure ◌>>=◌
  partition_from-kept [] pre [] i h holds at same = refl
  partition_from-kept [] pre (b ∷ bs) i h holds at same = absurd (omega (arith, same))
  partition_from-kept (x ∷ xs) pre [] i h holds at same = absurd (omega (arith, same))
  partition_from-kept (x ∷ xs) pre (b ∷ bs) i h holds at same =
      let found = ap (match_at (map some (pre ++ b ∷ bs))) at ∙ match_at-some pre b bs in
      let rest =
        subst
          (λ l.
            partition_from scope (length xs) (suc i) items (map some l) h
            ≡ ok (kept xs bs, kept xs (map not bs)) h)
          (append_assoc pre (b ∷ []) bs)
          (partition_from-kept xs (pre ++ b ∷ []) bs (suc i) h holds.1
            (omega (arith, at, length-append pre (b ∷ []))) (omega (arith, same))) in
      rw (holds.0 h, found, rest) (ap (λ p. ok p h) (add_to-kept x xs b bs))

  finish_in-summary :
      (mode : NativeSequencePredicateMode) (xs : List P) (bs : List Bool)
      → Holds scope items 0 xs
      → items_len items ≡ length xs
      → length bs ≡ length xs
      → finish_in scope mode items (map some bs)
        ≡ (do root ← summary scope mode xs bs; pure (return root))
  unfolding finish_in summary pure ◌>>=◌
  finish_in-summary count xs bs holds len same = rw (count_matches-some bs) refl
  finish_in-summary partition xs bs holds len same =
      fun_ext (λ h. rw (len, partition_from-kept xs [] bs 0 h holds refl same) (ground arith))

module _ {H P : Type 0} (scope : RootScope H P) (children : List FrameId)
    (distinct : Distinct children) (value : FrameId → P) (task : NativeSequencePredicate P)
    (answer : FrameId → Bool)
    (reads : (c : FrameId) (h : H) → scope.root_as_bool (value c) h ≡ ok (answer c) h) where
  predicate_at : List (Option Bool) → ℕ → NativeSequencePredicate P
  predicate_at matches remaining = record task {
    children = children;
    matches = matches;
    remaining = remaining;
  }

  predicate_fresh :
      Fresh answer value children
        (receive_sequence_predicate scope)
        predicate_at
        (finish_in scope task.mode task.values)
  unfolding receive_sequence_predicate predicate_at state pure ◌>>=◌
  predicate_fresh child seen ours new h =
      rw
        (
          store_answer-reads answer sequence_predicate_texts children distinct child seen
              (scope.root_as_bool (value child)) h h (reads child h),
          ours,
          new,
        )
        refl

  -- The task of `count` and `partition`, under the same conditions as `filter`: it waits until its
  -- last child has answered and then returns the number of the answers that are true, or the pair
  -- of the list of the elements with a true answer and the list of the others, in their order, in
  -- whatever order the answers came.
  pub receive_sequence_predicate-all :
      (xs : List P) (c : FrameId) (cs : List FrameId) (h : H)
      → Holds scope task.values 0 xs
      → items_len task.values ≡ length xs
      → length children ≡ length xs
      → IsRest children [] (c ∷ cs)
      → run
          (receive_sequence_predicate scope)
          value
          (c ∷ cs)
          (record task {
            children = children;
            matches = replicate (length children) none;
            remaining = length children;
          })
          h
        ≡ (do
          root ← summary scope task.mode xs (map answer children)
          pure (
            record task {
              children = children;
              matches = map some (map answer children);
              remaining = 0;
            },
            replicate (length cs) wait ++ return root ∷ [],
          ))
            h
  unfolding predicate_at
  receive_sequence_predicate-all xs c cs h holds len same =
      run-returns answer value children (receive_sequence_predicate scope) predicate_at
        (finish_in scope task.mode task.values) predicate_fresh
        (summary scope task.mode xs (map answer children))
        (finish_in-summary scope task.values task.mode xs (map answer children) holds len
          (length-map answer children ∙ same))
        c cs h
