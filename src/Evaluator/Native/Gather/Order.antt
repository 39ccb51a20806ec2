-- ===== src/Evaluator/Native/Gather/Order.antt =====
-- rex-engine/src/evaluator/native_functions.rs: a task with children gets the answers of all of them, in
-- any order.
use rex.Prelude.{
  ℕ, suc, true, false, ◌||◌, List, [], ◌∷◌, ◌++◌, Option, none, some, length, replicate, map, ◌≡◌,
  refl, sym, ap, ap₂, ◌∙◌, arith,
}
use rex.Evaluator.FrameStore.{FrameId}
use rex.Evaluator.Frame.Effect.{ok, pure, ◌>>=◌}
use rex.Evaluator.Native.Scope.{Action}
use rex.Evaluator.Native.Apply.{NativeStep, wait, return}
use rex.Evaluator.Native.Gather.{wait_or}
use rex.Evaluator.Native.Gather.Slots.{
  elem, Distinct, missing, slots_of, slots_of-nil, missing-slots_of-nil, missing-suc, none_missing,
  all_some-slots_of,
}

-- The answers of the children in `order`, one `receive` after the other, with what each call returns.
unfoldable pub run :
    {H P T : Type 0}
    → (FrameId → P → T → Action H (T × NativeStep P))
    → (FrameId → P)
    → List FrameId
    → T
    → Action H (T × List (NativeStep P))
unfolding pure ◌>>=◌
run receive value [] task = pure (task, [])
run receive value (c ∷ cs) task = do
  (task', step) ← receive c (value c) task
  (task'', steps) ← run receive value cs task'
  pure (task'', step ∷ steps)

-- `order` names each of the children that are not in `seen`, once.
pub record IsRest (children seen order : List FrameId) : Type 0 where
  pub distinct : Distinct order
  pub ours : (d : FrameId) → elem d order ≡ true → elem d children ≡ true
  pub new : (d : FrameId) → elem d order ≡ true → elem d seen ≡ false
  pub covers : (d : FrameId) → elem d children ≡ true → (elem d seen || elem d order) ≡ true

IsRest-tail :
    (children : List FrameId) (c : FrameId) (seen cs : List FrameId)
    → IsRest children seen (c ∷ cs)
    → IsRest children (c ∷ seen) cs
unfolding elem
IsRest-tail children c seen cs r = record {
  distinct = r.distinct.1;
  ours = λ d m. r.ours d (ground arith);
  new = λ d m. ground (arith, r.new d);
  covers = λ d m. ground (arith, r.covers d);
}

module _ {H P T : Type 0} (task : T) (remaining : ℕ) (done : Action H (NativeStep P)) where
  wait_or-waits : (n : ℕ) → remaining ≡ suc n → wait_or task remaining done ≡ pure (task, wait)
  unfolding wait_or
  wait_or-waits n e = ground arith

  wait_or-done : remaining ≡ 0 → wait_or task remaining done ≡ (do step ← done; pure (task, step))
  unfolding wait_or
  wait_or-done e = rw e

module _ {H P V T : Type 0} (answer : FrameId → V) (value : FrameId → P) (children : List FrameId)
    (receive : FrameId → P → T → Action H (T × NativeStep P)) (at : List (Option V) → ℕ → T)
    (finish : List (Option V) → Action H (NativeStep P)) where
  -- The task when the children in `seen` have answered.
  unfoldable pub state : List FrameId → T
  state seen = at (slots_of answer seen children) (missing (slots_of answer seen children))

  -- What `receive` does with the first answer of a child.
  abbrev pub Fresh : Type 0
  Fresh =
      (child : FrameId) (seen : List FrameId)
      → elem child children ≡ true
      → elem child seen ≡ false
      → (h : H)
      → receive child (value child) (state seen) h
        ≡ wait_or (state (child ∷ seen)) (missing (slots_of answer (child ∷ seen) children))
            (finish (slots_of answer (child ∷ seen) children)) h

  module _ (fresh : Fresh) where
    -- An answer after which one is missing makes the task wait.
    receive-waits :
        (c d : FrameId) (ds seen : List FrameId) (h : H)
        → IsRest children seen (c ∷ d ∷ ds)
        → receive c (value c) (state seen) h ≡ ok (state (c ∷ seen), wait) h
    unfolding elem pure
    receive-waits c d ds seen h r =
        let tail = IsRest-tail children c seen (d ∷ ds) r in
        let (n, left) =
          missing-suc answer d (c ∷ seen) children (tail.ours d (ground arith))
            (tail.new d (ground arith)) in
        fresh c seen (r.ours c (ground arith)) (r.new c (ground arith)) h
        ∙ ap (λ m. m h) (wait_or-waits (state (c ∷ seen)) _ _ n left)

    -- The last answer finishes it.
    receive-finishes :
        (c : FrameId) (seen : List FrameId) (h : H)
        → IsRest children seen (c ∷ [])
        → receive c (value c) (state seen) h
          ≡ (do
            step ← finish (map some (map answer children))
            pure (at (map some (map answer children)) 0, step))
              h
    unfolding elem state
    receive-finishes c seen h r =
        let none_left =
          none_missing answer (c ∷ seen) children (λ d m. ground (arith, r.covers d m)) in
        let full = all_some-slots_of answer (c ∷ seen) children none_left in
        fresh c seen (r.ours c (ground arith)) (r.new c (ground arith)) h
        ∙ ap (λ m. m h) (wait_or-done (state (c ∷ seen)) _ _ none_left)
        ∙ rw (none_left, full) refl

    pub run-state :
        (c : FrameId) (cs seen : List FrameId) (h : H)
        → IsRest children seen (c ∷ cs)
        → run receive value (c ∷ cs) (state seen) h
          ≡ (do
            step ← finish (map some (map answer children))
            pure (at (map some (map answer children)) 0, replicate (length cs) wait ++ step ∷ []))
              h
    unfolding run pure ◌>>=◌
    run-state c [] seen h r = rw (receive-finishes c seen h r) (ground arith)
    run-state c (d ∷ ds) seen h r =
        rw
          (
            receive-waits c d ds seen h r,
            run-state d ds (c ∷ seen) h (IsRest-tail children c seen (d ∷ ds) r),
          )
          (ground arith)

    state-nil : state [] ≡ at (replicate (length children) none) (length children)
    unfolding state
    state-nil = ap₂ at (slots_of-nil answer children) (missing-slots_of-nil answer children)

    -- From the first answer to the last.
    pub run-all :
        (c : FrameId) (cs : List FrameId) (h : H)
        → IsRest children [] (c ∷ cs)
        → run receive value (c ∷ cs) (at (replicate (length children) none) (length children)) h
          ≡ (do
            step ← finish (map some (map answer children))
            pure (at (map some (map answer children)) 0, replicate (length cs) wait ++ step ∷ []))
              h
    run-all c cs h r =
        ap (λ t. run receive value (c ∷ cs) t h) (sym state-nil) ∙ run-state c cs [] h r

    -- Where the end is one allocation.
    pub run-returns :
        (alloc : Action H P)
        → finish (map some (map answer children)) ≡ (do root ← alloc; pure (return root))
        → (c : FrameId) (cs : List FrameId) (h : H) → IsRest children [] (c ∷ cs)
        → run receive value (c ∷ cs) (at (replicate (length children) none) (length children)) h
          ≡ (do
            root ← alloc
            pure (
              at (map some (map answer children)) 0,
              replicate (length cs) wait ++ return root ∷ [],
            ))
              h
    unfolding pure ◌>>=◌
    run-returns alloc finished c cs h r = run-all c cs h r ∙ rw finished (ground arith)
