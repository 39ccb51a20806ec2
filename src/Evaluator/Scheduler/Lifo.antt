-- ===== src/Evaluator/Scheduler/Lifo.antt =====
-- To its clients the scheduler is a stack: whatever is scheduled is next, and the limit is not seen.
use rex.Prelude.{
  ℕ, List, [], ◌∷◌, ◌++◌, Option, none, some, false, not, ◌||◌, ◌≡◌, refl, ◌∙◌, ap, ap₂, ◌↔◌, arith,
  max, length, ◌⊎◌, inl, inr,
}
use rex.Evaluator.FrameStore.{FrameId}
use rex.Evaluator.Scheduler.{
  EvalWorkItem, EvalScheduler, enter, new, set_ready_work_limit, schedule_next, pop_next, pop_ready,
  has_ready_work, is_empty, admit_deferred_ready,
}
use rex.Evaluator.Scheduler.Bounds.{
  contents, IsValid, enforce_ready_limit_lem, admit_deferred_ready_lem,
}

-- A call of the scheduler.
pub data Op (P : Type 0) : Type 0 where
  schedule : EvalWorkItem P → Op P
  pop : Op P
  set_limit : ℕ → Op P

module _ {P : Type 0} where
  unfoldable pub run : List (Op P) → EvalScheduler P → List (Option (EvalWorkItem P))
  run [] s = []
  run (schedule item ∷ ops) s = run ops (schedule_next item s)
  run (pop ∷ ops) s = (pop_next s).1 ∷ run ops (pop_next s).0
  run (set_limit limit ∷ ops) s = run ops (set_ready_work_limit limit s)

  abbrev pub top : List (EvalWorkItem P) → Option (EvalWorkItem P)
  top [] = none
  top (x ∷ xs) = some x

  abbrev pub rest : List (EvalWorkItem P) → List (EvalWorkItem P)
  rest [] = []
  rest (x ∷ xs) = xs

  -- The same calls on a stack.
  unfoldable pub run_stack : List (Op P) → List (EvalWorkItem P) → List (Option (EvalWorkItem P))
  run_stack [] stack = []
  run_stack (schedule item ∷ ops) stack = run_stack ops (item ∷ stack)
  run_stack (pop ∷ ops) stack = top stack ∷ run_stack ops (rest stack)
  run_stack (set_limit limit ∷ ops) stack = run_stack ops stack

  -- Scheduling puts an item on top, and keeps the active queue within the limit.
  pub schedule_next_lem :
      (item : EvalWorkItem P) (s : EvalScheduler P)
      → IsValid s
      → (contents (schedule_next item s) ≡ item ∷ contents s) × IsValid (schedule_next item s)
  unfolding schedule_next
  schedule_next_lem item s v =
      enforce_ready_limit_lem (record s { ready = item ∷ s.ready }) v.positive

  -- A new limit, at least one, changes no item's place.
  pub set_ready_work_limit_lem :
      (limit : ℕ) (s : EvalScheduler P)
      → (contents (set_ready_work_limit limit s) ≡ contents s)
        × IsValid (set_ready_work_limit limit s)
  unfolding set_ready_work_limit
  set_ready_work_limit_lem limit s =
      enforce_ready_limit_lem (record s { ready_work_limit = max limit 1 }) (omega arith)

  -- The state of a scheduler whose active queue is `ready`.
  abbrev pub state : List (EvalWorkItem P) → List (EvalWorkItem P) → ℕ → EvalScheduler P
  state ready deferred limit = record {
    ready = ready;
    deferred_ready = deferred;
    ready_work_limit = limit;
  }

  -- With the active queue full or nothing deferred, the front of the active queue is the next item.
  pop_ready_lem :
      (ready deferred : List (EvalWorkItem P)) (limit : ℕ)
      → IsValid (state ready deferred limit)
      → (deferred ≡ []) ⊎ (length ready ≡ limit)
      → ((pop_ready (state ready deferred limit) ready).1 ≡ top (ready ++ deferred))
        × (contents (pop_ready (state ready deferred limit) ready).0 ≡ rest (ready ++ deferred))
        × IsValid (pop_ready (state ready deferred limit) ready).0
  unfolding pop_ready
  pop_ready_lem [] [] limit v full = (refl, refl, v)
  pop_ready_lem [] (x ∷ deferred) limit v (inl e) = cc
  pop_ready_lem [] (x ∷ deferred) limit v (inr e) = absurd (omega (arith, v.positive))
  pop_ready_lem (x ∷ ready) deferred limit v full =
      (refl, refl, record { positive = v.positive; within = omega (arith, v.within) })

  -- Popping takes the top item, also when it has to come from the overflow, and afterwards the
  -- active queue is full or nothing is deferred.
  pub pop_next_lem :
      (s : EvalScheduler P)
      → IsValid s
      → ((pop_next s).1 ≡ top (contents s))
        × (contents (pop_next s).0 ≡ rest (contents s))
        × IsValid (pop_next s).0
        × (((pop_next s).0.deferred_ready ≡ [])
            ⊎ (length (pop_next s).0.ready ≡ (pop_next s).0.ready_work_limit))
  unfolding pop_next
  pop_next_lem s v =
      let (same, valid, full) = admit_deferred_ready_lem s v in
      let s1 = admit_deferred_ready s in
      let (item, left, valid') =
        pop_ready_lem s1.ready s1.deferred_ready s1.ready_work_limit valid full in
      let (same', valid'', full') = admit_deferred_ready_lem (pop_ready s1 s1.ready).0 valid' in
      (item ∙ ap top same, same' ∙ left ∙ ap rest same, valid'', full')

  pub has_ready_work_lem : (s : EvalScheduler P) → (has_ready_work s ≡ false) ↔ (contents s ≡ [])
  unfolding has_ready_work
  has_ready_work_lem s = pieces s.ready s.deferred_ready
    where
      pieces :
          (ready deferred : List (EvalWorkItem P))
          → ((not (is_empty ready) || not (is_empty deferred)) ≡ false) ↔ (ready ++ deferred ≡ [])
      pieces [] [] = ((λ _. refl), λ _. refl)
      pieces [] (x ∷ deferred) = ((λ h. cc), λ h. cc)
      pieces (x ∷ ready) deferred = ((λ h. cc), λ h. cc)

  run-eq-run_stack :
      (ops : List (Op P)) (s : EvalScheduler P) → IsValid s → run ops s ≡ run_stack ops (contents s)
  unfolding run run_stack
  run-eq-run_stack [] s v = refl
  run-eq-run_stack (schedule item ∷ ops) s v =
      let (same, v') = schedule_next_lem item s v in
      run-eq-run_stack ops (schedule_next item s) v' ∙ ap (run_stack ops) same
  run-eq-run_stack (pop ∷ ops) s v =
      let (item, same, v', _) = pop_next_lem s v in
      ap₂ (λ x xs. x ∷ xs) item (run-eq-run_stack ops (pop_next s).0 v' ∙ ap (run_stack ops) same)
  run-eq-run_stack (set_limit limit ∷ ops) s v =
      let (same, v') = set_ready_work_limit_lem limit s in
      run-eq-run_stack ops (set_ready_work_limit limit s) v' ∙ ap (run_stack ops) same

-- Any sequence of calls, from a new scheduler with any limit, is answered as by a stack that holds
-- the root frame: the limit and the overflow queue cannot be seen.
pub run-new :
    {P : Type 0} (root : FrameId) (limit : ℕ) (ops : List (Op P))
    → run ops (new root limit) ≡ run_stack ops (enter root ∷ [])
run-new root limit ops =
    run-eq-run_stack ops (new root limit)
      (unfold new in record { positive = omega arith; within = omega arith })
    ∙ ap (run_stack ops) (unfold new in refl)
