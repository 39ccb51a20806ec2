-- ===== src/Evaluator/Scheduler.antt =====
-- rex-engine/src/evaluator/scheduler.rs, `EvalScheduler`: frames that are ready to be evaluated, in
-- an active queue of bounded length and an overflow behind it. A `VecDeque` is a list, front first.
pub mod Bounds
pub mod Lifo
use rex.Evaluator.FrameStore.{FrameId}
use rex.Prelude.{
  ℕ, zero, suc, List, [], ◌∷◌, ◌++◌, Option, none, some, Bool, true, false, not, ◌||◌,
  if◌then◌else◌, ltb, length, max,
}

pub record EvalReturned (P : Type 0) : Type 0 where
  pub child : FrameId
  pub value : P

pub record EvalWorkItem (P : Type 0) : Type 0 where
  pub frame : FrameId
  pub returned : Option (EvalReturned P)

pub record EvalScheduler (P : Type 0) : Type 0 where
  pub ready : List (EvalWorkItem P)
  pub deferred_ready : List (EvalWorkItem P)
  pub ready_work_limit : ℕ

module _ {A : Type 0} where
  unfoldable pub is_empty : List A → Bool
  is_empty [] = true
  is_empty (_ ∷ _) = false

  keep : A → Option (List A × A) → Option (List A × A)
  keep x none = some ([], x)
  keep x (some (xs, last)) = some (x ∷ xs, last)

  -- `VecDeque::pop_back`
  unfoldable pub pop_back : List A → Option (List A × A)
  unfolding keep
  pop_back [] = none
  pop_back (x ∷ xs) = keep x (pop_back xs)

  -- The `while` loop of `enforce_ready_limit`, one unit of fuel a round.
  unfoldable pub enforce_loop : ℕ → ℕ → List A → List A → List A × List A
  enforce_loop zero limit ready deferred = (ready, deferred)
  enforce_loop (suc f) limit ready deferred = elim (ltb limit (length ready)) [
    | true ↦ elim (pop_back ready) [
      | some (ready', item) ↦ enforce_loop f limit ready' (item ∷ deferred)
      | none ↦ enforce_loop f limit ready deferred
    ]
    | false ↦ (ready, deferred)
  ]

  -- The `while` loop of `admit_deferred_ready`.
  unfoldable pub admit_loop : ℕ → List A → List A → List A × List A
  admit_loop limit ready [] = (ready, [])
  admit_loop limit ready (item ∷ deferred) =
      let rest = admit_loop limit (ready ++ item ∷ []) deferred in
      if ltb (length ready) limit then rest else (ready, item ∷ deferred)

module _ {P : Type 0} where
  unfoldable pub enter : FrameId → EvalWorkItem P
  enter frame = record { frame = frame; returned = none }

  unfoldable pub receive : FrameId → FrameId → P → EvalWorkItem P
  receive frame child value = record {
    frame = frame;
    returned = some (record { child = child; value = value });
  }

  unfoldable pub new : FrameId → ℕ → EvalScheduler P
  unfolding enter
  new root limit = record {
    ready = enter root ∷ [];
    deferred_ready = [];
    ready_work_limit = max limit 1;
  }

  unfoldable pub enforce_ready_limit : EvalScheduler P → EvalScheduler P
  unfolding enforce_loop
  enforce_ready_limit s =
      let (ready, deferred) =
        enforce_loop (length s.ready) s.ready_work_limit s.ready s.deferred_ready in
      record s { ready = ready; deferred_ready = deferred }

  unfoldable pub admit_deferred_ready : EvalScheduler P → EvalScheduler P
  unfolding admit_loop
  admit_deferred_ready s =
      let (ready, deferred) = admit_loop s.ready_work_limit s.ready s.deferred_ready in
      record s { ready = ready; deferred_ready = deferred }

  unfoldable pub set_ready_work_limit : ℕ → EvalScheduler P → EvalScheduler P
  unfolding enforce_ready_limit
  set_ready_work_limit limit s = enforce_ready_limit (record s { ready_work_limit = max limit 1 })

  unfoldable pub schedule_next : EvalWorkItem P → EvalScheduler P → EvalScheduler P
  unfolding enforce_ready_limit
  schedule_next item s = enforce_ready_limit (record s { ready = item ∷ s.ready })

  pop_ready : EvalScheduler P → List (EvalWorkItem P) → EvalScheduler P × Option (EvalWorkItem P)
  pop_ready s [] = (s, none)
  pop_ready s (item ∷ ready) = (record s { ready = ready }, some item)

  unfoldable pub pop_next : EvalScheduler P → EvalScheduler P × Option (EvalWorkItem P)
  unfolding admit_deferred_ready pop_ready
  pop_next s =
      let s1 = admit_deferred_ready s in
      let (s2, item) = pop_ready s1 s1.ready in (admit_deferred_ready s2, item)

  unfoldable pub has_ready_work : EvalScheduler P → Bool
  unfolding is_empty
  has_ready_work s = not (is_empty s.ready) || not (is_empty s.deferred_ready)

  -- `visit_values`: the values that the visitor is shown, in order.
  item_values : List (EvalWorkItem P) → List P
  item_values [] = []
  item_values (item ∷ items) = elim item.returned [
    | some r ↦ r.value ∷ item_values items
    | none ↦ item_values items
  ]

  unfoldable pub visit_values : EvalScheduler P → List P
  unfolding item_values
  visit_values s = item_values (s.ready ++ s.deferred_ready)
