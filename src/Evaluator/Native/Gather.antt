-- ===== src/Evaluator/Native/Gather.antt =====
-- rex-engine/src/evaluator/native_functions.rs: what the `receive` of a task with children has in common
-- with the others. The answer of a child goes into the slot of the child's position, and a counter says
-- how many are still missing.
pub mod Slots
pub mod Answers
pub mod Order
use rex.Prelude.{
  ℕ, zero, suc, ◌+◌, List, [], ◌∷◌, Option, none, some, String, if◌then◌else◌, ◌==◌, get_elem?, set,
}
use rex.Evaluator.FrameStore.{FrameId}
use rex.Evaluator.Frame.Effect.{Effect, pure, ◌>>=◌}
use rex.Evaluator.Native.Apply.{NativeStep, wait}
use rex.Evaluator.Native.Scope.{Action, fail, ok_or, internal}

-- The texts of a task's internal errors.
pub record Texts : Type 0 where
  pub unknown_child : String
  pub out_of_bounds : String
  pub duplicate : String
  pub too_many : String
  pub missing : String

unfoldable pub next_position : Option ℕ → Option ℕ
next_position none = none
next_position (some i) = some (suc i)

-- `iter().position(|candidate| *candidate == child)`
unfoldable pub position : FrameId → List FrameId → Option ℕ
unfolding next_position
position child [] = none
position child (c ∷ cs) = if c == child then some 0 else next_position (position child cs)

-- `collect::<Option<Vec<_>>>`
unfoldable pub all_some : {V : Type 0} → List (Option V) → Option (List V)
all_some [] = some []
all_some (none ∷ slots) = none
all_some (some v ∷ slots) = elim (all_some slots) [ none ↦ none | some vs ↦ some (v ∷ vs) ]

-- `checked_sub(1)`
unfoldable pub one_less : {H : Type 0} → Texts → ℕ → Action H ℕ
unfolding pure fail
one_less texts zero = fail (internal texts.too_many)
one_less texts (suc n) = pure n

module _ {H V : Type 0} (texts : Texts) where
  -- The position of the child, with its slot.
  unfoldable pub slot_of : FrameId → List FrameId → List (Option V) → Action H (ℕ × Option V)
  unfolding ok_or position
  slot_of child children slots = do
    index ← ok_or texts.unknown_child (position child children)
    slot ← ok_or texts.out_of_bounds (get_elem? slots index)
    pure (index, slot)

  unfoldable pub check_empty : Option V → Action H Unit
  unfolding pure fail
  check_empty none = pure tt
  check_empty (some _) = fail (internal texts.duplicate)

  unfoldable pub all_answers : List (Option V) → Action H (List V)
  unfolding ok_or all_some
  all_answers slots = ok_or texts.missing (all_some slots)

  -- The answer is read by `read`, after the slot is found empty.
  unfoldable pub store_answer :
      FrameId → Action H V → List FrameId → List (Option V) → ℕ → Action H (List (Option V) × ℕ)
  unfolding slot_of check_empty one_less
  store_answer child read children slots remaining = do
    (index, slot) ← slot_of child children slots
    free ← check_empty slot
    answer ← read
    remaining' ← one_less texts remaining
    pure (set slots index (some answer), remaining')

  -- The answer is read first, and `Option::replace` says what the slot held.
  unfoldable pub replace_answer :
      FrameId → Action H V → List FrameId → List (Option V) → ℕ → Action H (List (Option V) × ℕ)
  unfolding slot_of check_empty one_less
  replace_answer child read children slots remaining = do
    (index, slot) ← slot_of child children slots
    answer ← read
    free ← check_empty slot
    remaining' ← one_less texts remaining
    pure (set slots index (some answer), remaining')

-- The end of a `receive`: `done` once nothing is missing.
unfoldable pub wait_or :
    {H P T : Type 0} → T → ℕ → Action H (NativeStep P) → Action H (T × NativeStep P)
unfolding pure
wait_or task remaining done =
    if remaining == 0 then (do step ← done; pure (task, step)) else pure (task, wait)
