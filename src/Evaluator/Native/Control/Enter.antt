-- ===== src/Evaluator/Native/Control/Enter.antt =====
-- rex-engine/src/evaluator/native_functions.rs: the first step of a task that schedules children, as a
-- change of the frame store.
use rex.Prelude.{ℕ, zero, suc, ◌+◌, ◌<◌, List, [], ◌∷◌, some, length, ◌≡◌, refl, ap, ◌∙◌, arith}
use rex.Types.Syntax.{Ty}
use rex.Evaluator.FrameStore.{FrameId, FrameStore}
use rex.Evaluator.Frame.Effect.{ok, pure, ◌>>=◌}
use rex.Evaluator.Native.Scope.{RootScope}
use rex.Evaluator.Native.Items.{ListItems, get}
use rex.Evaluator.Native.Items.Holds.{Holds}
use rex.Evaluator.Native.Apply.Drive.{CanApply, called, native_apply_spec_lem}
use rex.Evaluator.Native.Sequence.{element_spec}
use rex.Evaluator.Native.Task.{NativeSequenceMap, sequence_map}
use rex.Evaluator.Native.Coroutine.{push_scheduled_child, scheduled_children, scheduled_child_spec}
use rex.Evaluator.Native.Control.{NativeFrame, frame_for_expr}
use rex.Evaluator.Native.Control.Schedule.{Schedules}

-- The element of the number `i`.
nth : {P : Type 0} → P → List P → ℕ → P
nth default [] i = default
nth default (x ∷ xs) zero = x
nth default (x ∷ xs) (suc i) = nth default xs i

-- The frame of the child of `map` for the element `x`: the function applied to `x`.
pub element_frame : {P A : Type 0} → FrameId → Ty → NativeSequenceMap P → P → NativeFrame P A
unfolding called frame_for_expr
element_frame frame_id r task x =
    let spec = called r task.func x task.func_type task.elem_type in
    frame_for_expr (some frame_id) spec.expr spec.env

module _ {H P : Type 0} (scope : RootScope H P) where
  Holds-get :
      (items : ListItems P) (default : P) (xs : List P) (i j : ℕ) (h : H)
      → Holds scope items i xs
      → j < length xs
      → get scope (i + j) items h ≡ ok (nth default xs j) h
  unfolding nth
  Holds-get items default [] i j h holds below = absurd (omega (arith, below))
  Holds-get items default (x ∷ xs) i zero h holds below =
      ap (λ k. get scope k items h) (omega arith) ∙ holds.0 h
  Holds-get items default (x ∷ xs) i (suc j) h holds below =
      ap (λ k. get scope k items h) (omega arith)
      ∙ Holds-get items default xs (suc i) j h holds.1 (omega (arith, below))

  pub sequence_map_schedules :
      (fuel : ℕ) (task : NativeSequenceMap P) (xs : List P)
      → CanApply H fuel task.func_type task.elem_type
      → Holds scope task.values 0 xs
      → Schedules scope fuel (λ cs. sequence_map (record task { children = cs })) (length xs)
  unfolding push_scheduled_child scheduled_children scheduled_child_spec element_spec pure ◌>>=◌
  sequence_map_schedules fuel task xs can holds = record {
    pushes = λ child cs h. refl;
    lists = λ cs h. refl;
    spec = λ i. called can.0 task.func (nth task.func xs i) task.func_type task.elem_type;
    specs = λ i cs h below.
        let x = nth task.func xs i in
        let here : get scope i task.values h ≡ ok x h =
          ap (λ k. get scope k task.values h) (omega arith)
          ∙ Holds-get task.values task.func xs 0 i h holds below in
        rw (here, native_apply_spec_lem fuel task.func x task.func_type task.elem_type h can) refl;
  }
