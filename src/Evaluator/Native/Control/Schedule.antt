-- ===== src/Evaluator/Native/Control/Schedule.antt =====
-- rex-engine/src/evaluator/native_functions.rs: the children that a task schedules, one frame for each,
-- under identifiers of their own.
use rex.Prelude.{
  ℕ, zero, suc, ◌+◌, ◌<◌, ◌≤◌, false, List, [], ◌∷◌, ◌++◌, Option, none, some, ◌≡◌, refl, sym, ap,
  map, ◌∙◌, arith, if◌then◌else◌, ◌==◌, inl, inr, append_assoc, append-nil,
}
use rex.Evaluator.FrameStore.{FrameId, FrameStore, get, usize_max}
use rex.Evaluator.FrameStore.Laws.{IsValid, key_below}
use rex.Evaluator.FrameStore.Fresh.{view, insert_lem, replace_lem}
use rex.Evaluator.Environment.{Environment}
use rex.Evaluator.Frame.{FrNativeCall, native_call, parent}
use rex.Evaluator.Frame.Effect.{ok, pure, ◌>>=◌}
use rex.Evaluator.Native.Scope.{RootScope, EngineError}
use rex.Evaluator.Native.Apply.{TypedExpr, TypedExprKind, typed, NativeChildSpec}
use rex.Evaluator.Native.Task.{NativeTask}
use rex.Evaluator.Native.Coroutine.{push_scheduled_child, scheduled_children, scheduled_child_spec}
use rex.Evaluator.Native.Control.{
  NativeFrame, get_frame, insert_frame, replace_frame, native_call_of, frame_for_expr,
  schedule_child, schedule_children, in_heap,
}

module _ {H P A : Type 0} where
  pub get_frame-view :
      (id : FrameId) (frame : NativeFrame P A) (s : FrameStore (NativeFrame P A)) (h : H)
      → view s id ≡ some frame
      → get_frame id (h, s) ≡ ok frame (h, s)
  unfolding get_frame get
  get_frame-view id frame s h held = rw held refl

  insert_frame_lem :
      (frame : NativeFrame P A) (s : FrameStore (NativeFrame P A)) (h : H)
      → IsValid s
      → s.next_id < usize_max
      → (s' : FrameStore (NativeFrame P A)) × (insert_frame frame (h, s) ≡ ok s.next_id (h, s'))
        × IsValid s'
        × (s'.next_id ≡ s.next_id + 1)
        × (view s s.next_id ≡ none)
        × ((j : FrameId) → view s' j ≡ (if s.next_id == j then some frame else view s j))
  unfolding insert_frame
  insert_frame_lem frame s h valid room = elim (insert_lem {E = EngineError} frame s valid) [
    | inl (full, _) ↦ absurd (omega (arith, room, full))
    | inr (s', inserted, _, valid', fresh, counter, views) ↦
        (s', rw inserted refl, valid', counter, fresh, views)
  ]

  pub replace_frame_lem :
      (id : FrameId) (old frame : NativeFrame P A) (s : FrameStore (NativeFrame P A)) (h : H)
      → IsValid s
      → view s id ≡ some old
      → (s' : FrameStore (NativeFrame P A)) × (replace_frame id frame (h, s) ≡ ok tt (h, s'))
        × IsValid s'
        × (s'.next_id ≡ s.next_id)
        × ((j : FrameId) → view s' j ≡ (if id == j then some frame else view s j))
  unfolding replace_frame
  replace_frame_lem id old frame s h valid held =
      elim (replace_lem {E = EngineError} id frame s valid) [
        | inl (gone, _) ↦ cc (sym gone ∙ held)
        | inr (s', replaced, _, valid', counter, views) ↦
            (s', rw replaced refl, valid', counter, views)
      ]

parent-frame_for_expr :
    {P : Type 0} (A : Type 0) (id : Option FrameId) (expr : TypedExpr) (env : Environment P)
    → parent (frame_for_expr {A = A} id expr env) ≡ id
unfolding parent frame_for_expr
parent-frame_for_expr A id (typed t (TypedExprKind.var name overloads)) env = refl
parent-frame_for_expr A id (typed t (TypedExprKind.app f x)) env = refl

heads : {B : Type 0} {a b : B} → a ∷ [] ≡ b ∷ [] → a ≡ b
heads e = cc e

-- A task that has the children `cs` so far, and will have `n`.
pub record Schedules {H P : Type 0} (scope : RootScope H P) (fuel : ℕ)
    (at : List FrameId → NativeTask P) (n : ℕ) : Type 0 where
  pub pushes :
      (child : FrameId) (cs : List FrameId) (h : H)
      → push_scheduled_child child (at cs) h ≡ ok (at (cs ++ child ∷ [])) h
  pub lists : (cs : List FrameId) (h : H) → scheduled_children (at cs) h ≡ ok cs h
  -- The child of each index.
  pub spec : ℕ → NativeChildSpec P
  pub specs :
      (i : ℕ) (cs : List FrameId) (h : H)
      → i < n
      → scheduled_child_spec scope fuel i (at cs) h ≡ ok (spec i) h

-- The identifiers from `id` on.
unfoldable pub upto : FrameId → ℕ → List FrameId
upto id zero = []
upto id (suc n) = id ∷ upto (suc id) n

module _ {H P A : Type 0} (scope : RootScope H P) (fuel : ℕ) (at : List FrameId → NativeTask P)
    (n : ℕ) (schedules : Schedules scope fuel at n) (frame_id : FrameId)
    (base : FrNativeCall (NativeTask P)) where
  -- The frame of the task with the children `cs`.
  abbrev pub call : List FrameId → NativeFrame P A
  call cs = native_call (record base { task = at cs })

  -- The frame of the child of the index `i`.
  unfoldable pub child_frame : ℕ → NativeFrame P A
  unfolding frame_for_expr
  child_frame i = frame_for_expr (some frame_id) (schedules.spec i).expr (schedules.spec i).env

  -- The store after the children from the index `start` on have been made, `count` of them: the task
  -- has its children `cs`, the next identifiers hold the frames of the children in the order of the
  -- indexes, each below the task's, and any other frame is as before.
  pub record After (cs : List FrameId) (s s' : FrameStore (NativeFrame P A)) (start count : ℕ)
      : Type 0 where
    pub valid : IsValid s'
    pub counter : s'.next_id ≡ s.next_id + count
    pub task : view s' frame_id ≡ some (call cs)
    pub same : (j : FrameId) → j < s.next_id → (frame_id == j) ≡ false → view s' j ≡ view s j
    pub made :
        map (view s') (upto s.next_id count) ≡ map (λ i. some (child_frame i)) (upto start count)
    pub parents : (i : ℕ) → parent (child_frame i) ≡ some frame_id

  schedule_child_lem :
      (i : ℕ) (cs : List FrameId) (s : FrameStore (NativeFrame P A)) (h : H)
      → i < n
      → IsValid s
      → view s frame_id ≡ some (call cs)
      → s.next_id < usize_max
      → (s' : FrameStore (NativeFrame P A)) × (schedule_child scope fuel frame_id i (h, s)
          ≡ ok tt (h, s'))
        × After (cs ++ s.next_id ∷ []) s s' i 1
  unfolding schedule_child child_frame upto pure ◌>>=◌ in_heap native_call_of
  schedule_child_lem i cs s h below valid held room =
      let specified = schedules.specs i cs h below in
      let child = frame_for_expr (some frame_id) (schedules.spec i).expr (schedules.spec i).env in
      let (s1, inserted, valid1, counter1, fresh, view1) = insert_frame_lem child s h valid room in
      let before = key_below frame_id (call cs) s valid held in
      let other : (s.next_id == frame_id) ≡ false = ground (arith, before) in
      let held1 : view s1 frame_id ≡ some (call cs) = view1 frame_id ∙ rw other held in
      let (s2, replaced, valid2, counter2, view2) =
        replace_frame_lem frame_id (call cs) (call (cs ++ s.next_id ∷ [])) s1 h valid1 held1 in
      (
        s2,
        rw
            (
              get_frame-view frame_id (call cs) s h held,
              specified,
              inserted,
              get_frame-view frame_id (call cs) s1 h held1,
              schedules.pushes s.next_id cs h,
              replaced,
            )
            refl,
        record {
          valid = valid2;
          counter = omega (arith, counter2, counter1);
          task = view2 frame_id ∙ ground arith;
          same = λ j lt ne. view2 j ∙ rw ne (view1 j ∙ ground (arith, lt));
          made =
              let apart : (frame_id == s.next_id) ≡ false = ground (arith, before) in
              ap (λ o. o ∷ []) (view2 s.next_id ∙ rw apart (view1 s.next_id ∙ ground arith));
          parents = λ k.
              parent-frame_for_expr A (some frame_id) (schedules.spec k).expr
                (schedules.spec k).env;
        },
      )

  pub schedule_children_lem :
      (count i : ℕ) (cs : List FrameId) (s : FrameStore (NativeFrame P A)) (h : H)
      → i + count ≡ n
      → IsValid s
      → view s frame_id ≡ some (call cs)
      → s.next_id + count ≤ usize_max
      → (s' : FrameStore (NativeFrame P A)) × (schedule_children scope fuel frame_id count i (h, s)
          ≡ ok tt (h, s'))
        × After (cs ++ upto s.next_id count) s s' i count
  unfolding schedule_children child_frame upto pure ◌>>=◌
  schedule_children_lem zero i cs s h at_end valid held room = (
    s,
    refl,
    record {
      valid = valid;
      counter = omega arith;
      task = held ∙ ap (λ l. some (call l)) (sym (append-nil cs));
      same = λ j lt ne. refl;
      made = refl;
      parents = λ k.
          parent-frame_for_expr A (some frame_id) (schedules.spec k).expr (schedules.spec k).env;
    },
  )
  schedule_children_lem (suc count) i cs s h at_end valid held room =
      let (s1, done1, after1) =
        schedule_child_lem i cs s h (omega (arith, at_end)) valid held (omega (arith, room)) in
      let (s2, done2, after2) =
        schedule_children_lem count (suc i) (cs ++ s.next_id ∷ []) s1 h (omega (arith, at_end))
          after1.valid after1.task (omega (arith, room, after1.counter)) in
      let next : s1.next_id ≡ suc s.next_id = omega (arith, after1.counter) in
      let before = key_below frame_id (call cs) s valid held in
      let names : ((cs ++ s.next_id ∷ []) ++ upto s1.next_id count)
          ≡ (cs ++ s.next_id ∷ upto (suc s.next_id) count) =
        append_assoc cs (s.next_id ∷ []) (upto s1.next_id count)
        ∙ ap (λ k. cs ++ s.next_id ∷ upto k count) next in
      (
        s2,
        rw (done1, done2) refl,
        record {
          valid = after2.valid;
          counter = omega (arith, after2.counter, next);
          task = after2.task ∙ ap (λ l. some (call l)) names;
          same = λ j lt ne. after2.same j (omega (arith, lt, next)) ne ∙ after1.same j lt ne;
          made =
              let apart : (frame_id == s.next_id) ≡ false = ground (arith, before) in
              let first = after2.same s.next_id (omega (arith, next)) apart ∙ heads after1.made in
              let rest = ap (λ k. map (view s2) (upto k count)) (sym next) ∙ after2.made in
              ap (λ o. o ∷ map (view s2) (upto (suc s.next_id) count)) first
              ∙ ap (λ os. some (child_frame i) ∷ os) rest;
          parents = after2.parents;
        },
      )
