-- ===== src/Evaluator/Frame/Live/Collect.antt =====
-- rex-engine/src/evaluator/eval.rs: what `collect_machine_if_needed` gets from mapping one frame with
-- `LiveRootMapper`.
use mathlib.Core.List.{Memᴰ}
use mathlib.Core.List.Memᴰ.{head, tail, cases_cons}
use rex.Prelude.{List, [], ◌∷◌, ◌≡◌, refl, sym, ap, ◌∙◌, ◌⊎◌, inl, inr, ◌↔◌}
use rex.Evaluator.Frame.{
  Frame, literal, hole, sequence, record_update, var, app, project, lam, let_frame, let_rec,
  ite_frame, match, native_call, native_host,
}
use rex.Evaluator.Frame.Effect.{Effect, ok}
use rex.Evaluator.Frame.MapValues.{
  map_values, map_frame_value, map_sequence, map_record_update, map_app, map_let, map_let_rec,
  map_ite, map_match,
}
use rex.Evaluator.Frame.Roots.{Root, value, environment, task, roots}
use rex.Evaluator.Frame.Live.{
  held, all_held, mark, mark-++, live_root_mapper, mark_roots, Marks, Marks-none, Marks-pure,
  Marks->>=, Marks-map_option, Marks-map_vec, Marks-map_option_vec,
}

module _ {P : Type 0} {p : P} where
  mark-to : (ps live : List P) → Memᴰ p (mark ps live) → Memᴰ p ps ⊎ Memᴰ p live
  unfolding mark
  mark-to [] live m = inr m
  mark-to (q ∷ ps) live m = elim (mark-to ps (q ∷ live) m) [
    | inl m' ↦ inl (tail m')
    | inr m' ↦ elim (cases_cons m') [ inl e ↦ inl (head e) | inr m'' ↦ inr m'' ]
  ]

  mark-of : (ps live : List P) → Memᴰ p ps ⊎ Memᴰ p live → Memᴰ p (mark ps live)
  unfolding mark
  mark-of [] live (inl none_held) = elim none_held [ ]
  mark-of [] live (inr m) = m
  mark-of (q ∷ ps) live (inl (head e)) = mark-of ps (q ∷ live) (inr (head e))
  mark-of (q ∷ ps) live (inl (tail m)) = mark-of ps (q ∷ live) (inl m)
  mark-of (q ∷ ps) live (inr m) = mark-of ps (q ∷ live) (inr (tail m))

mark_roots_lem :
    {P E N : Type 0} (env_values : E → List P) (task_values : N → List P) (rs : List (Root P E N))
    (live : List P)
    → mark_roots env_values task_values rs live ≡ mark (all_held env_values task_values rs) live
unfolding mark_roots all_held mark
mark_roots_lem env_values task_values [] live = refl
mark_roots_lem env_values task_values (r ∷ rs) live =
    mark_roots_lem env_values task_values rs (mark (held env_values task_values r) live)
    ∙ sym (mark-++ (held env_values task_values r) (all_held env_values task_values rs) live)

module _ {Err P E N : Type 0} (env_values : E → List P) (task_values : N → List P)
    (map_native : (P → Effect (List P) Err P) → N → Effect (List P) Err N)
    (native : (n : N)
      → Marks env_values task_values
          (map_native (live_root_mapper env_values).map_value n)
          n
          (task n ∷ [])) where
  live_environment :
      (e : E)
      → Marks env_values task_values
          ((live_root_mapper {Err = Err} env_values).map_environment e)
          e
          (environment e ∷ [])
  unfolding live_root_mapper mark_roots held
  live_environment e = record { runs = λ live. refl }

  live_value :
      (p : P)
      → Marks env_values task_values
          ((live_root_mapper {Err = Err} env_values).map_value p)
          p
          (value p ∷ [])
  unfolding live_root_mapper mark_roots held mark
  live_value p = record { runs = λ live. refl }

  map_values-Marks :
      {X A : Type 0} (frame : Frame P E X A N)
      → Marks env_values task_values
          (map_values (live_root_mapper env_values) map_native frame)
          frame
          (roots frame)
  unfolding map_values map_frame_value map_sequence map_record_update map_app map_let map_let_rec
      map_ite map_match roots
  map_values-Marks (literal frame) = Marks-none env_values task_values (literal frame)
  map_values-Marks (native_host frame) = Marks-none env_values task_values (native_host frame)
  map_values-Marks (native_call frame) = Marks-pure env_values task_values _ (native frame.task)
  map_values-Marks (hole frame) = Marks-pure env_values task_values hole (
      Marks->>= env_values task_values _ (live_environment frame.env) (
        Marks-pure env_values task_values _
          (Marks-map_option env_values task_values live_value frame.value)))
  map_values-Marks (var frame) = Marks-pure env_values task_values var (
      Marks->>= env_values task_values _ (live_environment frame.env) (
        Marks-pure env_values task_values _
          (Marks-map_option env_values task_values live_value frame.value)))
  map_values-Marks (project frame) = Marks-pure env_values task_values project (
      Marks->>= env_values task_values _ (live_environment frame.env) (
        Marks-pure env_values task_values _
          (Marks-map_option env_values task_values live_value frame.value)))
  map_values-Marks (lam frame) = Marks-pure env_values task_values lam (
      Marks->>= env_values task_values _ (live_environment frame.env) (
        Marks-pure env_values task_values _
          (Marks-map_option env_values task_values live_value frame.value)))
  map_values-Marks (let_frame frame) = Marks-pure env_values task_values let_frame (
      Marks->>= env_values task_values _ (live_environment frame.env) (
        Marks-pure env_values task_values _
          (Marks-map_option env_values task_values live_value frame.def_value)))
  map_values-Marks (ite_frame frame) = Marks-pure env_values task_values ite_frame (
      Marks->>= env_values task_values _ (live_environment frame.env) (
        Marks-pure env_values task_values _
          (Marks-map_option env_values task_values live_value frame.cond_value)))
  map_values-Marks (sequence frame) = Marks-pure env_values task_values sequence (
      Marks->>= env_values task_values _ (live_environment frame.env) (
        Marks-pure env_values task_values _
          (Marks-map_option_vec env_values task_values live_value frame.values)))
  map_values-Marks (record_update frame) = Marks-pure env_values task_values record_update (
      Marks->>= env_values task_values _ (live_environment frame.env) (
        Marks->>= env_values task_values _
          (Marks-map_option env_values task_values live_value frame.base_value)
          (Marks-pure env_values task_values _
            (Marks-map_option_vec env_values task_values live_value frame.update_values))))
  map_values-Marks (app frame) = Marks-pure env_values task_values app (
      Marks->>= env_values task_values _ (live_environment frame.env) (
        Marks->>= env_values task_values _
          (Marks-map_option_vec env_values task_values live_value frame.arg_values)
          (Marks->>= env_values task_values _
            (Marks-map_option env_values task_values live_value frame.func)
            (Marks-pure env_values task_values _
              (Marks-map_option env_values task_values live_value frame.arg)))))
  map_values-Marks (let_rec frame) = Marks-pure env_values task_values let_rec (
      Marks->>= env_values task_values _ (live_environment frame.env) (
        Marks->>= env_values task_values _
          (Marks-map_option env_values task_values live_environment frame.recursive_env)
          (Marks->>= env_values task_values _
            (Marks-map_vec env_values task_values live_value frame.slots)
            (Marks-pure env_values task_values _
              (Marks-map_option env_values task_values live_value frame.binding_value)))))
  map_values-Marks (match frame) = Marks-pure env_values task_values match (
      Marks->>= env_values task_values _ (live_environment frame.env) (
        Marks->>= env_values task_values _
          (Marks-map_option env_values task_values live_value frame.scrutinee_value)
          (Marks-pure env_values task_values _
            (Marks-map_option env_values task_values live_environment frame.matched_env))))

  -- Mapping a frame with the mapper of the collector succeeds and gives the frame back, and marks as
  -- live what was live before and what the frame's values, environments and native task hold, no more
  -- and no less. The mapping of a native task is assumed to mark the task's values and give it back.
  pub map_values-live :
      {X A : Type 0} (frame : Frame P E X A N) (live : List P)
      → (live' : List P) × (map_values (live_root_mapper env_values) map_native frame live
          ≡ ok frame live')
        × ((p : P)
            → Memᴰ p live' ↔ (Memᴰ p (all_held env_values task_values (roots frame)) ⊎ Memᴰ p live))
  map_values-live frame live = (
    mark (all_held env_values task_values (roots frame)) live,
    (map_values-Marks frame).runs live
        ∙ ap (ok frame) (mark_roots_lem env_values task_values (roots frame) live),
    λ p. (mark-to _ live, mark-of _ live),
  )
