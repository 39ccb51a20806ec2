-- ===== src/Evaluator/Frame/Roots/Laws.antt =====
-- rex-engine/src/stack.rs, `Frame::map_values`: which calls it makes, in which order, and where the
-- answers go.
use rex.Prelude.{List, ◌∷◌, Option, ◌≡◌, refl, sym, ap, ◌∙◌}
use rex.Evaluator.Frame.{
  Frame, literal, hole, sequence, record_update, var, app, project, lam, let_frame, let_rec,
  ite_frame, match, native_call, native_host,
}
use rex.Evaluator.Frame.Effect.{Effect, pure, ◌>>=◌, >>=_assoc, >>=-pure}
use rex.Evaluator.Frame.MapValues.{
  Mapper, map_option, map_option_vec, map_values, map_frame_value, map_sequence, map_record_update,
  map_app, map_let, map_let_rec, map_ite, map_match,
}
use rex.Evaluator.Frame.Shape.{shape, in_shape}
use rex.Evaluator.Frame.Shape.Laws.{Always-apply, map_values-Always}
use rex.Evaluator.Frame.Roots.{Root, value, environment, option_roots, option_list_roots, roots}
use rex.Evaluator.Frame.Roots.Visit.{
  visit, Visits, Visits-none, Visits->>=, Visits-pure, Visits-value, Visits-environment,
  Visits-task, Visits-map_option, Visits-map_vec, Visits-map_option_vec,
}

module _ {S Err P E Q D N K : Type 0} (m : Mapper S Err P E Q D)
    (map_native : (P → Effect S Err Q) → N → Effect S Err K) where
  value_of :
      (o : Option P)
      → Visits m map_native
          (map_option m.map_value o)
          (option_roots value)
          (λ ts. ts)
          (option_roots value o)
  value_of o = Visits-map_option m map_native (Visits-value m map_native) o

  values_of :
      (os : List (Option P))
      → Visits m map_native
          (map_option_vec m.map_value os)
          (option_list_roots value)
          (λ ts. ts)
          (option_list_roots value os)
  values_of os = Visits-map_option_vec m map_native (Visits-value m map_native) os

  environment_of :
      (o : Option E)
      → Visits m map_native
          (map_option m.map_environment o)
          (option_roots environment)
          (λ ts. ts)
          (option_roots environment o)
  environment_of o = Visits-map_option m map_native (Visits-environment m map_native) o

  -- The arms whose calls are for an environment, and after it for one value.
  environment_then_value :
      {F : Type 0} (g : D → Option Q → F) {h : F → List (Root Q D K)} (e : E) (o : Option P)
      → ((d : D) (q : Option Q) → h (g d q) ≡ environment d ∷ option_roots value q)
      → Visits m map_native
          (do d ← m.map_environment e; q ← map_option m.map_value o; pure (g d q))
          h
          (λ ts. ts)
          (environment e ∷ option_roots value o)
  environment_then_value g e o same =
      Visits->>= m map_native _ (Visits-environment m map_native e)
        (λ d. Visits-pure m map_native (g d) (value_of o) (same d))

  map_values-Visits :
      {X A : Type 0} (frame : Frame P E X A N)
      → Visits m map_native (map_values m map_native frame) roots (λ ts. ts) (roots frame)
  unfolding map_values map_frame_value map_sequence map_record_update map_app map_let map_let_rec
      map_ite map_match roots
  map_values-Visits (literal frame) = Visits-none m map_native _ refl
  map_values-Visits (hole frame) =
      Visits-pure m map_native hole (environment_then_value _ frame.env frame.value (λ d q. refl))
        (λ frame'. refl)
  map_values-Visits (var frame) =
      Visits-pure m map_native var (environment_then_value _ frame.env frame.value (λ d q. refl))
        (λ frame'. refl)
  map_values-Visits (project frame) =
      Visits-pure m map_native project
        (environment_then_value _ frame.env frame.value (λ d q. refl)) (λ frame'. refl)
  map_values-Visits (lam frame) =
      Visits-pure m map_native lam (environment_then_value _ frame.env frame.value (λ d q. refl))
        (λ frame'. refl)
  map_values-Visits (let_frame frame) =
      Visits-pure m map_native let_frame
        (environment_then_value _ frame.env frame.def_value (λ d q. refl)) (λ frame'. refl)
  map_values-Visits (ite_frame frame) =
      Visits-pure m map_native ite_frame
        (environment_then_value _ frame.env frame.cond_value (λ d q. refl)) (λ frame'. refl)
  map_values-Visits (sequence frame) =
      Visits-pure m map_native sequence
        (Visits->>= m map_native _ (Visits-environment m map_native frame.env)
          (λ x0. Visits-pure m map_native _ (values_of frame.values) (λ z. refl)))
        (λ frame'. refl)
  map_values-Visits (record_update frame) =
      Visits-pure m map_native record_update
        (Visits->>= m map_native _ (Visits-environment m map_native frame.env) (λ x0.
          Visits->>= m map_native _ (value_of frame.base_value)
            (λ x1. Visits-pure m map_native _ (values_of frame.update_values) (λ z. refl))))
        (λ frame'. refl)
  map_values-Visits (app frame) =
      Visits-pure m map_native app
        (Visits->>= m map_native _ (Visits-environment m map_native frame.env) (λ x0.
          Visits->>= m map_native _ (values_of frame.arg_values) (λ x1.
            Visits->>= m map_native _ (value_of frame.func)
              (λ x2. Visits-pure m map_native _ (value_of frame.arg) (λ z. refl)))))
        (λ frame'. refl)
  map_values-Visits (let_rec frame) =
      Visits-pure m map_native let_rec
        (Visits->>= m map_native _ (Visits-environment m map_native frame.env) (λ x0.
          Visits->>= m map_native _ (environment_of frame.recursive_env) (λ x1.
            Visits->>= m map_native _
              (Visits-map_vec m map_native (Visits-value m map_native) frame.slots)
              (λ x2. Visits-pure m map_native _ (value_of frame.binding_value) (λ z. refl)))))
        (λ frame'. refl)
  map_values-Visits (match frame) =
      Visits-pure m map_native match
        (Visits->>= m map_native _ (Visits-environment m map_native frame.env) (λ x0.
          Visits->>= m map_native _ (value_of frame.scrutinee_value)
            (λ x1. Visits-pure m map_native _ (environment_of frame.matched_env) (λ z. refl))))
        (λ frame'. refl)
  map_values-Visits (native_call frame) =
      Visits-pure m map_native _ (Visits-task m map_native frame.task) (λ task'. refl)
  map_values-Visits (native_host frame) = Visits-none m map_native _ refl

  -- `map_values` asks the mapper for the values, environments and native task of a frame, one call
  -- for each, in the order in which `roots` lists them, and stops at the first error; else the frame
  -- that it returns has the answers as its roots, in the same order, and the shape of the frame it
  -- was given: its kind, all other fields, which optional values are there and how many values each
  -- list has.
  pub map_values-roots :
      {X A : Type 0} (frame : Frame P E X A N)
      → (do frame' ← map_values m map_native frame; pure (in_shape (shape frame') (roots frame')))
        ≡ (do answers ← visit m map_native (roots frame); pure (in_shape (shape frame) answers))
  unfolding pure ◌>>=◌
  map_values-roots frame =
      Always-apply (map_values m map_native frame) (λ c frame'. pure (in_shape c (roots frame')))
        (map_values-Always m map_native frame)
      ∙ sym (>>=_assoc (map_values m map_native frame) (λ frame'. pure (roots frame')) _)
      ∙ ap (λ x. x >>= λ answers. pure (in_shape (shape frame) answers))
          ((map_values-Visits frame).calls ∙ >>=-pure (visit m map_native (roots frame)))
