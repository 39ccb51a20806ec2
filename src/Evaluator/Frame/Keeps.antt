-- ===== src/Evaluator/Frame/Keeps.antt =====
-- rex-engine/src/stack.rs, `Frame::map_values`: what it leaves as it was.
use rex.Prelude.{List, [], ◌∷◌, Option, none, some, ◌≡◌, refl, sym, ap, ◌∙◌}
use rex.Evaluator.Frame.{
  Frame, parent, literal, hole, sequence, record_update, var, app, project, lam, let_frame, let_rec,
  ite_frame, match, native_call, native_host,
}
use rex.Evaluator.Frame.Effect.{Effect, pure, ◌>>=◌, >>=_assoc}
use rex.Evaluator.Frame.MapValues.{
  Mapper, map_option, map_vec, map_option_vec, map_values, map_frame_value, map_sequence,
  map_record_update, map_app, map_let, map_let_rec, map_ite, map_match,
}
use rex.Evaluator.Frame.Roots.Visit.{>>=-cong}

pub map_option-pure :
    {S Err A : Type 0} (o : Option A) → map_option {S = S} {Err = Err} pure o ≡ pure o
unfolding map_option pure ◌>>=◌
map_option-pure none = refl
map_option-pure (some a) = refl

pub map_vec-pure :
    {S Err A : Type 0} {f : A → Effect S Err A}
    → ((a : A) → f a ≡ pure a)
    → (bs : List A) → map_vec f bs ≡ pure bs
unfolding map_vec pure ◌>>=◌
map_vec-pure same [] = refl
map_vec-pure same (b ∷ bs) = rw (same b, map_vec-pure same bs)

pub map_option_vec-pure :
    {S Err A : Type 0} (os : List (Option A)) → map_option_vec {S = S} {Err = Err} pure os ≡ pure os
unfolding map_option_vec
map_option_vec-pure os = map_vec-pure map_option-pure os

unfoldable pub keep : {S Err P E : Type 0} → Mapper S Err P E P E
keep = record { map_value = pure; map_environment = pure }

module _ {S Err P E N : Type 0} (map_native : (P → Effect S Err P) → N → Effect S Err N)
    (native : (n : N) → map_native pure n ≡ pure n) where
  -- A mapper that answers each call with its argument gets the frame back: every field of the
  -- returned frame is the frame's own. The mapping of a native task is assumed to give the task back
  -- for such a mapper.
  pub map_values-keep :
      {X A : Type 0} (frame : Frame P E X A N) → map_values keep map_native frame ≡ pure frame
  unfolding map_values map_frame_value map_sequence map_record_update map_app map_let map_let_rec
      map_ite map_match keep pure ◌>>=◌
  map_values-keep (literal frame) = refl
  map_values-keep (native_host frame) = refl
  map_values-keep (hole frame) = rw (map_option-pure frame.value)
  map_values-keep (var frame) = rw (map_option-pure frame.value)
  map_values-keep (project frame) = rw (map_option-pure frame.value)
  map_values-keep (lam frame) = rw (map_option-pure frame.value)
  map_values-keep (sequence frame) = rw (map_option_vec-pure frame.values)
  map_values-keep (record_update frame) =
      rw (map_option-pure frame.base_value, map_option_vec-pure frame.update_values)
  map_values-keep (app frame) =
      rw (
        map_option_vec-pure frame.arg_values,
        map_option-pure frame.func,
        map_option-pure frame.arg,
      )
  map_values-keep (let_frame frame) = rw (map_option-pure frame.def_value)
  map_values-keep (let_rec frame) = rw (
    map_option-pure frame.recursive_env,
    map_vec-pure (λ p. refl) frame.slots,
    map_option-pure frame.binding_value,
  )
  map_values-keep (ite_frame frame) = rw (map_option-pure frame.cond_value)
  map_values-keep (match frame) =
      rw (map_option-pure frame.scrutinee_value, map_option-pure frame.matched_env)
  map_values-keep (native_call frame) = rw (native frame.task)

-- `x` ends with a value of which `h` is `c`, whatever it computes before.
record Ends {S Err A C : Type 0} (x : Effect S Err A) (h : A → C) (c : C) : Type 0 where
  ends : (x >>= λ a. pure (h a)) ≡ (x >>= λ a. pure c)

Ends->>= :
    {S Err A B C : Type 0} (x : Effect S Err A) (k : A → Effect S Err B) {h : B → C} {c : C}
    → ((a : A) → Ends (k a) h c)
    → Ends (x >>= k) h c
Ends->>= x k next = record {
  ends = >>=_assoc x k _ ∙ >>=-cong x (λ a. (next a).ends) ∙ sym (>>=_assoc x k _);
}

Ends-pure :
    {S Err A C : Type 0} (a : A) {h : A → C} {c : C}
    → h a ≡ c
    → Ends {S = S} {Err = Err} (pure a) h c
unfolding pure ◌>>=◌
Ends-pure a same = record { ends = ap pure same }

-- The arms wrap what they compute in a constructor at the end.
Ends-wrap :
    {S Err A B C : Type 0} (x : Effect S Err A) (g : A → B) {h : B → C} {c : C}
    → Ends x (λ a. h (g a)) c
    → Ends (x >>= λ a. pure (g a)) h c
unfolding pure ◌>>=◌
Ends-wrap x g known = record {
  ends = >>=_assoc x (λ a. pure (g a)) _ ∙ known.ends ∙ sym (>>=_assoc x (λ a. pure (g a)) _);
}

module _ {S Err P E Q D X A N K : Type 0} (m : Mapper S Err P E Q D)
    (map_native : (P → Effect S Err Q) → N → Effect S Err K) where
  Ends-parent :
      (frame : Frame P E X A N) → Ends (map_values m map_native frame) parent (parent frame)
  unfolding map_values map_frame_value map_sequence map_record_update map_app map_let map_let_rec
      map_ite map_match parent
  Ends-parent (literal frame) = Ends-pure _ refl
  Ends-parent (native_host frame) = Ends-pure _ refl
  Ends-parent (native_call frame) = Ends->>= _ _ (λ k. Ends-pure _ refl)
  Ends-parent (hole frame) =
      Ends-wrap _ hole (Ends->>= _ _ (λ x0. Ends->>= _ _ (λ x1. Ends-pure _ refl)))
  Ends-parent (var frame) =
      Ends-wrap _ var (Ends->>= _ _ (λ x0. Ends->>= _ _ (λ x1. Ends-pure _ refl)))
  Ends-parent (project frame) =
      Ends-wrap _ project (Ends->>= _ _ (λ x0. Ends->>= _ _ (λ x1. Ends-pure _ refl)))
  Ends-parent (lam frame) =
      Ends-wrap _ lam (Ends->>= _ _ (λ x0. Ends->>= _ _ (λ x1. Ends-pure _ refl)))
  Ends-parent (sequence frame) =
      Ends-wrap _ sequence (Ends->>= _ _ (λ x0. Ends->>= _ _ (λ x1. Ends-pure _ refl)))
  Ends-parent (record_update frame) =
      Ends-wrap _ record_update
        (Ends->>= _ _ (λ x0. Ends->>= _ _ (λ x1. Ends->>= _ _ (λ x2. Ends-pure _ refl))))
  Ends-parent (app frame) = Ends-wrap _ app (
      Ends->>= _ _
        (λ x0. Ends->>= _ _ (λ x1. Ends->>= _ _ (λ x2. Ends->>= _ _ (λ x3. Ends-pure _ refl)))))
  Ends-parent (let_frame frame) =
      Ends-wrap _ let_frame (Ends->>= _ _ (λ x0. Ends->>= _ _ (λ x1. Ends-pure _ refl)))
  Ends-parent (let_rec frame) = Ends-wrap _ let_rec (
      Ends->>= _ _
        (λ x0. Ends->>= _ _ (λ x1. Ends->>= _ _ (λ x2. Ends->>= _ _ (λ x3. Ends-pure _ refl)))))
  Ends-parent (ite_frame frame) =
      Ends-wrap _ ite_frame (Ends->>= _ _ (λ x0. Ends->>= _ _ (λ x1. Ends-pure _ refl)))
  Ends-parent (match frame) =
      Ends-wrap _ match
        (Ends->>= _ _ (λ x0. Ends->>= _ _ (λ x1. Ends->>= _ _ (λ x2. Ends-pure _ refl))))

  -- Whatever the mapper answers, the frame that `map_values` returns has the parent of the frame it
  -- was given.
  pub map_values-parent :
      (frame : Frame P E X A N)
      → (do frame' ← map_values m map_native frame; pure (parent frame'))
        ≡ (do frame' ← map_values m map_native frame; pure (parent frame))
  map_values-parent frame = (Ends-parent frame).ends
