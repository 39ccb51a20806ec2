-- ===== src/Evaluator/Frame/Tests.antt =====
-- rex-engine/src/stack.rs, `Frame::map_values` on a frame of recursive bindings.
use mathlib.Core.List.{Memᴰ}
use rex.Prelude.{List, ◌⊎◌, ◌↔◌, ℕ, ◌+◌, String, [], ◌∷◌, some, if◌then◌else◌, ◌==◌, ◌≡◌, refl}
use rex.Evaluator.Frame.{Frame, let_rec, eval_binding, parent}
use rex.Evaluator.Frame.Effect.{Effect, ok, err, pure, ◌>>=◌}
use rex.Evaluator.Frame.MapValues.{Mapper, map_values, map_let_rec, map_option, map_vec}
use rex.Evaluator.Frame.Shape.{shape, in_shape}
use rex.Evaluator.Frame.Roots.{roots, task}
use rex.Evaluator.Frame.Roots.Visit.{visit}
use rex.Evaluator.Frame.Roots.Laws.{map_values-roots}
use rex.Evaluator.Frame.Live.{live_root_mapper, mark_roots, held, mark, all_held, Marks}
use rex.Evaluator.Frame.Live.Collect.{map_values-live}
use rex.Evaluator.Frame.Keeps.{keep, map_values-keep, map_values-parent}

-- The frame holds the environment `1`, the recursive environment `2` and three values.
abbrev bindings : Frame ℕ ℕ String String ℕ
bindings = let_rec (record {
  parent = some 4;
  expr = "e";
  env = 1;
  state = eval_binding;
  recursive_env = some 2;
  slots = 20 ∷ 30 ∷ [];
  next_binding_index = 1;
  binding_value = some 40;
})

-- Each call adds its number to its argument, and counts itself; 30 is refused.
numbered : ℕ → Effect ℕ String ℕ
numbered p count = if p == 30 then err "refused" count else ok (p + count) (count + 1)

abbrev counter : Mapper ℕ String ℕ ℕ ℕ ℕ
counter = record { map_value = λ p count. ok (p + count) (count + 1); map_environment = numbered }

abbrev refusing : Mapper ℕ String ℕ ℕ ℕ ℕ
refusing = record { map_value = numbered; map_environment = numbered }

abbrev native : (ℕ → Effect ℕ String ℕ) → ℕ → Effect ℕ String ℕ
native f job = f job

counted :
    map_values counter native bindings 100
    ≡ ok
        (let_rec (record {
          parent = some 4;
          expr = "e";
          env = 101;
          state = eval_binding;
          recursive_env = some 103;
          slots = 122 ∷ 133 ∷ [];
          next_binding_index = 1;
          binding_value = some 144;
        }))
        105
unfolding map_values map_let_rec map_option map_vec numbered pure ◌>>=◌
counted = refl

refused : map_values refusing native bindings 100 ≡ err "refused" 103
unfolding map_values map_let_rec map_option map_vec numbered pure ◌>>=◌
refused = refl

map_values-roots_example :
    (do frame' ← map_values refusing native bindings; pure (in_shape (shape frame') (roots frame')))
    ≡ (do
      answers ← visit refusing native (roots bindings)
      pure (in_shape (shape bindings) answers))
map_values-roots_example = map_values-roots refusing native bindings

map_values-keep_example : map_values keep native bindings ≡ pure bindings
map_values-keep_example = map_values-keep native (λ job. refl) bindings

map_values-parent_example :
    (do frame' ← map_values counter native bindings; pure (parent frame'))
    ≡ (do frame' ← map_values counter native bindings; pure (parent bindings))
map_values-parent_example = map_values-parent counter native bindings

abbrev native_live : (ℕ → Effect (List ℕ) String ℕ) → ℕ → Effect (List ℕ) String ℕ
native_live f job = f job

-- The environment `2` holds the values 7 and 8, every other one holds none.
env_values : ℕ → List ℕ
env_values e = if e == 2 then 7 ∷ 8 ∷ [] else []

abbrev one_value : ℕ → List ℕ
one_value job = job ∷ []

native-Marks :
    (job : ℕ)
    → Marks env_values one_value
        (native_live (live_root_mapper {Err = String} env_values).map_value job)
        job
        (task job ∷ [])
unfolding live_root_mapper mark_roots held mark
native-Marks job = record { runs = λ live. refl }

live_marked :
    map_values {Err = String} (live_root_mapper env_values) native_live bindings []
    ≡ ok bindings (40 ∷ 30 ∷ 20 ∷ 8 ∷ 7 ∷ [])
unfolding map_values map_let_rec map_option map_vec live_root_mapper env_values mark pure ◌>>=◌
live_marked = refl

map_values-live_example :
    (live' : List ℕ) × (map_values {Err = String}
        (live_root_mapper env_values)
        native_live
        bindings
        []
      ≡ ok bindings live')
    × ((p : ℕ)
        → Memᴰ p live' ↔ (Memᴰ p (all_held env_values one_value (roots bindings)) ⊎ Memᴰ p []))
map_values-live_example = map_values-live env_values one_value native_live native-Marks bindings []
