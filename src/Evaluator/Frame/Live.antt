-- ===== src/Evaluator/Frame/Live.antt =====
-- rex-engine/src/evaluator/eval.rs, `LiveRootMapper` and `collect_machine_if_needed`: before a garbage
-- collection the frames are mapped with a mapper that adds each value it is handed to a set, and gives
-- it back. The set is a list; what an environment visits is the parameter `env_values`.
pub mod Collect
use rex.Prelude.{List, [], ◌∷◌, ◌++◌, Option, none, some, map, ◌≡◌, refl, sym, ap, ◌∙◌, arith}
use rex.Evaluator.Frame.{
  Frame, literal, hole, sequence, record_update, var, app, project, lam, let_frame, let_rec,
  ite_frame, match, native_call, native_host,
}
use rex.Evaluator.Frame.Effect.{Effect, ok, pure, ◌>>=◌}
use rex.Evaluator.Frame.MapValues.{
  Mapper, map_option, map_vec, map_option_vec, map_values, map_frame_value, map_sequence,
  map_record_update, map_app, map_let, map_let_rec, map_ite, map_match,
}
use rex.Evaluator.Frame.Roots.{
  Root, value, environment, task, option_roots, option_list_roots, roots,
}

module _ {P E N : Type 0} (env_values : E → List P) (task_values : N → List P) where
  unfoldable pub held : Root P E N → List P
  held (value p) = p ∷ []
  held (environment e) = env_values e
  held (task n) = task_values n

  -- What a list of roots stands for, in order.
  unfoldable pub all_held : List (Root P E N) → List P
  unfolding held
  all_held [] = []
  all_held (r ∷ rs) = held r ++ all_held rs

-- `HashSet::insert` for each value, one after the other.
unfoldable pub mark : {P : Type 0} → List P → List P → List P
mark [] live = live
mark (p ∷ ps) live = mark ps (p ∷ live)

unfoldable pub live_root_mapper : {Err P E : Type 0} → (E → List P) → Mapper (List P) Err P E P E
unfolding mark
live_root_mapper env_values = record {
  map_value = λ p live. ok p (p ∷ live);
  map_environment = λ e live. ok e (mark (env_values e) live);
}

pub mark-++ : {P : Type 0} (ps qs live : List P) → mark (ps ++ qs) live ≡ mark qs (mark ps live)
unfolding mark
mark-++ [] qs live = refl
mark-++ (p ∷ ps) qs live = mark-++ ps qs (p ∷ live)

module _ {P E N : Type 0} (env_values : E → List P) (task_values : N → List P) where
  -- The values that a list of roots stands for, marked one after the other.
  unfoldable pub mark_roots : List (Root P E N) → List P → List P
  unfolding mark held
  mark_roots [] live = live
  mark_roots (r ∷ rs) live = mark_roots rs (mark (held env_values task_values r) live)

  mark_roots-++ :
      (rs ss : List (Root P E N)) (live : List P)
      → mark_roots (rs ++ ss) live ≡ mark_roots ss (mark_roots rs live)
  unfolding mark_roots
  mark_roots-++ [] ss live = refl
  mark_roots-++ (r ∷ rs) ss live = mark_roots-++ rs ss (mark (held env_values task_values r) live)

  module _ {Err : Type 0} where
    -- `x` gives `a` back and marks what the roots hold.
    pub record Marks {A : Type 0} (x : Effect (List P) Err A) (a : A) (rs : List (Root P E N))
        : Type 0 where
      pub runs : (live : List P) → x live ≡ ok a (mark_roots rs live)

    pub Marks-none : {A : Type 0} (a : A) → Marks (pure a) a []
    unfolding pure mark_roots
    Marks-none a = record { runs = λ live. refl }

    pub Marks->>= :
        {A B : Type 0} {x : Effect (List P) Err A} {a : A} {rs : List (Root P E N)}
        (k : A → Effect (List P) Err B) {b : B} {ss : List (Root P E N)}
        → Marks x a rs
        → Marks (k a) b ss
        → Marks (x >>= k) b (rs ++ ss)
    unfolding ◌>>=◌
    Marks->>= {a = a} {rs} k {ss = ss} first next = record {
      runs = λ live. rw (first.runs live, next.runs (mark_roots rs live), mark_roots-++ rs ss live);
    }

    pub Marks-pure :
        {A B : Type 0} {x : Effect (List P) Err A} {a : A} {rs : List (Root P E N)} (g : A → B)
        → Marks x a rs
        → Marks (x >>= λ a. pure (g a)) (g a) rs
    unfolding ◌>>=◌ pure
    Marks-pure g first = record { runs = λ live. rw (first.runs live) }

    module _ {A : Type 0} {f : A → Effect (List P) Err A} {root : A → Root P E N}
        (one : (a : A) → Marks (f a) a (root a ∷ [])) where
      pub Marks-map_option : (o : Option A) → Marks (map_option f o) o (option_roots root o)
      unfolding map_option option_roots
      Marks-map_option none = Marks-none none
      Marks-map_option (some a) = Marks-pure some (one a)

      pub Marks-map_vec : (bs : List A) → Marks (map_vec f bs) bs (map root bs)
      unfolding map_vec
      Marks-map_vec [] = Marks-none []
      Marks-map_vec (b ∷ bs) =
          Marks->>= (λ b. do cs ← map_vec f bs; pure (b ∷ cs)) (one b)
            (Marks-pure (λ cs. b ∷ cs) (Marks-map_vec bs))

      pub Marks-map_option_vec :
          (os : List (Option A)) → Marks (map_option_vec f os) os (option_list_roots root os)
      unfolding map_option_vec option_list_roots map_vec
      Marks-map_option_vec [] = Marks-none []
      Marks-map_option_vec (o ∷ os) =
          Marks->>= (λ p. do ps ← map_option_vec f os; pure (p ∷ ps)) (Marks-map_option o)
            (Marks-pure (λ ps. o ∷ ps) (Marks-map_option_vec os))
