-- ===== src/Evaluator/Frame/Shape/Laws.antt =====
-- rex-engine/src/stack.rs, `Frame::map_values`: the mapping keeps the shape of a frame.
use rex.Prelude.{List, [], ◌∷◌, Option, none, some, ◌≡◌, refl, ap, fun_ext}
use rex.Evaluator.Frame.{
  Frame, literal, hole, sequence, record_update, var, app, project, lam, let_frame, let_rec,
  ite_frame, match, native_call, native_host,
}
use rex.Evaluator.Frame.Effect.{Effect, Done, ok, err, pure, ◌>>=◌}
use rex.Evaluator.Frame.MapValues.{
  Mapper, map_option, map_vec, map_option_vec, map_values, map_frame_value, map_sequence,
  map_record_update, map_app, map_let, map_let_rec, map_ite, map_match,
}
use rex.Evaluator.Frame.Shape.{filled, slots_filled, count, shape}

-- `h` of the answer is `c`, if there is an answer.
abbrev pub Answers : {S Err A C : Type 0} → (A → C) → C → Done S Err A → Type 0
Answers h c d = elim d [ ok a s ↦ h a ≡ c | err e s ↦ Unit ]

pub record Always {S Err A C : Type 0} (x : Effect S Err A) (h : A → C) (c : C) : Type 0 where
  pub always : (s : S) → Answers h c (x s)

module _ {S Err : Type 0} where
  pub Always-any : {A : Type 0} (x : Effect S Err A) → Always x (λ a. tt {0}) tt
  Always-any x = record { always = λ s. any (x s) }
    where
      any : {A : Type 0} (d : Done S Err A) → Answers (λ a. tt {0}) tt d
      any (ok a s) = refl
      any (err e s) = tt

  pub Always-pure :
      {A C : Type 0} (a : A) {h : A → C} {c : C} → h a ≡ c → Always {S = S} {Err = Err} (pure a) h c
  unfolding pure
  Always-pure a same = record { always = λ s. same }

  Answers->>= :
      {A B C R : Type 0} (d : Done S Err A) (k : A → Effect S Err B) {f : A → R} {r : R} {h : B → C}
      {c : C} (s : S)
      → Answers f r d
      → ((a : A) → f a ≡ r → Always (k a) h c)
      → Answers h c (((λ s'. d) >>= k) s)
  unfolding ◌>>=◌
  Answers->>= (ok a s') k s first next = (next a first).always s'
  Answers->>= (err e s') k s first next = tt

  pub Always->>= :
      {A B C R : Type 0} (x : Effect S Err A) (k : A → Effect S Err B) {f : A → R} {r : R}
      {h : B → C} {c : C}
      → Always x f r
      → ((a : A) → f a ≡ r → Always (k a) h c)
      → Always (x >>= k) h c
  unfolding ◌>>=◌
  Always->>= x k first next = record { always = λ s. Answers->>= (x s) k s (first.always s) next }

  -- The arms wrap what they compute in a constructor at the end.
  pub Always-wrap :
      {A B C : Type 0} (x : Effect S Err A) (g : A → B) {h : B → C} {c : C}
      → Always x (λ a. h (g a)) c
      → Always (x >>= λ a. pure (g a)) h c
  Always-wrap x g known = Always->>= x (λ a. pure (g a)) known (λ a same. Always-pure (g a) same)

  Answers-apply :
      {A C Z : Type 0} (d : Done S Err A) (h : A → C) (c : C) (k : C → A → Effect S Err Z) (s : S)
      → Answers h c d
      → ((λ s'. d) >>= λ a. k (h a) a) s ≡ ((λ s'. d) >>= λ a. k c a) s
  unfolding ◌>>=◌
  Answers-apply (ok a s') h c k s known = ap (λ c'. k c' a s') known
  Answers-apply (err e s') h c k s known = refl

  pub Always-apply :
      {A C Z : Type 0} (x : Effect S Err A) {h : A → C} {c : C} (k : C → A → Effect S Err Z)
      → Always x h c
      → (x >>= λ a. k (h a) a) ≡ (x >>= λ a. k c a)
  unfolding ◌>>=◌
  Always-apply x {h} {c} k known = fun_ext (λ s. Answers-apply (x s) h c k s (known.always s))

  module _ {A B : Type 0} (f : A → Effect S Err B) where
    filled_of : (o : Option A) → Always (map_option f o) filled (filled o)
    unfolding map_option filled
    filled_of none = Always-pure none refl
    filled_of (some a) = Always->>= (f a) _ (Always-any (f a)) (λ b any. Always-pure (some b) refl)

    count_of : (as' : List A) → Always (map_vec f as') count (count as')
    unfolding map_vec count
    count_of [] = Always-pure [] refl
    count_of (a ∷ as') = Always->>= (f a) _ (Always-any (f a)) (λ b any.
        Always->>= (map_vec f as') _ (count_of as')
          (λ bs same. Always-pure (b ∷ bs) (ap (λ us. tt ∷ us) same)))

  module _ {A B : Type 0} (f : A → Effect S Err B) where
    slots_of : (os : List (Option A)) → Always (map_option_vec f os) slots_filled (slots_filled os)
    unfolding map_option_vec map_vec slots_filled
    slots_of [] = Always-pure [] refl
    slots_of (o ∷ os) = Always->>= (map_option f o) _ (filled_of f o) (λ b first.
        Always->>= (map_option_vec f os) _ (slots_of os)
          (λ bs same. Always-pure (b ∷ bs) (λ i. first i ∷ same i)))

module _ {S Err P E Q D : Type 0} (m : Mapper S Err P E Q D) where
  -- The arms whose calls are for an environment, and after it for one value.
  environment_then_value :
      {F Z : Type 0} (g : D → Option Q → F) {h : F → Z} {z : Z} (e : E) (o : Option P)
      → ((d : D) (q : Option Q) → filled q ≡ filled o → h (g d q) ≡ z)
      → Always (do d ← m.map_environment e; q ← map_option m.map_value o; pure (g d q)) h z
  environment_then_value g e o same =
      Always->>= _ _ (Always-any _)
        (λ d any. Always->>= _ _ (filled_of m.map_value o) (λ q s. Always-pure _ (same d q s)))

module _ {S Err P E Q D X A N K : Type 0} (m : Mapper S Err P E Q D)
    (map_native : (P → Effect S Err Q) → N → Effect S Err K) where
  pub map_values-Always :
      (frame : Frame P E X A N) → Always (map_values m map_native frame) shape (shape frame)
  unfolding map_values map_frame_value map_sequence map_record_update map_app map_let map_let_rec
      map_ite map_match shape
  map_values-Always (literal frame) = Always-pure _ refl
  map_values-Always (native_host frame) = Always-pure _ refl
  map_values-Always (native_call frame) =
      Always->>= _ _ (Always-any _) (λ k any. Always-pure _ refl)
  map_values-Always (hole frame) =
      Always-wrap _ hole
        (environment_then_value m _ frame.env frame.value (λ d q same. rw same refl))
  map_values-Always (var frame) =
      Always-wrap _ var
        (environment_then_value m _ frame.env frame.value (λ d q same. rw same refl))
  map_values-Always (project frame) =
      Always-wrap _ project
        (environment_then_value m _ frame.env frame.value (λ d q same. rw same refl))
  map_values-Always (lam frame) =
      Always-wrap _ lam
        (environment_then_value m _ frame.env frame.value (λ d q same. rw same refl))
  map_values-Always (let_frame frame) =
      Always-wrap _ let_frame
        (environment_then_value m _ frame.env frame.def_value (λ d q same. rw same refl))
  map_values-Always (ite_frame frame) =
      Always-wrap _ ite_frame
        (environment_then_value m _ frame.env frame.cond_value (λ d q same. rw same refl))
  map_values-Always (sequence frame) = Always-wrap _ sequence (
      Always->>= _ _ (Always-any _) (λ d any.
        Always->>= _ _ (slots_of m.map_value frame.values) (λ x0 s0. Always-pure _ (rw (s0) refl))))
  map_values-Always (record_update frame) = Always-wrap _ record_update (
      Always->>= _ _ (Always-any _) (λ d any.
        Always->>= _ _ (filled_of m.map_value frame.base_value) (λ x0 s0.
          Always->>= _ _ (slots_of m.map_value frame.update_values)
            (λ x1 s1. Always-pure _ (rw (s0, s1) refl)))))
  map_values-Always (app frame) = Always-wrap _ app (
      Always->>= _ _ (Always-any _) (λ d any.
        Always->>= _ _ (slots_of m.map_value frame.arg_values) (λ x0 s0.
          Always->>= _ _ (filled_of m.map_value frame.func) (λ x1 s1.
            Always->>= _ _ (filled_of m.map_value frame.arg)
              (λ x2 s2. Always-pure _ (rw (s0, s1, s2) refl))))))
  map_values-Always (let_rec frame) = Always-wrap _ let_rec (
      Always->>= _ _ (Always-any _) (λ d any.
        Always->>= _ _ (filled_of m.map_environment frame.recursive_env) (λ x0 s0.
          Always->>= _ _ (count_of m.map_value frame.slots) (λ x1 s1.
            Always->>= _ _ (filled_of m.map_value frame.binding_value)
              (λ x2 s2. Always-pure _ (rw (s0, s1, s2) refl))))))
  map_values-Always (match frame) = Always-wrap _ match (
      Always->>= _ _ (Always-any _) (λ d any.
        Always->>= _ _ (filled_of m.map_value frame.scrutinee_value) (λ x0 s0.
          Always->>= _ _ (filled_of m.map_environment frame.matched_env)
            (λ x1 s1. Always-pure _ (rw (s0, s1) refl)))))
