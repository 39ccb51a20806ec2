-- ===== src/Evaluator/Frame/Roots/Visit.antt =====
-- rex-engine/src/stack.rs: the calls that a mapper gets for a list of roots, from left to right up to
-- the first error, and when a computation makes exactly those calls.
use rex.Prelude.{
  List, [], ◌∷◌, ◌++◌, Option, none, some, map, ◌≡◌, refl, ap, sym, ◌∙◌, fun_ext, arith,
}
use rex.Evaluator.Frame.Effect.{Effect, pure, ◌>>=◌, >>=_assoc}
use rex.Evaluator.Frame.MapValues.{Mapper, map_option, map_vec, map_option_vec}
use rex.Evaluator.Frame.Roots.{Root, value, environment, task, option_roots, option_list_roots}

pub >>=-cong :
    {S Err A B : Type 0} (x : Effect S Err A) {f g : A → Effect S Err B}
    → ((a : A) → f a ≡ g a)
    → (x >>= f) ≡ (x >>= g)
>>=-cong x same = ap (λ f. x >>= f) (fun_ext same)

module _ {S Err P E Q D N K : Type 0} (m : Mapper S Err P E Q D)
    (map_native : (P → Effect S Err Q) → N → Effect S Err K) where
  unfoldable pub visit_root : Root P E N → Effect S Err (Root Q D K)
  visit_root (value p) = do q ← m.map_value p; pure (value q)
  visit_root (environment e) = do d ← m.map_environment e; pure (environment d)
  visit_root (task n) = do k ← map_native m.map_value n; pure (task k)

  unfoldable pub visit : List (Root P E N) → Effect S Err (List (Root Q D K))
  unfolding visit_root
  visit [] = pure []
  visit (root ∷ rest) = do root' ← visit_root root; rest' ← visit rest; pure (root' ∷ rest')

  visit-∷ :
      {Z : Type 0} (r : Root P E N) (rs : List (Root P E N))
      (k : List (Root Q D K) → Effect S Err Z)
      → (visit (r ∷ rs) >>= k) ≡ (visit_root r >>= λ u. visit rs >>= λ us. k (u ∷ us))
  unfolding visit pure ◌>>=◌
  visit-∷ r rs k =
      >>=_assoc (visit_root r) _ k ∙ >>=-cong (visit_root r) (λ u. >>=_assoc (visit rs) _ k)

  visit-++ :
      {Z : Type 0} (rs ss : List (Root P E N)) (k : List (Root Q D K) → Effect S Err Z)
      → (visit (rs ++ ss) >>= k) ≡ (visit rs >>= λ us. visit ss >>= λ ts. k (us ++ ts))
  unfolding visit pure ◌>>=◌
  visit-++ [] ss k = refl
  visit-++ (r ∷ rs) ss k =
      visit-∷ r (rs ++ ss) k
      ∙ >>=-cong (visit_root r) (λ u. visit-++ rs ss (λ us. k (u ∷ us)))
      ∙ sym (visit-∷ r rs (λ us. visit ss >>= λ ts. k (us ++ ts)))

  -- `x` makes the calls for `rs`, and `h` lists their answers, after `pre`.
  pub record Visits {Z : Type 0} (x : Effect S Err Z) (h : Z → List (Root Q D K))
      (pre : List (Root Q D K) → List (Root Q D K)) (rs : List (Root P E N)) : Type 0 where
    pub calls : (x >>= λ z. pure (h z)) ≡ (visit rs >>= λ ts. pure (pre ts))

  pub Visits-none :
      {Z : Type 0} (z : Z) {h : Z → List (Root Q D K)} {pre : List (Root Q D K) → List (Root Q D K)}
      → h z ≡ pre []
      → Visits (pure z) h pre []
  unfolding visit pure ◌>>=◌
  Visits-none z same = record { calls = ap pure same }

  pub Visits->>= :
      {B Z : Type 0} {x : Effect S Err B} {f : B → List (Root Q D K)} {rs : List (Root P E N)}
      (k : B → Effect S Err Z) {h : Z → List (Root Q D K)}
      {pre : List (Root Q D K) → List (Root Q D K)} {ss : List (Root P E N)}
      → Visits x f (λ ts. ts) rs
      → ((b : B) → Visits (k b) h (λ ts. pre (f b ++ ts)) ss)
      → Visits (x >>= k) h pre (rs ++ ss)
  unfolding pure ◌>>=◌
  Visits->>= {x = x} {f} {rs} k {h} {pre} {ss} first next = record {
    calls =
        >>=_assoc x k _
        ∙ >>=-cong x (λ b. (next b).calls)
        ∙ sym (>>=_assoc x (λ b. pure (f b)) after)
        ∙ ap (λ y. y >>= after) first.calls
        ∙ >>=_assoc (visit rs) _ after
        ∙ sym (visit-++ rs ss (λ ts. pure (pre ts)));
  }
    where
      after : List (Root Q D K) → Effect S Err (List (Root Q D K))
      after us = visit ss >>= λ ts. pure (pre (us ++ ts))

  pub Visits-pure :
      {B Z : Type 0} {x : Effect S Err B} {f : B → List (Root Q D K)} {rs : List (Root P E N)}
      (g : B → Z) {h : Z → List (Root Q D K)} {pre : List (Root Q D K) → List (Root Q D K)}
      → Visits x f (λ ts. ts) rs
      → ((b : B) → h (g b) ≡ pre (f b))
      → Visits (x >>= λ b. pure (g b)) h pre rs
  unfolding pure ◌>>=◌
  Visits-pure {x = x} {f} {rs} g {h} {pre} first last = record {
    calls =
        >>=_assoc x (λ b. pure (g b)) _
        ∙ >>=-cong x (λ b. ap pure (last b))
        ∙ sym (>>=_assoc x (λ b. pure (f b)) (λ us. pure (pre us)))
        ∙ ap (λ y. y >>= λ us. pure (pre us)) first.calls
        ∙ >>=_assoc (visit rs) _ _;
  }

  pub Visits-value : (p : P) → Visits (m.map_value p) (λ q. value q ∷ []) (λ ts. ts) (value p ∷ [])
  unfolding visit visit_root pure ◌>>=◌
  Visits-value p = record { calls = ground arith }

  pub Visits-environment :
      (e : E)
      → Visits (m.map_environment e) (λ d. environment d ∷ []) (λ ts. ts) (environment e ∷ [])
  unfolding visit visit_root pure ◌>>=◌
  Visits-environment e = record { calls = ground arith }

  pub Visits-task :
      (n : N) → Visits (map_native m.map_value n) (λ k. task k ∷ []) (λ ts. ts) (task n ∷ [])
  unfolding visit visit_root pure ◌>>=◌
  Visits-task n = record { calls = ground arith }

  module _ {A B : Type 0} {f : A → Effect S Err B} {in_root : A → Root P E N}
      {out_root : B → Root Q D K}
      (one : (a : A) → Visits (f a) (λ b. out_root b ∷ []) (λ ts. ts) (in_root a ∷ [])) where
    pub Visits-map_option :
        (o : Option A)
        → Visits (map_option f o) (option_roots out_root) (λ ts. ts) (option_roots in_root o)
    unfolding visit map_option option_roots
    Visits-map_option none = Visits-none _ refl
    Visits-map_option (some a) = Visits-pure some (one a) (λ b. refl)

    pub Visits-map_vec :
        (as' : List A) → Visits (map_vec f as') (map out_root) (λ ts. ts) (map in_root as')
    unfolding visit map_vec
    Visits-map_vec [] = Visits-none _ refl
    Visits-map_vec (a ∷ as') =
        Visits->>= (λ b. do bs ← map_vec f as'; pure (b ∷ bs)) (one a)
          (λ b. Visits-pure (λ bs. b ∷ bs) (Visits-map_vec as') (λ bs. refl))

    pub Visits-map_option_vec :
        (os : List (Option A))
        → Visits
            (map_option_vec f os)
            (option_list_roots out_root)
            (λ ts. ts)
            (option_list_roots in_root os)
    unfolding visit map_vec map_option_vec option_list_roots
    Visits-map_option_vec [] = Visits-none _ refl
    Visits-map_option_vec (o ∷ os) =
        Visits->>= (λ b. do bs ← map_option_vec f os; pure (b ∷ bs)) (Visits-map_option o)
          (λ b. Visits-pure (λ bs. b ∷ bs) (Visits-map_option_vec os) (λ bs. refl))
