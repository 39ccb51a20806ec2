-- ===== src/Evaluator/Frame/Effect.antt =====
-- A mapper of rex-engine/src/stack.rs is a mutable object whose calls may fail: a computation takes
-- its state, and returns an answer or an error with the state that the calls have left.
use rex.Prelude.{◌≡◌, refl, fun_ext}

pub data Done (S Err A : Type 0) : Type 0 where
  ok : A → S → Done S Err A
  err : Err → S → Done S Err A

abbrev pub Effect : Type 0 → Type 0 → Type 0 → Type 0
Effect S Err A = S → Done S Err A

module _ {S Err : Type 0} where
  unfoldable pub pure : {A : Type 0} → A → Effect S Err A
  pure a s = ok a s

  and_then : {A B : Type 0} → Done S Err A → (A → Effect S Err B) → Done S Err B
  and_then (ok a s) f = f a s
  and_then (err e s) f = err e s

  infixl 1 ◌>>=◌
  unfoldable pub ◌>>=◌ : {A B : Type 0} → Effect S Err A → (A → Effect S Err B) → Effect S Err B
  unfolding and_then
  ◌>>=◌ m f = λ s. and_then (m s) f

  pub pure->>= : {A B : Type 0} (a : A) (f : A → Effect S Err B) → (pure a >>= f) ≡ f a
  unfolding pure ◌>>=◌
  pure->>= a f = refl

  and_then_assoc :
      {A B C : Type 0} (d : Done S Err A) (f : A → Effect S Err B) (g : B → Effect S Err C)
      → and_then (and_then d f) g ≡ and_then d (λ a s. and_then (f a s) g)
  unfolding and_then
  and_then_assoc (ok a s) f g = refl
  and_then_assoc (err e s) f g = refl

  pub >>=_assoc :
      {A B C : Type 0} (m : Effect S Err A) (f : A → Effect S Err B) (g : B → Effect S Err C)
      → ((m >>= f) >>= g) ≡ (m >>= λ a. f a >>= g)
  unfolding ◌>>=◌
  >>=_assoc m f g = fun_ext (λ s. and_then_assoc (m s) f g)

  and_then-pure : {A : Type 0} (d : Done S Err A) → and_then d pure ≡ d
  unfolding and_then pure
  and_then-pure (ok a s) = refl
  and_then-pure (err e s) = refl

  pub >>=-pure : {A : Type 0} (m : Effect S Err A) → (m >>= pure) ≡ m
  unfolding ◌>>=◌
  >>=-pure m = fun_ext (λ s. and_then-pure (m s))

pub ruleset effect_laws = (pure->>=, >>=_assoc)
