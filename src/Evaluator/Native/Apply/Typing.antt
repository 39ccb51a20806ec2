-- ===== src/Evaluator/Native/Apply/Typing.antt =====
-- rex-engine/src/evaluator/mod.rs, `application_result_type`: the type of an application that a task asks
-- for.
use rex.Prelude.{ℕ, ◌≤◌, Bool, ◌≡◌, refl, ◌⊎◌, inl, inr}
use rex.Types.Syntax.{Ty, fun}
use rex.Types.Subst.{Subst}
use rex.Types.Apply.{apply}
use rex.Types.Fragment.{InFragment}
use rex.Types.Unify.{unify}
use rex.Types.Unify.Compat.{Compat}
use rex.Types.Unify.Total.{unify_total}
use rex.Outcome.Settles.{Settles, returns, raises}
use rex.Evaluator.Frame.Effect.{ok, err, pure, ◌>>=◌}
use rex.Evaluator.Native.Scope.{type_mismatch}
use rex.Evaluator.Native.Apply.{application_result_type}

module _ (H : Type 0) (a r arg : Ty) where
  -- The two ways in which the typing of an application ends, on the fuel `g`.
  abbrev pub Typed : ℕ → Subst → Type 0
  Typed f s =
      ((g : ℕ) → f ≤ g → (h : H) → application_result_type g (fun a r) arg h ≡ ok (apply s r) h)
      × Compat (apply s a) (apply s arg)

  abbrev pub Mismatched : ℕ → Type 0
  Mismatched f =
      (g : ℕ)
      → f ≤ g
      → (h : H) → application_result_type g (fun a r) arg h ≡ err (type_mismatch a arg) h

  typed :
      {P : Subst → Type 0}
      → ((s : Subst) → P s → Compat (apply s a) (apply s arg))
      → Settles (λ g. unify g a arg) P
      → (f : ℕ) × (((s : Subst) × Typed f s) ⊎ Mismatched f)
  unfolding application_result_type pure ◌>>=◌
  typed compatible (f, _, same, returns p) =
      (f, inl (_, ((λ g enough h. rw (same g enough) refl), compatible _ p)))
  typed compatible (f, _, same, raises) = (f, inr (λ g enough h. rw (same g enough) refl))

  -- The type that a task gives to an application of a function from `a` to `r` to an argument,
  -- where `a` and the type of the argument are without variables in head position, or without
  -- records: from some fuel on it is `r` with one substitution applied, which makes `a` and the
  -- type of the argument compatible, or the application is refused as a type mismatch.
  pub application_result_type-Typed :
      (higher : Bool)
      → InFragment higher a
      → InFragment higher arg
      → (f : ℕ) × (((s : Subst) × Typed f s) ⊎ Mismatched f)
  application_result_type-Typed higher fa farg =
      typed (λ s (_, _, compatible). compatible) (unify_total higher a arg fa farg)
