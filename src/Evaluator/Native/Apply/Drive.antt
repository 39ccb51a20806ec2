-- ===== src/Evaluator/Native/Apply/Drive.antt =====
-- rex-engine/src/evaluator/native_functions.rs: a task that has one child at a time, together with the
-- evaluation of what it asks for. The evaluation of an expression is a parameter; what is assumed of it
-- is that it applies the one name's value to the other's.
use rex.Prelude.{ℕ, zero, suc, [], Option, none, some, ◌≡◌, refl}
use rex.Types.Syntax.{Ty, Symbol}
use rex.Evaluator.Environment.{Environment, new, extend, get, binding, or_else}
use rex.Evaluator.Frame.Effect.{ok, pure, ◌>>=◌}
use rex.Evaluator.Native.Scope.{Action}
use rex.Evaluator.Native.Apply.{
  TypedExpr, typed, var, app, NativeStep, NativeChildSpec, wait, push, schedule, return,
  application_result_type, synthetic_application_expr, native_apply_spec, native_apply_step,
}

-- `apply` is what the evaluation does with an application of two variables.
abbrev pub Evaluates : {P : Type 0} → (TypedExpr → Environment P → P) → (P → P → P) → Type 0
Evaluates {P} eval apply =
    (r f_type a_type : Ty) (f_name a_name : Symbol) (env : Environment P) (f a : P)
    → get f_name env ≡ some f
    → get a_name env ≡ some a
    → eval (typed r (app (typed f_type (var f_name [])) (typed a_type (var a_name [])))) env
      ≡ apply f a

-- A function of the one type can be applied to an argument of the other.
abbrev pub CanApply : Type 0 → ℕ → Ty → Ty → Type 0
CanApply H fuel func_type arg_type =
    (r : Ty) × ((h : H) → application_result_type fuel func_type arg_type h ≡ ok r h)

module _ {H P : Type 0} (eval : TypedExpr → Environment P → P) {T : Type 0}
    (receive : P → T → Action H (T × NativeStep P)) where
  -- At most this many applications are evaluated, and their values handed back.
  unfoldable pub drive : ℕ → T × NativeStep P → Action H (Option P)
  unfolding pure
  drive n (task, return v) = pure (some v)
  drive zero (task, push expr env) = pure none
  drive (suc n) (task, push expr env) = do next ← receive (eval expr env) task; drive n next
  drive n (task, wait) = pure none
  drive n (task, schedule k) = pure none

-- The application of `f` to `a`, as an expression over an environment of the two.
unfoldable pub called : {P : Type 0} → Ty → P → P → Ty → Ty → NativeChildSpec P
called r f a f_type a_type = record {
  expr =
      typed r (
        app (typed f_type (var "__rex_apply_func" [])) (typed a_type (var "__rex_apply_arg_0" [])));
  env = extend "__rex_apply_arg_0" a (extend "__rex_apply_func" f new);
}

-- An application whose types fit is made, and the heap left alone.
pub native_apply_spec_lem :
    {H P : Type 0} (fuel : ℕ) (f a : P) (f_type a_type : Ty) (h : H)
    (can : CanApply H fuel f_type a_type)
    → native_apply_spec fuel f f_type a a_type h ≡ ok (called can.0 f a f_type a_type) h
unfolding native_apply_spec synthetic_application_expr called pure ◌>>=◌
native_apply_spec_lem fuel f a f_type a_type h (r, can) = rw (can h) refl

-- Its evaluation applies `f` to `a`.
called-apply :
    {P : Type 0} (eval : TypedExpr → Environment P → P) (apply : P → P → P)
    → Evaluates eval apply
    → (r : Ty) (f a : P) (f_type a_type : Ty)
    → eval (called r f a f_type a_type).expr (called r f a f_type a_type).env ≡ apply f a
unfolding called extend new get binding or_else
called-apply eval apply evaluates r f a f_type a_type =
    evaluates r f_type a_type "__rex_apply_func" "__rex_apply_arg_0" _ f a refl refl

module _ {H P : Type 0} (fuel : ℕ) (eval : TypedExpr → Environment P → P) (apply : P → P → P)
    (evaluates : Evaluates eval apply) where
  -- What an application that a task asks for evaluates to.
  pub native_apply_step_lem :
      (f a : P) (f_type a_type : Ty) (h : H)
      → CanApply H fuel f_type a_type
      → (expr : TypedExpr) × (env : Environment P) × (native_apply_step fuel f f_type a a_type h
          ≡ ok (push expr env) h)
        × (eval expr env ≡ apply f a)
  unfolding native_apply_step pure ◌>>=◌
  native_apply_step_lem f a f_type a_type h can =
      let child = called can.0 f a f_type a_type in
      (
        child.expr,
        child.env,
        rw (native_apply_spec_lem fuel f a f_type a_type h can) refl,
        called-apply eval apply evaluates can.0 f a f_type a_type,
      )
