-- ===== src/Evaluator/Native/Apply.antt =====
-- rex-engine/src/evaluator/native_functions.rs: the application of a function to an argument that a
-- task asks for, as a typed expression over an environment of two names; and the answers of a task.
pub mod Drive
pub mod Typing
use rex.Prelude.{ℕ, Bool, List, [], ◌∷◌, Option, none, some, String}
use rex.Types.Syntax.{Ty, Symbol, fun, con, app as app_ty, is_builtin}
use rex.Types.Builtin.{BuiltinTypeId, f32, f64}
use rex.Types.Subst.{Subst}
use rex.Types.Apply.{apply}
use rex.Types.Unify.{unify}
use rex.Outcome.{Outcome}
use rex.Outcome
use rex.Evaluator.FrameStore.{FrameId}
use rex.Evaluator.Environment.{Environment, new, extend}
use rex.Evaluator.Frame.Effect.{Effect, pure, ◌>>=◌}
use rex.Evaluator.Native.Scope.{
  Action, RootScope, EngineError, fail, ok_or, internal, not_callable, type_mismatch, spent,
}

-- rex-typesystem/src/types.rs, `TypedExpr` and `TypedExprKind`: the two kinds that a task builds.
mutual
  pub data TypedExpr : Type 0 where
    typed : Ty → TypedExprKind → TypedExpr

  pub data TypedExprKind : Type 0 where
    var : Symbol → List Ty → TypedExprKind
    app : TypedExpr → TypedExpr → TypedExprKind

pub data NativeStep (P : Type 0) : Type 0 where
  wait : NativeStep P
  push : TypedExpr → Environment P → NativeStep P
  schedule : ℕ → NativeStep P
  return : P → NativeStep P

-- A child to be evaluated: an expression and its environment.
pub record NativeChildSpec (P : Type 0) : Type 0 where
  pub expr : TypedExpr
  pub env : Environment P

-- rex-engine/src/util.rs
unfoldable pub split_fun : Ty → Option (Ty × Ty)
split_fun (fun a b) = some (a, b)
split_fun _ = none

module _ {H : Type 0} (fuel : ℕ) where
  unified : Ty → Ty → Outcome Subst → Action H Subst
  unfolding fail pure
  unified expected got (Outcome.ok subst) = pure subst
  unified expected got (Outcome.err _) = fail (type_mismatch expected got)
  unified expected got Outcome.out_of_fuel = fail spent

  parts : Ty → Option (Ty × Ty) → Action H (Ty × Ty)
  unfolding fail pure
  parts func_type none = fail (not_callable func_type)
  parts func_type (some p) = pure p

  -- rex-engine/src/evaluator/mod.rs
  unfoldable pub application_result_type : Ty → Ty → Action H Ty
  unfolding split_fun unified parts
  application_result_type func_type arg_type = do
    (expected_arg, result) ← parts func_type (split_fun func_type)
    subst ← unified expected_arg arg_type (unify fuel expected_arg arg_type)
    pure (apply subst result)

  -- `synthetic_application_expr`, for the one argument that every caller gives.
  unfoldable pub synthetic_application_expr :
      {P : Type 0} → P → Ty → P → Ty → Action H (Environment P × TypedExpr)
  unfolding new extend
  synthetic_application_expr func func_type arg arg_type = do
    let func_env = extend "__rex_apply_func" func new
    let env = extend "__rex_apply_arg_0" arg func_env
    result_type ← application_result_type func_type arg_type
    pure (
      env,
      typed result_type (
          app (typed func_type (var "__rex_apply_func" []))
            (typed arg_type (var "__rex_apply_arg_0" []))),
    )

  unfoldable pub native_apply_spec : {P : Type 0} → P → Ty → P → Ty → Action H (NativeChildSpec P)
  native_apply_spec func func_type arg arg_type = do
    (env, expr) ← synthetic_application_expr func func_type arg arg_type
    pure (record { expr = expr; env = env })

  unfoldable pub native_apply_step : {P : Type 0} → P → Ty → P → Ty → Action H (NativeStep P)
  native_apply_step func func_type arg arg_type = do
    spec ← native_apply_spec func func_type arg arg_type
    pure (push spec.expr spec.env)

unfoldable pub native_eval_var_step : {P : Type 0} → Symbol → Ty → NativeStep P
native_eval_var_step name typ = push (typed typ (var name [])) new

unfoldable pub binary_same_type : Ty → Ty
binary_same_type typ = fun typ (fun typ typ)
