-- ===== src/Outcome.antt =====
-- The outcome of a fallible computation of rex-typesystem: `Result<A, TypeError>`, and a third
-- case for a model whose fuel ran out.
pub mod Settles
use rex.Prelude.{String, ◌≡◌, if◌then◌else◌, Bool, true, false}
use rex.Types.Syntax.{Ty, TypeVarId}

-- rex-typesystem/src/error.rs, `TypeError`: what unification raises. The source keeps the types
-- printed; the model keeps them as they are.
pub data TypeError : Type 0 where
  unification : Ty → Ty → TypeError
  occurs : TypeVarId → Ty → TypeError
  unsupported_expr : String → TypeError

pub data Outcome {ℓ} (A : Type ℓ) : Type ℓ where
  ok : A → Outcome A
  err : TypeError → Outcome A
  out_of_fuel : Outcome A

infixl 1 ◌>>=◌
abbrev pub ◌>>=◌ {ℓ κ} : {A : Type ℓ} {B : Type κ} → Outcome A → (A → Outcome B) → Outcome B
ok a >>= f = f a
err e >>= f = err e
out_of_fuel >>= f = out_of_fuel
