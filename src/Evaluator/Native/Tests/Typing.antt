-- ===== src/Evaluator/Native/Tests/Typing.antt =====
-- The type of an application at a function whose type has a variable.
use rex.Prelude.{ℕ, false, none, ◌⊎◌, refl}
use rex.Types.Syntax.{Ty, var, fun}
use rex.Types.Subst.{Subst}
use rex.Types.Fragment.{in_fragment, is_rigid}
use rex.Evaluator.Native.Apply.Typing.{Typed, Mismatched, application_result_type-Typed}
use rex.Evaluator.Native.Tests.Store.{u8_ty}

abbrev element : Ty
element = var (record { id = 0; name = none })

application_result_type-Typed_example :
    (f : ℕ) × (((s : Subst) × Typed Unit element (fun element u8_ty) u8_ty f s)
      ⊎ Mismatched Unit element (fun element u8_ty) u8_ty f)
application_result_type-Typed_example =
    application_result_type-Typed Unit element (fun element u8_ty) u8_ty false
      (unfold in_fragment is_rigid in refl) (unfold in_fragment is_rigid in refl)
