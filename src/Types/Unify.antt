-- ===== src/Types/Unify.antt =====
-- rex-typesystem/src/unification.rs, the pure unifier: `bind`, `record_elem_type` and `unify`. It
-- recurs on types that substitutions have made, so it takes fuel, one unit a nested call; the loops
-- over vectors take the nested call as an argument.
pub mod Compat
pub mod Solved
pub mod Loops
pub mod Elements
pub mod Dict
pub mod Arms
pub mod Step
pub mod Total
pub mod Absorbs
pub mod Complete
pub mod HigherRecords
use rex.Prelude.{ℕ, zero, suc, [], ◌∷◌, Bool, true, false, ◌&&◌, if◌then◌else◌, ◌==◌}
use text.Mathlib.Text.{◌==◌ as str_eq}
use rex.Types.Builtin.{dict}
use rex.Types.Syntax.{
  Ty, Tys, Fields, TypeVar, TypeConst, var, con, app, fun, tuple, record_ty, nil, cons, end, field,
  builtin_ty, const_eq, is_builtin,
}
use rex.Types.Subst.{Subst, insert}
use rex.Types.Apply.{apply}
use rex.Types.Ftv.{ftv, contains}
use rex.Types.Compose.{compose_subst}
use rex.Outcome.{Outcome, ok, err, out_of_fuel, unification, occurs, unsupported_expr, ◌>>=◌}

unfoldable pub is_var : TypeVar → Ty → Bool
is_var tv (var tv') = tv'.id == tv.id
is_var tv _ = false

unfoldable pub bind : TypeVar → Ty → Outcome Subst
unfolding is_var
bind tv t =
    if is_var tv t
    then ok []
    else if contains tv.id (ftv t)
    then err (occurs tv.id t)
    else ok (insert tv.id t [])

unfoldable pub tys_len : Tys → ℕ
tys_len nil = 0
tys_len (cons _ ts) = suc (tys_len ts)

unfoldable pub fields_len : Fields → ℕ
fields_len end = 0
fields_len (field _ _ fs) = suc (fields_len fs)

abbrev pub Unify : Type 0
Unify = Ty → Ty → Outcome Subst

-- The two calls of the `Fun` and `App` arms.
pub unify_pair : Unify → Ty → Ty → Ty → Ty → Outcome Subst
unify_pair u l1 r1 l2 r2 = do
  s1 ← u l1 l2
  s2 ← u (apply s1 r1) (apply s1 r2)
  ok (compose_subst s2 s1)

-- The loop of the `Tuple` arm; `zip` stops at the shorter vector.
pub unify_tys : Unify → Subst → Tys → Tys → Outcome Subst
unify_tys u s (cons a ts1) (cons b ts2) = do
  s_next ← u (apply s a) (apply s b)
  unify_tys u (compose_subst s_next s) ts1 ts2
unify_tys u s nil _ = ok s
unify_tys u s (cons _ _) nil = ok s

-- The loop of the `Record` arm. Its error names the two fields' types.
pub unify_fields : Unify → Subst → Fields → Fields → Outcome Subst
unify_fields u subst (field n1 t1 fs1) (field n2 t2 fs2) =
    let rest = do
      s_next ← u (apply subst t1) (apply subst t2)
      unify_fields u (compose_subst s_next subst) fs1 fs2
    in if str_eq n1 n2 then rest else err (unification t1 t2)
unify_fields u subst end _ = ok subst
unify_fields u subst (field _ _ _) end = ok subst

pub record_elem_rest : Unify → Subst → Ty → Fields → Outcome (Subst × Ty)
record_elem_rest u subst current end = ok (subst, apply subst current)
record_elem_rest u subst current (field _ ty fs) = do
  s_next ← u (apply subst current) (apply subst ty)
  let subst' = compose_subst s_next subst
  record_elem_rest u subst' (apply subst' current) fs

pub record_elem_type : Unify → Fields → Outcome (Subst × Ty)
unfolding record_elem_rest
record_elem_type u end = err (unsupported_expr "empty record")
record_elem_type u (field _ ty fs) = record_elem_rest u [] ty fs

-- The arm of a record against an application, by the head of the application.
pub unify_dict : Unify → Ty → Ty → Fields → Ty → Ty → Outcome Subst
unfolding record_elem_type
unify_dict u t1 t2 fields (con c) arg =
    if is_builtin c dict
    then (do
      (s_fields, elem_ty) ← record_elem_type u fields
      s_arg ← u (apply s_fields arg) elem_ty
      ok (compose_subst s_arg s_fields))
    else err (unification t1 t2)
unify_dict u t1 t2 fields (var tv) arg = do
  s_head ← bind tv (builtin_ty dict)
  (s_fields, elem_ty) ← record_elem_type u fields
  s_arg ← u (apply s_fields (apply s_head arg)) elem_ty
  ok (compose_subst s_arg (compose_subst s_fields s_head))
unify_dict u t1 t2 fields _ arg = err (unification t1 t2)

unfoldable pub unify : ℕ → Ty → Ty → Outcome Subst
unfolding bind unify_pair unify_tys unify_fields unify_dict
unify zero t1 t2 = out_of_fuel
unify (suc f) (fun l1 r1) (fun l2 r2) = unify_pair (unify f) l1 r1 l2 r2
unify (suc f) (record_ty f1) (record_ty f2) =
    if fields_len f1 == fields_len f2
    then unify_fields (unify f) [] f1 f2
    else err (unification (record_ty f1) (record_ty f2))
unify (suc f) (record_ty fields) (app head arg) =
    unify_dict (unify f) (record_ty fields) (app head arg) fields head arg
unify (suc f) (app head arg) (record_ty fields) =
    unify_dict (unify f) (app head arg) (record_ty fields) fields head arg
unify (suc f) (app l1 r1) (app l2 r2) = unify_pair (unify f) l1 r1 l2 r2
unify (suc f) (tuple ts1) (tuple ts2) =
    if tys_len ts1 == tys_len ts2
    then unify_tys (unify f) [] ts1 ts2
    else err (unification (tuple ts1) (tuple ts2))
unify (suc f) (var tv) t = bind tv t
unify (suc f) t (var tv) = bind tv t
unify (suc f) (con c1) (con c2) =
    if const_eq c1 c2 then ok [] else err (unification (con c1) (con c2))
unify (suc f) t1 t2 = err (unification t1 t2)
