-- ===== src/Types/Apply.antt =====
-- rex-typesystem/src/types.rs, `Type::apply_with_change` and the `apply` of `trait Types`.
-- A substitution is applied without rebuilding what it leaves alone: every step returns the new
-- type with a flag that says whether anything was replaced.
pub mod Laws
use rex.Prelude.{List, [], ◌∷◌, Option, none, some, Bool, true, false, ◌||◌, if◌then◌else◌}
use rex.Types.Syntax.{
  Ty, Tys, Fields, var, con, app, fun, tuple, record_ty, nil, cons, end, field, TypeVar, Symbol,
}
use rex.Types.Subst.{Subst, get}

change_var : TypeVar → Option Ty → Ty × Bool
change_var tv (some ty) = (ty, true)
change_var tv none = (var tv, false)

change_app : Ty → Ty → Ty × Bool → Ty × Bool → Ty × Bool
change_app l r (l_new, l_changed) (r_new, r_changed) =
    if l_changed || r_changed then (app l_new r_new, true) else (app l r, false)

change_tuple : Tys → Tys × Bool → Ty × Bool
change_tuple ts (out, changed) = if changed then (tuple out, true) else (tuple ts, false)

change_record : Fields → Fields × Bool → Ty × Bool
change_record fs (out, changed) = if changed then (record_ty out, true) else (record_ty fs, false)

push_ty : Ty × Bool → Tys × Bool → Tys × Bool
push_ty (t_new, t_changed) (out, changed) = (cons t_new out, t_changed || changed)

push_field : Symbol → Ty × Bool → Fields × Bool → Fields × Bool
push_field k (v_new, v_changed) (out, changed) = (field k v_new out, v_changed || changed)

-- What the loop over a chain `a1 -> a2 -> ... -> r` has gathered: the new arguments, the new
-- result at its end, and whether anything changed.
record Chain : Type 0 where
  args : List Ty
  ret : Ty
  changed : Bool

chain_end : Ty × Bool → Chain
chain_end (t, b) = record { args = []; ret = t; changed = b }

chain_arg : Ty × Bool → Chain → Chain
chain_arg (a_new, a_changed) c = record {
  args = a_new ∷ c.args;
  ret = c.ret;
  changed = a_changed || c.changed;
}

-- `for a_new in args.into_iter().rev()`
rebuild : List Ty → Ty → Ty
rebuild [] ret = ret
rebuild (a_new ∷ args) ret = fun a_new (rebuild args ret)

change_fun : Ty → Ty → Chain → Ty × Bool
unfolding rebuild
change_fun a b c = if c.changed then (rebuild c.args c.ret, true) else (fun a b, false)

-- `apply_chain` is the `while` loop: it stops at the first type that is no function, and applies
-- the substitution there.
unfoldable mutual
  unfolding change_var change_app change_tuple change_record push_ty push_field chain_end chain_arg
      change_fun

  pub apply_with_change : Subst → Ty → Ty × Bool
  apply_with_change s (var tv) = change_var tv (get tv.id s)
  apply_with_change s (con c) = (con c, false)
  apply_with_change s (app l r) = change_app l r (apply_with_change s l) (apply_with_change s r)
  apply_with_change s (fun a b) =
      change_fun a b (chain_arg (apply_with_change s a) (apply_chain s b))
  apply_with_change s (tuple ts) = change_tuple ts (apply_tys s ts)
  apply_with_change s (record_ty fs) = change_record fs (apply_fields s fs)

  apply_chain : Subst → Ty → Chain
  apply_chain s (var tv) = chain_end (change_var tv (get tv.id s))
  apply_chain s (con c) = chain_end (con c, false)
  apply_chain s (app l r) =
      chain_end (change_app l r (apply_with_change s l) (apply_with_change s r))
  apply_chain s (fun a b) = chain_arg (apply_with_change s a) (apply_chain s b)
  apply_chain s (tuple ts) = chain_end (change_tuple ts (apply_tys s ts))
  apply_chain s (record_ty fs) = chain_end (change_record fs (apply_fields s fs))

  apply_tys : Subst → Tys → Tys × Bool
  apply_tys s nil = (nil, false)
  apply_tys s (cons t ts) = push_ty (apply_with_change s t) (apply_tys s ts)

  apply_fields : Subst → Fields → Fields × Bool
  apply_fields s end = (end, false)
  apply_fields s (field k v fs) = push_field k (apply_with_change s v) (apply_fields s fs)

unfoldable pub apply : Subst → Ty → Ty
apply s t = (apply_with_change s t).0
