-- ===== src/Types/Tests.antt =====
-- Runs of the type operations at small inputs.
use rex.Prelude.{ℕ, zero, suc, ◌≤◌, [], ◌∷◌, none, some, false, ◌≡◌, ◌↔◌, refl, arith, ◌⊎◌}
use rex.Types.Builtin.{
  BuiltinTypeId, u8, list, dict, from_name, from_name_iff, as_str, builtin_arity,
}
use rex.Types.Syntax.{
  Ty, TypeVar, TypeVarId, TypeConst, var, con, app, fun, record_ty, end, field, builtin_ty, builtin,
  user, con_ty, name_str, const_arity, const_eq, is_builtin,
}
use rex.Types.Inst.{inst, occurs_in}
use rex.Types.Subst.{Subst, get, insert, assign}
use rex.Types.Apply.{apply, apply_with_change}
use rex.Types.Apply.Laws.{apply_with_change-eq, touches}
use rex.Types.Ftv.{ftv, ftv_loop, contains, size, insert_id}
use rex.Types.Ftv.Laws.{ftv_lem, IsAscending}
use rex.Types.Compose.{compose_subst}
use rex.Types.Compose.Laws.{Agree, apply-compose_subst_iff}
use rex.Types.Fragment.{in_fragment, is_rigid}
use rex.Types.Constants.{con_ty_lem}
use rex.Types.Unify.{unify}
use rex.Types.Unify.Compat.{Compat}
use rex.Types.Unify.Solved.{Solved}
use rex.Types.Unify.Absorbs.{by_id}
use rex.Types.Unify.Total.{unify_total, vars_of}
use rex.Types.Unify.Complete.{unify_most_general}
use rex.Types.Unify.HigherRecords.{unify_higher_record}
use rex.Outcome.{ok}
use rex.Outcome.Settles.{Settles}

abbrev t0 : TypeVar
t0 = record { id = 0; name = none }

abbrev t1 : TypeVar
t1 = record { id = 1; name = none }

-- `t0 -> List t1`
abbrev left : Ty
left = fun (var t0) (app (builtin_ty list) (var t1))

-- `{x: t1} -> List u8`
abbrev right : Ty
right = fun (record_ty (field "x" (var t1) end)) (app (builtin_ty list) (builtin_ty u8))

-- `t0` is `{x: u8}`, every other variable `u8`.
abbrev solution : TypeVarId → Ty
solution zero = record_ty (field "x" (builtin_ty u8) end)
solution (suc _) = builtin_ty u8

unify_runs :
    unify 5 left right
    ≡ ok ((0, record_ty (field "x" (builtin_ty u8) end)) ∷ (1, builtin_ty u8) ∷ [])
unfolding unify compose_subst apply apply_with_change ftv ftv_loop contains insert get size
    insert_id const_eq is_builtin
unify_runs = refl

-- A record against a dictionary.
record_as_dict :
    unify 5
      (record_ty (field "x" (builtin_ty u8) (field "y" (builtin_ty u8) end)))
      (app (builtin_ty dict) (var t0))
    ≡ ok ((0, builtin_ty u8) ∷ [])
unfolding unify compose_subst apply apply_with_change ftv ftv_loop contains insert get size
    insert_id const_eq is_builtin
record_as_dict = refl

unify_most_general_example :
    (f : ℕ) × (s : Subst) × ((g : ℕ) → f ≤ g → unify g left right ≡ ok s)
    × Solved false (vars_of left right) s
    × Compat (apply s left) (apply s right)
    × ((v : Ty) → inst (by_id solution) (apply s v) ≡ inst (by_id solution) v)
unify_most_general_example =
    unify_most_general false left right solution (unfold in_fragment is_rigid in refl)
      (unfold in_fragment is_rigid in refl) (unfold inst in refl)

unify_total_example :
    Settles
      (λ g. unify g left right)
      (λ s.
        Solved false (vars_of left right) s
        × ((v : Ty) → apply s (apply s v) ≡ apply s v)
        × Compat (apply s left) (apply s right))
unify_total_example =
    unify_total false left right (unfold in_fragment is_rigid in refl)
      (unfold in_fragment is_rigid in refl)

unify_higher_record_example :
    (s : Subst) × ((g : ℕ)
      → unify
          (suc (suc g))
          (record_ty (field "x" (app (var t0) (builtin_ty u8)) end))
          (app (var t0) (var t1))
        ≡ ok s)
    × (¬ Compat
        (apply s (record_ty (field "x" (app (var t0) (builtin_ty u8)) end)))
        (apply s (app (var t0) (var t1))))
unify_higher_record_example = unify_higher_record "x" (builtin u8) t0 t1 (omega arith)

-- Both maps have an entry for `t0`, and they disagree.
abbrev first_map : Subst
first_map = (0, builtin_ty u8) ∷ []

abbrev second_map : Subst
second_map = (0, builtin_ty list) ∷ (1, var t0) ∷ []

apply-compose_subst_iff_example :
    ((t : Ty) → apply (compose_subst first_map second_map) t ≡ apply first_map (apply second_map t))
    ↔ Agree first_map second_map
apply-compose_subst_iff_example =
    apply-compose_subst_iff first_map second_map (unfold get in (refl, tt))
      (unfold get in (refl, (refl, tt)))

apply_with_change-eq_example :
    apply_with_change second_map left ≡ (inst (assign second_map) left, touches second_map left)
apply_with_change-eq_example = apply_with_change-eq second_map left

ftv_lem_example :
    (ftv_loop (size right) (right ∷ []) [] ≡ some (ftv right))
    × ((id : TypeVarId) → contains id (ftv right) ≡ occurs_in id right)
    × IsAscending (ftv right)
ftv_lem_example = ftv_lem right

from_name_iff_example : (from_name "UUID" ≡ some list) ↔ ("UUID" ≡ as_str list)
from_name_iff_example = from_name_iff "UUID" list

con_ty_lem_example :
    (c : TypeConst) × (con_ty "List" 2 ≡ con c)
    × (name_str c ≡ "List")
    × (const_arity c ≡ 2)
    × (((id : BuiltinTypeId) × (c ≡ builtin id)
          × (from_name "List" ≡ some id)
          × (builtin_arity id ≡ 2))
        ⊎ ((c ≡ user "List" 2)
            × ((id : BuiltinTypeId) → from_name "List" ≡ some id → builtin_arity id ≡ 2 → ⊥)))
con_ty_lem_example = con_ty_lem "List" 2
