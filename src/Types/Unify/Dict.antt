-- ===== src/Types/Unify/Dict.antt =====
-- A record against an application of `Dict`.
use rex.Prelude.{ℕ, ◌<◌, ◌+◌, Bool, true, ◌≡◌, ap, arith, decide}
use mathlib.Core.Bool.{false≢true}
use rex.Types.Builtin.{BuiltinTypeId, BuiltinTypeId-discrete, dict}
use rex.Types.Syntax.{
  Symbol, Ty, Fields, TypeConst, var, con, app, record_ty, end, field, is_builtin, builtin_eq,
  builtin, user,
}
use rex.Types.Inst.{inst, inst_fields}
use rex.Types.Apply.{apply}
use rex.Types.Apply.Laws.{apply-eq-inst}
use rex.Types.Subst.{Subst, assign}
use rex.Types.Ftv.{size, size_fields}
use rex.Types.Compose.{compose_subst}
use rex.Types.Vars.{Vars}
use rex.Types.Fragment.{is_rigid}
use rex.Types.Unify.{unify, unify_dict, record_elem_type}
use rex.Types.Unify.Compat.{Compat, CompatAll, end_all, field_all, dict_left, dict_right}
use rex.Types.Unify.Solved.{Solved}
use rex.Types.Unify.Loops.{Calls, Fits, FitsFields, advance, inst_of_apply}
use rex.Types.Unify.Elements.{AllAt, AllAt-Later, record_elem_type-Settles}
use rex.Outcome.{ok, err, unification, unsupported_expr, ◌>>=◌}
use rex.Outcome.Settles.{Settles, settles_ok, settles_err, settles_bind, settles_if}

pub builtin_eq→eq : (a b : BuiltinTypeId) → builtin_eq a b ≡ true → a ≡ b
unfolding builtin_eq decide
builtin_eq→eq a b h = holds (BuiltinTypeId-discrete a b) h
  where
    holds : {P : Type 0} (d : Dec P) → decide d ≡ true → P
    holds (yes p) e = p
    holds (no n) e = absurd (false≢true e)

is_builtin→eq : (c : TypeConst) (id : BuiltinTypeId) → is_builtin c id ≡ true → c ≡ builtin id
unfolding is_builtin
is_builtin→eq (builtin a) id h = ap builtin (builtin_eq→eq a id h)
is_builtin→eq (user n k) id h = cc

-- The map makes a dictionary and a record compatible, either way round.
abbrev pub BothWays : Subst → Fields → Ty → Type 0
BothWays s fields dict_type =
    Compat (apply s (record_ty fields)) (apply s dict_type)
    × Compat (apply s dict_type) (apply s (record_ty fields))

module _ (higher : Bool) (vars : Vars) (m : ℕ) (calls : Calls higher vars m) where
  all_of_AllAt :
      (s : Subst) (first : Ty) (fs : Fields)
      → AllAt higher vars m calls s first fs
      → CompatAll (inst (assign s) first) (inst_fields (assign s) fs)
  unfolding inst
  all_of_AllAt s first end a = end_all
  all_of_AllAt s first (field n t fs) a =
      field_all (inst_of_apply s first t a.0) (all_of_AllAt s first fs a.1)

  both_ways :
      (s : Subst) (n : Symbol) (first : Ty) (fs : Fields) (c : TypeConst) (arg : Ty)
      → c ≡ builtin dict
      → Compat (apply s arg) (apply s first)
      → AllAt higher vars m calls s first (field n first fs)
      → BothWays s (field n first fs) (app (con c) arg)
  both_ways s n first fs c arg is_dict compat all =
      let all' = all_of_AllAt s first (field n first fs) all in
      let arg' = inst_of_apply s arg first compat in
      rw (apply-eq-inst s (record_ty (field n first fs)), apply-eq-inst s (app (con c) arg))
        (unfold inst in
          (dict_right (ap con is_dict) arg' all', dict_left (ap con is_dict) arg' all'))

  dict_arm :
      (t1 t2 : Ty) (fields : Fields) (c : TypeConst) (arg : Ty)
      → c ≡ builtin dict
      → Fits higher vars arg
      → FitsFields higher vars m calls fields
      → size arg + size_fields fields < m
      → Settles
          (λ g. record_elem_type (unify g) fields >>= λ (s_fields, elem_ty).
            unify g (apply s_fields arg) elem_ty >>= λ s_arg. ok (compose_subst s_arg s_fields))
          (λ s. Solved higher vars s × BothWays s fields (app (con c) arg))
  dict_arm t1 t2 end c arg is_dict fa ff small =
      unfold record_elem_type in settles_err (unsupported_expr "empty record")
  dict_arm t1 t2 (field n first fs) c arg is_dict fa ff small =
      settles_bind (λ g. record_elem_type (unify g) (field n first fs))
        (λ p g. unify g (apply p.0 arg) p.1 >>= λ s_arg. ok (compose_subst s_arg p.0))
        (record_elem_type-Settles higher vars m calls n first fs ff.0 ff.1
          (unfold size in omega arith))
        λ p (sol, same, all). rw same (
          advance higher vars m calls p.0 arg first (λ s _. ok s) sol fa ff.0
            (unfold size in omega arith)
            λ s later (sol', c'). settles_ok s (
              sol',
              both_ways s n first fs c arg is_dict c'
                  (AllAt-Later higher vars m calls p.0 s first (field n first fs) later all),
            ))

  -- In either fragment the arm settles: with records there are no heads that are variables.
  pub unify_dict-Settles :
      (t1 t2 : Ty) (fields : Fields) (head arg : Ty)
      → is_rigid head ≡ true
      → Fits higher vars arg
      → FitsFields higher vars m calls fields
      → size arg + size_fields fields < m
      → Settles
          (λ g. unify_dict (unify g) t1 t2 fields head arg)
          (λ s. Solved higher vars s × BothWays s fields (app head arg))
  unfolding unify_dict is_rigid
  unify_dict-Settles t1 t2 fields (con c) arg rigid fa ff small =
      settles_if (is_builtin c dict) _ (λ _. err (unification t1 t2))
        (λ h. dict_arm t1 t2 fields c arg (is_builtin→eq c dict h) fa ff small)
        (λ _. settles_err (unification t1 t2))
  unify_dict-Settles t1 t2 fields (var tv) arg rigid fa ff small = cc
  unify_dict-Settles t1 t2 fields head arg rigid fa ff small = settles_err (unification t1 t2)
