-- ===== src/Types/Unify/Step.antt =====
-- One call of `unify`, arm by arm, given that the calls it makes settle.
use rex.Prelude.{◌+◌, [], Bool, true, ◌≡◌, refl, arith, if◌then◌else◌, ◌==◌, ==_iff}
use rex.Types.Syntax.{Ty, Tys, Fields, TypeConst, var, con, app, fun, tuple, record_ty, const_eq}
use rex.Types.Inst.{inst}
use rex.Types.Subst.{Subst}
use rex.Types.Apply.{apply}
use rex.Types.Apply.Laws.{apply-eq-inst}
use rex.Types.Ftv.{size}
use rex.Types.Vars.{Vars}
use rex.Types.Fragment.{is_rigid}
use rex.Types.Unify.{
  unify, unify_pair, unify_tys, unify_fields, unify_dict, tys_len, fields_len, bind,
}
use rex.Types.Unify.Compat.{Compat, same_con, apps, funs, tuples, records}
use rex.Types.Unify.Solved.{Solved, Solved-nil}
use rex.Types.Unify.Loops.{
  Calls, Fits, unify_pair-Settles, unify_tys-Settles, unify_fields-Settles, inst_of_apply,
}
use rex.Types.Unify.Dict.{unify_dict-Settles}
use rex.Types.Unify.Arms.{
  bind-Settles, Fits-fun, Fits-app, Fits-tys, Fits-fields, no_higher, const_eq→eq,
}
use rex.Outcome.{ok, err, unification}
use rex.Outcome.Settles.{Settles, settles_ok, settles_err, settles_if, settles_suc, settles_weaken}

module _ (higher : Bool) (vars : Vars) where
  -- `fun` and `app` alike: what solves both parts solves the whole.
  apply_funs :
      (s : Subst) (l1 r1 l2 r2 : Ty)
      → Compat (apply s l1) (apply s l2)
      → Compat (apply s r1) (apply s r2)
      → Compat (apply s (fun l1 r1)) (apply s (fun l2 r2))
  apply_funs s l1 r1 l2 r2 c d =
      rw (apply-eq-inst s (fun l1 r1), apply-eq-inst s (fun l2 r2))
        (unfold inst in funs (inst_of_apply s l1 l2 c) (inst_of_apply s r1 r2 d))

  apply_apps :
      (s : Subst) (l1 r1 l2 r2 : Ty)
      → Compat (apply s l1) (apply s l2)
      → Compat (apply s r1) (apply s r2)
      → Compat (apply s (app l1 r1)) (apply s (app l2 r2))
  apply_apps s l1 r1 l2 r2 c d =
      rw (apply-eq-inst s (app l1 r1), apply-eq-inst s (app l2 r2))
        (unfold inst in apps (inst_of_apply s l1 l2 c) (inst_of_apply s r1 r2 d))

  abbrev Step : Ty → Ty → Type 0
  Step t u =
      Calls higher vars (size t + size u)
      → Fits higher vars t
      → Fits higher vars u
      → Settles (λ g. unify g t u) (λ s. Solved higher vars s × Compat (apply s t) (apply s u))

  Step-fun : (l1 r1 l2 r2 : Ty) → Step (fun l1 r1) (fun l2 r2)
  Step-fun l1 r1 l2 r2 calls ft fu =
      let (fl1, fr1) = Fits-fun higher vars l1 r1 ft in
      let (fl2, fr2) = Fits-fun higher vars l2 r2 fu in
      settles_suc _ (λ g. unify_pair (unify g) l1 r1 l2 r2) (λ g. unfold unify in refl)
        (settles_weaken _ (λ s ((sol, c), d). (sol, apply_funs s l1 r1 l2 r2 c d))
          (unify_pair-Settles higher vars _ calls l1 r1 l2 r2 fl1 fr1 fl2 fr2
            (unfold size in omega arith) (unfold size in omega arith)))

  Step-app : (l1 r1 l2 r2 : Ty) → Step (app l1 r1) (app l2 r2)
  Step-app l1 r1 l2 r2 calls ft fu =
      let (fl1, fr1, _) = Fits-app higher vars l1 r1 ft in
      let (fl2, fr2, _) = Fits-app higher vars l2 r2 fu in
      settles_suc _ (λ g. unify_pair (unify g) l1 r1 l2 r2) (λ g. unfold unify in refl)
        (settles_weaken _ (λ s ((sol, c), d). (sol, apply_apps s l1 r1 l2 r2 c d))
          (unify_pair-Settles higher vars _ calls l1 r1 l2 r2 fl1 fr1 fl2 fr2
            (unfold size in omega arith) (unfold size in omega arith)))

  Step-tuple : (ts us : Tys) → Step (tuple ts) (tuple us)
  Step-tuple ts us calls ft fu =
      settles_suc _
        (λ g.
          if tys_len ts == tys_len us
          then unify_tys (unify g) [] ts us
          else err (unification (tuple ts) (tuple us)))
        (λ g. unfold unify in refl)
        (settles_if (tys_len ts == tys_len us) _ _
          (λ len.
            settles_weaken _
              (λ s (sol, _, cs). (
                sol,
                rw (apply-eq-inst s (tuple ts), apply-eq-inst s (tuple us))
                    (unfold inst in tuples cs),
              ))
              (unify_tys-Settles higher vars _ calls [] ts us (Solved-nil higher vars)
                ((==_iff _ _).0 len) (Fits-tys higher vars _ calls ts ft)
                (Fits-tys higher vars _ calls us fu) (unfold size in omega arith)))
          (λ _. settles_err (unification (tuple ts) (tuple us))))

  Step-record : (fs gs : Fields) → Step (record_ty fs) (record_ty gs)
  Step-record fs gs calls ft fu =
      settles_suc _
        (λ g.
          if fields_len fs == fields_len gs
          then unify_fields (unify g) [] fs gs
          else err (unification (record_ty fs) (record_ty gs)))
        (λ g. unfold unify in refl)
        (settles_if (fields_len fs == fields_len gs) _ _
          (λ len.
            settles_weaken _
              (λ s (sol, _, cs). (
                sol,
                rw (apply-eq-inst s (record_ty fs), apply-eq-inst s (record_ty gs))
                    (unfold inst in records cs),
              ))
              (unify_fields-Settles higher vars _ calls [] fs gs (Solved-nil higher vars)
                ((==_iff _ _).0 len) (Fits-fields higher vars _ calls fs ft)
                (Fits-fields higher vars _ calls gs fu) (unfold size in omega arith)))
          (λ _. settles_err (unification (record_ty fs) (record_ty gs))))

  rigid_head :
      (fs : Fields) (l r : Ty)
      → Fits higher vars (record_ty fs)
      → Fits higher vars (app l r)
      → is_rigid l ≡ true
  rigid_head fs l r ft fu =
      ground (arith, no_higher higher vars fs ft, (Fits-app higher vars l r fu).2)

  Step-record_app : (fs : Fields) (l r : Ty) → Step (record_ty fs) (app l r)
  Step-record_app fs l r calls ft fu =
      settles_suc _ (λ g. unify_dict (unify g) (record_ty fs) (app l r) fs l r)
        (λ g. unfold unify in refl)
        (settles_weaken _ (λ s (sol, both). (sol, both.0))
          (unify_dict-Settles higher vars _ calls (record_ty fs) (app l r) fs l r
            (rigid_head fs l r ft fu) (Fits-app higher vars l r fu).1
            (Fits-fields higher vars _ calls fs ft) (unfold size in omega arith)))

  Step-app_record : (l r : Ty) (fs : Fields) → Step (app l r) (record_ty fs)
  Step-app_record l r fs calls ft fu =
      settles_suc _ (λ g. unify_dict (unify g) (app l r) (record_ty fs) fs l r)
        (λ g. unfold unify in refl)
        (settles_weaken _ (λ s (sol, both). (sol, both.1))
          (unify_dict-Settles higher vars _ calls (app l r) (record_ty fs) fs l r
            (rigid_head fs l r fu ft) (Fits-app higher vars l r ft).1
            (Fits-fields higher vars _ calls fs fu) (unfold size in omega arith)))

  Step-con : (c d : TypeConst) → Step (con c) (con d)
  Step-con c d calls ft fu =
      settles_suc _ (λ g. if const_eq c d then ok [] else err (unification (con c) (con d)))
        (λ g. unfold unify in refl)
        (settles_if (const_eq c d) _ _
          (λ same. settles_ok [] (
            Solved-nil higher vars,
            rw (apply-eq-inst [] (con c), apply-eq-inst [] (con d))
                (unfold inst in same_con (const_eq→eq c d same)),
          ))
          (λ _. settles_err (unification (con c) (con d))))

  -- The arms of `unify`, in its order.
  pub unify-Step : (t u : Ty) → Step t u
  unfolding unify
  unify-Step (fun l1 r1) (fun l2 r2) calls ft fu = Step-fun l1 r1 l2 r2 calls ft fu
  unify-Step (record_ty fs) (record_ty gs) calls ft fu = Step-record fs gs calls ft fu
  unify-Step (record_ty fs) (app l r) calls ft fu = Step-record_app fs l r calls ft fu
  unify-Step (app l r) (record_ty fs) calls ft fu = Step-app_record l r fs calls ft fu
  unify-Step (app l1 r1) (app l2 r2) calls ft fu = Step-app l1 r1 l2 r2 calls ft fu
  unify-Step (tuple ts) (tuple us) calls ft fu = Step-tuple ts us calls ft fu
  unify-Step (var tv) u calls ft fu =
      settles_suc _ (λ g. bind tv u) (λ g. refl)
        (settles_weaken _ (λ s (sol, c, d). (sol, c)) (bind-Settles higher vars tv u ft fu))
  unify-Step t (var tv) calls ft fu =
      settles_suc _ (λ g. bind tv t) (λ g. refl)
        (settles_weaken _ (λ s (sol, c, d). (sol, d)) (bind-Settles higher vars tv t fu ft))
  unify-Step (con c) (con d) calls ft fu = Step-con c d calls ft fu
  unify-Step t u calls ft fu =
      settles_suc _ (λ g. err (unification t u)) (λ g. refl) (settles_err (unification t u))
