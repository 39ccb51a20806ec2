-- ===== src/Types/Unify/Arms.antt =====
-- Arms of `unify` that make no call, and the parts of types over a set in a fragment.
use rex.Prelude.{ℕ, [], ◌∷◌, Bool, true, false, ◌||◌, ◌≡◌, refl, ap, sym, ◌∙◌, arith, ==_iff}
use text.Mathlib.TextEquality.{eq_iff}
use rex.Types.Syntax.{
  Ty, Tys, Fields, TypeVar, TypeConst, var, con, app, fun, tuple, record_ty, nil, cons, end, field,
  const_eq, builtin, user,
}
use rex.Types.Inst.{inst, inst_ext, inst-var, occurs_in}
use rex.Types.Subst.{Subst, get, insert, assign, or_var}
use rex.Types.Apply.{apply}
use rex.Types.Apply.Laws.{apply-eq-inst}
use rex.Types.Ftv.{ftv, contains}
use rex.Types.Ftv.Laws.{ftv_lem}
use rex.Types.Compose.Laws.{apply-nil}
use rex.Types.Vars.{Vars}
use rex.Types.Fragment.{in_fragment, is_rigid}
use rex.Types.Unify.{bind, is_var}
use rex.Types.Unify.Compat.{Compat, same_var, Compat-refl}
use rex.Types.Unify.Solved.{Solved, Solved-nil, Solved-single}
use rex.Types.Unify.Loops.{Calls, Fits, FitsTys, FitsFields}
use rex.Types.Unify.Dict.{builtin_eq→eq}
use rex.Outcome.{ok, err, occurs}
use rex.Outcome.Settles.{Settles, settles_ok, settles_err, settles_if}

pub const_eq→eq : (c d : TypeConst) → const_eq c d ≡ true → c ≡ d
unfolding const_eq
const_eq→eq (builtin a) (builtin b) h = ap builtin (builtin_eq→eq a b h)
const_eq→eq (user n a) (user m b) h = ground (arith, eq_iff n m)
const_eq→eq (builtin a) (user m b) h = cc
const_eq→eq (user n a) (builtin b) h = cc

is_var→eq :
    (tv : TypeVar) (t : Ty) → is_var tv t ≡ true → (w : TypeVar) × (t ≡ var w) × (w.id ≡ tv.id)
unfolding is_var
is_var→eq tv (var w) h = (w, refl, (==_iff w.id tv.id).0 h)
is_var→eq tv (con c) h = cc
is_var→eq tv _ h = cc

-- The map that `bind` returns takes the variable to the type, and leaves the type as it is.
apply-single :
    (tv : TypeVar) (t : Ty)
    → occurs_in tv.id t ≡ false
    → (apply (insert tv.id t []) (var tv) ≡ t) × (apply (insert tv.id t []) t ≡ t)
unfolding insert
apply-single tv t fresh =
    (apply-eq-inst _ (var tv) ∙ hit, apply-eq-inst _ t ∙ inst_ext _ var t missed ∙ inst-var t)
  where
    hit : inst (assign ((tv.id, t) ∷ [])) (var tv) ≡ t
    hit = unfold inst assign get or_var in ground arith

    missed : (w : TypeVar) → occurs_in w.id t ≡ true → assign ((tv.id, t) ∷ []) w ≡ var w
    missed w o = unfold assign get or_var in ground (arith, ap (λ i. occurs_in i t), fresh, o)

module _ (higher : Bool) (vars : Vars) where
  -- The map solves both types, either way round.
  abbrev pub Solves : Ty → Ty → Subst → Type 0
  Solves t u s =
      Solved higher vars s × Compat (apply s t) (apply s u) × Compat (apply s u) (apply s t)

  bind_same :
      (tv : TypeVar) (t : Ty) → is_var tv t ≡ true → Settles (λ _. ok []) (Solves (var tv) t)
  bind_same tv t h =
      let (w, e, same) = is_var→eq tv t h in
      settles_ok [] (
        Solved-nil higher vars,
        rw (apply-nil (var tv), apply-nil t, e) (same_var (sym same)),
        rw (apply-nil (var tv), apply-nil t, e) (same_var same),
      )

  bind_fresh :
      (tv : TypeVar) (t : Ty)
      → Fits higher vars (var tv)
      → Fits higher vars t
      → occurs_in tv.id t ≡ false
      → Settles (λ _. ok (insert tv.id t [])) (Solves (var tv) t)
  bind_fresh tv t fv ft h =
      let (hit, missed) = apply-single tv t h in
      settles_ok (insert tv.id t []) (
        Solved-single higher vars tv.id t
            (fv.0 tv.id (unfold occurs_in in (==_iff tv.id tv.id).1 refl)) ft.0 ft.1 h,
        rw (hit, missed) (Compat-refl t),
        rw (hit, missed) (Compat-refl t),
      )

  -- A variable against a type, and a type against a variable.
  pub bind-Settles :
      (tv : TypeVar) (t : Ty)
      → Fits higher vars (var tv)
      → Fits higher vars t
      → Settles (λ _. bind tv t) (Solves (var tv) t)
  unfolding bind
  bind-Settles tv t fv ft =
      settles_if (is_var tv t) (λ _. ok []) _ (bind_same tv t)
        λ _.
          settles_if (contains tv.id (ftv t)) (λ _. err (occurs tv.id t))
            (λ _. ok (insert tv.id t [])) (λ _. settles_err (occurs tv.id t))
            λ absent. bind_fresh tv t fv ft (sym ((ftv_lem t).1 tv.id) ∙ absent)

  pub Fits-fun : (l r : Ty) → Fits higher vars (fun l r) → Fits higher vars l × Fits higher vars r
  Fits-fun l r (w, f) = (
    ((λ j o. w j (unfold occurs_in in ground arith)), unfold in_fragment in ground arith),
    ((λ j o. w j (unfold occurs_in in ground arith)), unfold in_fragment in ground arith),
  )

  pub Fits-app :
      (l r : Ty)
      → Fits higher vars (app l r)
      → Fits higher vars l × Fits higher vars r × ((higher || is_rigid l) ≡ true)
  Fits-app l r (w, f) = (
    ((λ j o. w j (unfold occurs_in in ground arith)), unfold in_fragment in ground arith),
    ((λ j o. w j (unfold occurs_in in ground arith)), unfold in_fragment in ground arith),
    unfold in_fragment in ground arith,
  )

  module _ (m : ℕ) (calls : Calls higher vars m) where
    pub Fits-tys : (ts : Tys) → Fits higher vars (tuple ts) → FitsTys higher vars m calls ts
    Fits-tys nil f = tt
    Fits-tys (cons t ts) (w, f) = (
      ((λ j o. w j (unfold occurs_in in ground arith)), unfold in_fragment in ground arith),
      Fits-tys ts
          ((λ j o. w j (unfold occurs_in in ground arith)), unfold in_fragment in ground arith),
    )

    pub Fits-fields :
        (fs : Fields) → Fits higher vars (record_ty fs) → FitsFields higher vars m calls fs
    Fits-fields end f = tt
    Fits-fields (field n t fs) (w, f) = (
      ((λ j o. w j (unfold occurs_in in ground arith)), unfold in_fragment in ground arith),
      Fits-fields fs
          ((λ j o. w j (unfold occurs_in in ground arith)), unfold in_fragment in ground arith),
    )

  -- With a record in the fragment, no head is a variable.
  pub no_higher : (fs : Fields) → Fits higher vars (record_ty fs) → higher ≡ false
  no_higher fs (w, f) = unfold in_fragment in ground arith

  pub swap_ways : (t u : Ty) (s : Subst) → Solves t u s → Solves u t s
  swap_ways t u s (sol, c, d) = (sol, d, c)
