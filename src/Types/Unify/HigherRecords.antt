-- ===== src/Types/Unify/HigherRecords.antt =====
-- Outside the two fragments: a record whose field mentions the variable that stands in head
-- position of the other type.
use rex.Prelude.{ℕ, suc, [], ◌∷◌, false, ◌≡◌, ◌≢◌, refl, ap, sym, ◌∙◌, arith, ◌==◌}
use rex.Types.Builtin.{dict}
use rex.Types.Syntax.{
  Symbol, Ty, Fields, TypeVar, TypeConst, var, con, app, record_ty, end, field, builtin_ty, builtin,
}
use rex.Types.Subst.{Subst, insert, get}
use rex.Types.Apply.{apply, apply_with_change}
use rex.Types.Ftv.{ftv, contains, size, ftv_loop, insert_id}
use rex.Types.Compose.{compose_subst}
use rex.Types.Unify.{unify}
use rex.Types.Unify.Compat.{
  Compat, same_var, same_con, apps, funs, tuples, records, dict_left, dict_right, CompatAll,
  field_all,
}
use rex.Outcome.{ok}

-- What is compatible with a variable is one.
Compat-var : {x e : Ty} → Compat x e → (f : TypeVar) → x ≡ var f → (w : TypeVar) × (e ≡ var w)
Compat-var (same_var {b = b} _) f h = (b, refl)
Compat-var (same_con _) f h = cc
Compat-var (apps _ _) f h = cc
Compat-var (funs _ _) f h = cc
Compat-var (tuples _) f h = cc
Compat-var (records _) f h = cc
Compat-var (dict_right _ _ _) f h = cc
Compat-var (dict_left _ _ _) f h = cc

-- What is compatible with an application of a variable is one.
Compat-var_app :
    {x e : Ty}
    → Compat x e
    → (f : TypeVar) (r : Ty) → x ≡ app (var f) r
    → (w : TypeVar) × (r' : Ty) × (e ≡ app (var w) r')
Compat-var_app (same_var _) f r h = cc
Compat-var_app (same_con _) f r h = cc
Compat-var_app (apps {l' = l'} {r' = r'} cl cr) f r h =
    let (w, same) = Compat-var cl f (cc) in (w, r', ap (λ k. app k r') same)
Compat-var_app (funs _ _) f r h = cc
Compat-var_app (tuples _) f r h = cc
Compat-var_app (records _) f r h = cc
Compat-var_app (dict_right _ _ _) f r h = cc
Compat-var_app (dict_left e _ _) f r h = cc

-- An application of a variable is not compatible with one of a constructor.
var_app-not-con_app :
    {x e : Ty}
    → Compat x e
    → (f : TypeVar) (r s : Ty) (d : TypeConst) → x ≡ app (var f) r
    → e ≡ app (con d) s
    → ⊥
var_app-not-con_app c f r s d h k =
    let (w, r', same) = Compat-var_app c f r h in
    let clash : app (var w) r' ≡ app (con d) s = sym same ∙ k in cc

-- The element type of a dictionary joins the two types.
joined : {e t : Ty} {fs : Fields} {n : Symbol} → CompatAll e (field n t fs) → Compat e t
joined (field_all c _) = c

not-Compat :
    {x y : Ty}
    → Compat x y
    → (n : Symbol) (f : TypeVar) (c d : TypeConst)
    → x ≡ record_ty (field n (app (con d) (con c)) end)
    → y ≡ app (con d) (app (var f) (con c))
    → ⊥
not-Compat (same_var _) n f c d h k = cc
not-Compat (same_con _) n f c d h k = cc
not-Compat (apps _ _) n f c d h k = cc
not-Compat (funs _ _) n f c d h k = cc
not-Compat (tuples _) n f c d h k = cc
not-Compat (records _) n f c d h k = cc
not-Compat (dict_right {e} {a} {t} _ ca all) n f c d h k =
    let (w, r', same) = Compat-var_app ca f (con c) (cc) in
    var_app-not-con_app (joined all) w r' (con c) d same (cc)
not-Compat (dict_left _ _ _) n f c d h k = cc

module _ (n : Symbol) (c : TypeConst) (f a : TypeVar) (apart : f.id ≢ a.id) where
  -- `{n: f c}` and `f a`
  abbrev the_record : Ty
  the_record = record_ty (field n (app (var f) (con c)) end)

  abbrev the_app : Ty
  the_app = app (var f) (var a)

  abbrev the_map : Subst
  the_map = (f.id, builtin_ty dict) ∷ (a.id, app (var f) (con c)) ∷ []

  miss : (f.id == a.id) ≡ false
  miss = ground arith

  miss' : (a.id == f.id) ≡ false
  miss' = ground arith

  unify_runs : (g : ℕ) → unify (suc (suc g)) the_record the_app ≡ ok the_map
  unfolding unify ftv contains size insert_id ftv_loop insert compose_subst apply get
      apply_with_change
  unify_runs g = rw (miss, miss') (rw miss refl)

  not_solved : ¬ Compat (apply the_map the_record) (apply the_map the_app)
  not_solved compat = not-Compat compat n f c (builtin dict) record_is app_is
    where
      record_is : apply the_map the_record ≡ record_ty (field n (app (builtin_ty dict) (con c)) end)
      record_is = unfold apply apply_with_change get in ground arith

      app_is : apply the_map the_app ≡ app (builtin_ty dict) (app (var f) (con c))
      app_is = unfold apply apply_with_change get in ground (arith, miss, miss')

-- With type variables in head position and records together `unify` can return a map that does not
-- make its types compatible: for two variables with different ids, a record `{n: f c}` against
-- `f a` gives the map from `f` to `Dict` and from `a` to `f c`, in which `f` is left.
pub unify_higher_record :
    (n : Symbol) (c : TypeConst) (f a : TypeVar)
    → f.id ≢ a.id
    → (s : Subst) × ((g : ℕ)
        → unify (suc (suc g)) (record_ty (field n (app (var f) (con c)) end)) (app (var f) (var a))
          ≡ ok s)
      × (¬ Compat
          (apply s (record_ty (field n (app (var f) (con c)) end)))
          (apply s (app (var f) (var a))))
unify_higher_record n c f a apart =
    (the_map n c f a apart, unify_runs n c f a apart, not_solved n c f a apart)
