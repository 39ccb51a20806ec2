-- ===== src/Types/Unify/Compat.antt =====
-- When two types are compatible: equal up to the printed names of type variables, where a record
-- stands for a dictionary if one element type is compatible with all its fields.
use rex.Prelude.{◌≡◌, refl, Option, none, some, ap, subst}
use rex.Types.Builtin.{dict}
use rex.Types.Syntax.{
  Ty, Tys, Fields, Symbol, TypeVar, TypeConst, var, con, app, fun, tuple, record_ty, nil, cons, end,
  field, builtin_ty,
}
use rex.Types.Inst.{inst, inst_tys, inst_fields}
use rex.Types.Subst.{Subst, get, assign, or_var}

mutual
  pub data Compat : Ty → Ty → Type 0 where
    same_var : {a b : TypeVar} → a.id ≡ b.id → Compat (var a) (var b)
    same_con : {c d : TypeConst} → c ≡ d → Compat (con c) (con d)
    apps : {l l' r r' : Ty} → Compat l l' → Compat r r' → Compat (app l r) (app l' r')
    funs : {l l' r r' : Ty} → Compat l l' → Compat r r' → Compat (fun l r) (fun l' r')
    tuples : {ts us : Tys} → CompatTys ts us → Compat (tuple ts) (tuple us)
    records : {fs gs : Fields} → CompatFields fs gs → Compat (record_ty fs) (record_ty gs)
    dict_right :
        {e a t d : Ty} {n : Symbol} {fs : Fields}
        → d ≡ builtin_ty dict
        → Compat a e
        → CompatAll e (field n t fs)
        → Compat (record_ty (field n t fs)) (app d a)
    dict_left :
        {e a t d : Ty} {n : Symbol} {fs : Fields}
        → d ≡ builtin_ty dict
        → Compat a e
        → CompatAll e (field n t fs)
        → Compat (app d a) (record_ty (field n t fs))

  pub data CompatTys : Tys → Tys → Type 0 where
    no_tys : CompatTys nil nil
    each_ty :
        {t u : Ty} {ts us : Tys} → Compat t u → CompatTys ts us → CompatTys (cons t ts) (cons u us)

  pub data CompatFields : Fields → Fields → Type 0 where
    no_fields : CompatFields end end
    each_field :
        {n m : Symbol} {t u : Ty} {fs gs : Fields}
        → n ≡ m
        → Compat t u
        → CompatFields fs gs
        → CompatFields (field n t fs) (field m u gs)

  -- `e` is compatible with every field's type.
  pub data CompatAll : Ty → Fields → Type 0 where
    end_all : {e : Ty} → CompatAll e end
    field_all :
        {e t : Ty} {n : Symbol} {fs : Fields}
        → Compat e t
        → CompatAll e fs
        → CompatAll e (field n t fs)

mutual
  Compat-refl_ty : (t : Ty) → Compat t t
  Compat-refl_ty (var tv) = same_var refl
  Compat-refl_ty (con c) = same_con refl
  Compat-refl_ty (app l r) = apps (Compat-refl_ty l) (Compat-refl_ty r)
  Compat-refl_ty (fun l r) = funs (Compat-refl_ty l) (Compat-refl_ty r)
  Compat-refl_ty (tuple ts) = tuples (Compat-refl_tys ts)
  Compat-refl_ty (record_ty fs) = records (Compat-refl_fields fs)

  Compat-refl_tys : (ts : Tys) → CompatTys ts ts
  Compat-refl_tys nil = no_tys
  Compat-refl_tys (cons t ts) = each_ty (Compat-refl_ty t) (Compat-refl_tys ts)

  Compat-refl_fields : (fs : Fields) → CompatFields fs fs
  Compat-refl_fields end = no_fields
  Compat-refl_fields (field n t fs) = each_field refl (Compat-refl_ty t) (Compat-refl_fields fs)

pub Compat-refl : (t : Ty) → Compat t t
Compat-refl t = Compat-refl_ty t

-- A map looks at a variable's id alone.
assign-Compat : (s : Subst) (a b : TypeVar) → a.id ≡ b.id → Compat (assign s a) (assign s b)
unfolding assign
assign-Compat s a b e =
    subst (λ o. Compat (or_var a (get a.id s)) (or_var b o)) (ap (λ k. get k s) e)
      (pick (get a.id s))
  where
    pick : (o : Option Ty) → Compat (or_var a o) (or_var b o)
    pick none = unfold or_var in same_var e
    pick (some t) = unfold or_var in Compat-refl t

mutual
  unfolding inst

  inst-Compat_ty :
      (s : Subst) {t u : Ty} → Compat t u → Compat (inst (assign s) t) (inst (assign s) u)
  inst-Compat_ty s (same_var {a} {b} e) = assign-Compat s a b e
  inst-Compat_ty s (same_con e) = same_con e
  inst-Compat_ty s (apps l r) = apps (inst-Compat_ty s l) (inst-Compat_ty s r)
  inst-Compat_ty s (funs l r) = funs (inst-Compat_ty s l) (inst-Compat_ty s r)
  inst-Compat_ty s (tuples ts) = tuples (inst-Compat_tys s ts)
  inst-Compat_ty s (records fs) = records (inst-Compat_fields s fs)
  inst-Compat_ty s (dict_right e a fs) =
      dict_right (ap (inst (assign s)) e) (inst-Compat_ty s a) (inst-Compat_all s fs)
  inst-Compat_ty s (dict_left e a fs) =
      dict_left (ap (inst (assign s)) e) (inst-Compat_ty s a) (inst-Compat_all s fs)

  inst-Compat_tys :
      (s : Subst) {t u : Tys}
      → CompatTys t u
      → CompatTys (inst_tys (assign s) t) (inst_tys (assign s) u)
  inst-Compat_tys s no_tys = no_tys
  inst-Compat_tys s (each_ty t ts) = each_ty (inst-Compat_ty s t) (inst-Compat_tys s ts)

  inst-Compat_fields :
      (s : Subst) {t u : Fields}
      → CompatFields t u
      → CompatFields (inst_fields (assign s) t) (inst_fields (assign s) u)
  inst-Compat_fields s no_fields = no_fields
  inst-Compat_fields s (each_field e t ts) =
      each_field e (inst-Compat_ty s t) (inst-Compat_fields s ts)

  inst-Compat_all :
      (s : Subst) {e : Ty} {fs : Fields}
      → CompatAll e fs
      → CompatAll (inst (assign s) e) (inst_fields (assign s) fs)
  inst-Compat_all s end_all = end_all
  inst-Compat_all s (field_all t ts) = field_all (inst-Compat_ty s t) (inst-Compat_all s ts)

-- Compatible types stay compatible under a substitution.
pub inst-Compat :
    (s : Subst) {t u : Ty} → Compat t u → Compat (inst (assign s) t) (inst (assign s) u)
inst-Compat s c = inst-Compat_ty s c

pub inst-CompatAll :
    (s : Subst) {e : Ty} {fs : Fields}
    → CompatAll e fs
    → CompatAll (inst (assign s) e) (inst_fields (assign s) fs)
inst-CompatAll s c = inst-Compat_all s c
