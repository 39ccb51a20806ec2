-- ===== src/Types/Vars.antt =====
-- Sets of type variables as lists of ids, and the types over them: what is left of a set once a
-- map has replaced its keys.
use rex.Prelude.{
  ◌<◌, ◌≤◌, List, [], ◌∷◌, none, some, Bool, true, false, not, ◌&&◌, ◌≡◌, refl, ap, ◌↔◌, arith,
  if◌then◌else◌, length,
}
use rex.Types.Syntax.{
  Ty, Tys, Fields, TypeVar, TypeVarId, var, con, app, fun, tuple, record_ty, nil, cons, end, field,
}
use rex.Types.Inst.{
  Assignment, inst, inst_tys, inst_fields, occurs_in, occurs_in_tys, occurs_in_fields,
}
use rex.Types.Ftv.{contains}
use rex.Types.Subst.{Subst, get}

abbrev pub Vars : Type 0
Vars = List TypeVarId

-- Every variable of the type is in the set.
abbrev pub Within : Vars → Ty → Type 0
Within vars t = (j : TypeVarId) → occurs_in j t ≡ true → contains j vars ≡ true

abbrev pub WithinTys : Vars → Tys → Type 0
WithinTys vars ts = (j : TypeVarId) → occurs_in_tys j ts ≡ true → contains j vars ≡ true

abbrev pub WithinFields : Vars → Fields → Type 0
WithinFields vars fs = (j : TypeVarId) → occurs_in_fields j fs ≡ true → contains j vars ≡ true

unfoldable pub is_key : TypeVarId → Subst → Bool
is_key j s = elim (get j s) [ some t ↦ true | none ↦ false ]

-- The set without the keys of the map.
unfoldable pub minus : Vars → Subst → Vars
minus [] s = []
minus (j ∷ vars) s = let rest = minus vars s in if is_key j s then rest else j ∷ rest

pub contains-minus :
    (k : TypeVarId) (vars : Vars) (s : Subst)
    → contains k (minus vars s) ≡ (contains k vars && not (is_key k s))
unfolding minus contains is_key
contains-minus k [] s = refl
contains-minus k (j ∷ vars) s = ground (arith, contains-minus k vars s)

pub minus-nil : (vars : Vars) → minus vars [] ≡ vars
unfolding minus is_key get
minus-nil [] = refl
minus-nil (j ∷ vars) = ap (λ v. j ∷ v) (minus-nil vars)

pub length-minus_le : (vars : Vars) (s : Subst) → length (minus vars s) ≤ length vars
unfolding minus
length-minus_le [] s = omega arith
length-minus_le (j ∷ vars) s = ground (arith, length-minus_le vars s)

-- A key that is in the set makes it shorter.
pub length-minus_lt :
    (vars : Vars) (s : Subst) (k : TypeVarId)
    → contains k vars ≡ true
    → is_key k s ≡ true
    → length (minus vars s) < length vars
unfolding minus contains
length-minus_lt [] s k h e = ground arith
length-minus_lt (j ∷ vars) s k h e =
    ground (arith, length-minus_le vars s, length-minus_lt vars s k)

-- If an assignment takes every variable of a type to a type over `vars`, so it takes the type.
mutual
  unfolding inst occurs_in

  Within-inst_ty :
      (vars : Vars) (σ : Assignment) (t : Ty)
      → ((tv : TypeVar) → occurs_in tv.id t ≡ true → Within vars (σ tv))
      → Within vars (inst σ t)
  Within-inst_ty vars σ (var tv) h j o = h tv (ground arith) j o
  Within-inst_ty vars σ (con c) h j o = ground arith
  Within-inst_ty vars σ (app l r) h j o = ground (
    arith,
    Within-inst_ty vars σ l (λ tv p. h tv (ground arith)) j,
    Within-inst_ty vars σ r (λ tv p. h tv (ground arith)) j,
  )
  Within-inst_ty vars σ (fun l r) h j o = ground (
    arith,
    Within-inst_ty vars σ l (λ tv p. h tv (ground arith)) j,
    Within-inst_ty vars σ r (λ tv p. h tv (ground arith)) j,
  )
  Within-inst_ty vars σ (tuple ts) h j o = Within-inst_tys vars σ ts h j o
  Within-inst_ty vars σ (record_ty fs) h j o = Within-inst_fields vars σ fs h j o

  Within-inst_tys :
      (vars : Vars) (σ : Assignment) (t : Tys)
      → ((tv : TypeVar) → occurs_in_tys tv.id t ≡ true → Within vars (σ tv))
      → WithinTys vars (inst_tys σ t)
  Within-inst_tys vars σ nil h j o = ground arith
  Within-inst_tys vars σ (cons t ts) h j o = ground (
    arith,
    Within-inst_ty vars σ t (λ tv p. h tv (ground arith)) j,
    Within-inst_tys vars σ ts (λ tv p. h tv (ground arith)) j,
  )

  Within-inst_fields :
      (vars : Vars) (σ : Assignment) (t : Fields)
      → ((tv : TypeVar) → occurs_in_fields tv.id t ≡ true → Within vars (σ tv))
      → WithinFields vars (inst_fields σ t)
  Within-inst_fields vars σ end h j o = ground arith
  Within-inst_fields vars σ (field n t ts) h j o = ground (
    arith,
    Within-inst_ty vars σ t (λ tv p. h tv (ground arith)) j,
    Within-inst_fields vars σ ts (λ tv p. h tv (ground arith)) j,
  )

pub Within-inst :
    (vars : Vars) (σ : Assignment) (t : Ty)
    → ((tv : TypeVar) → occurs_in tv.id t ≡ true → Within vars (σ tv))
    → Within vars (inst σ t)
Within-inst vars σ t h = Within-inst_ty vars σ t h

module _ (k : TypeVarId) (s : Subst) where
  pub is_key-some : (t : Ty) → get k s ≡ some t → is_key k s ≡ true
  unfolding is_key
  is_key-some t e = ground arith

  pub is_key-none : get k s ≡ none → is_key k s ≡ false
  unfolding is_key
  is_key-none e = ground arith

  pub get_of_no_key : is_key k s ≡ false → get k s ≡ none
  unfolding is_key
  get_of_no_key e = ground arith

-- A variable of the set that is no key is left in it, and what is left was in the set.
pub contains-minus_iff :
    (k : TypeVarId) (vars : Vars) (s : Subst)
    → (contains k (minus vars s) ≡ true) ↔ ((contains k vars ≡ true) × (get k s ≡ none))
contains-minus_iff k vars s = (
  λ h. (
    ground (arith, contains-minus k vars s),
    get_of_no_key k s (ground (arith, contains-minus k vars s)),
  ),
  λ h. ground (arith, contains-minus k vars s, is_key-none k s h.1),
)
