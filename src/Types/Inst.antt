-- ===== src/Types/Inst.antt =====
-- The reference semantics of a substitution: every variable of a type is replaced by the type that
-- a function gives for it. What the source does with maps is proved equal to this.
use rex.Prelude.{Bool, true, false, ◌≡◌, refl, ap, ap₂, ◌||◌, ◌==◌, arith}
use rex.Types.Syntax.{
  Ty, Tys, Fields, TypeVar, TypeVarId, var, con, app, fun, tuple, record_ty, nil, cons, end, field,
}

abbrev pub Assignment : Type 0
Assignment = TypeVar → Ty

unfoldable mutual
  pub inst : Assignment → Ty → Ty
  inst σ (var tv) = σ tv
  inst σ (con c) = con c
  inst σ (app l r) = app (inst σ l) (inst σ r)
  inst σ (fun a b) = fun (inst σ a) (inst σ b)
  inst σ (tuple ts) = tuple (inst_tys σ ts)
  inst σ (record_ty fs) = record_ty (inst_fields σ fs)

  pub inst_tys : Assignment → Tys → Tys
  inst_tys σ nil = nil
  inst_tys σ (cons t ts) = cons (inst σ t) (inst_tys σ ts)

  pub inst_fields : Assignment → Fields → Fields
  inst_fields σ end = end
  inst_fields σ (field n t fs) = field n (inst σ t) (inst_fields σ fs)

-- Does the variable `id` stand in the type?
unfoldable mutual
  pub occurs_in : TypeVarId → Ty → Bool
  occurs_in id (var tv) = tv.id == id
  occurs_in id (con c) = false
  occurs_in id (app l r) = occurs_in id l || occurs_in id r
  occurs_in id (fun a b) = occurs_in id a || occurs_in id b
  occurs_in id (tuple ts) = occurs_in_tys id ts
  occurs_in id (record_ty fs) = occurs_in_fields id fs

  pub occurs_in_tys : TypeVarId → Tys → Bool
  occurs_in_tys id nil = false
  occurs_in_tys id (cons t ts) = occurs_in id t || occurs_in_tys id ts

  pub occurs_in_fields : TypeVarId → Fields → Bool
  occurs_in_fields id end = false
  occurs_in_fields id (field n t fs) = occurs_in id t || occurs_in_fields id fs

-- Two assignments that agree on the variables of a type instantiate it alike.
mutual
  unfolding inst occurs_in

  inst_ext_ty :
      (σ τ : Assignment) (t : Ty)
      → ((tv : TypeVar) → occurs_in tv.id t ≡ true → σ tv ≡ τ tv)
      → inst σ t ≡ inst τ t
  inst_ext_ty σ τ (var tv) h = h tv (ground arith)
  inst_ext_ty σ τ (con c) h = refl
  inst_ext_ty σ τ (app l r) h =
      ap₂ app (inst_ext_ty σ τ l (λ tv o. h tv (rw o)))
        (inst_ext_ty σ τ r (λ tv o. h tv (ground arith)))
  inst_ext_ty σ τ (fun l r) h =
      ap₂ fun (inst_ext_ty σ τ l (λ tv o. h tv (rw o)))
        (inst_ext_ty σ τ r (λ tv o. h tv (ground arith)))
  inst_ext_ty σ τ (tuple ts) h = ap tuple (inst_ext_tys σ τ ts h)
  inst_ext_ty σ τ (record_ty fs) h = ap record_ty (inst_ext_fields σ τ fs h)

  inst_ext_tys :
      (σ τ : Assignment) (t : Tys)
      → ((tv : TypeVar) → occurs_in_tys tv.id t ≡ true → σ tv ≡ τ tv)
      → inst_tys σ t ≡ inst_tys τ t
  inst_ext_tys σ τ nil h = refl
  inst_ext_tys σ τ (cons t ts) h =
      ap₂ cons (inst_ext_ty σ τ t (λ tv o. h tv (rw o)))
        (inst_ext_tys σ τ ts (λ tv o. h tv (ground arith)))

  inst_ext_fields :
      (σ τ : Assignment) (t : Fields)
      → ((tv : TypeVar) → occurs_in_fields tv.id t ≡ true → σ tv ≡ τ tv)
      → inst_fields σ t ≡ inst_fields τ t
  inst_ext_fields σ τ end h = refl
  inst_ext_fields σ τ (field n t ts) h =
      ap₂ (field n) (inst_ext_ty σ τ t (λ tv o. h tv (rw o)))
        (inst_ext_fields σ τ ts (λ tv o. h tv (ground arith)))

pub inst_ext :
    (σ τ : Assignment) (t : Ty)
    → ((tv : TypeVar) → occurs_in tv.id t ≡ true → σ tv ≡ τ tv)
    → inst σ t ≡ inst τ t
inst_ext σ τ t h = inst_ext_ty σ τ t h

-- Instantiating twice is instantiating once by the composition.
mutual
  unfolding inst

  inst-inst_ty : (σ τ : Assignment) (t : Ty) → inst σ (inst τ t) ≡ inst (λ tv. inst σ (τ tv)) t
  inst-inst_ty σ τ (var tv) = refl
  inst-inst_ty σ τ (con c) = refl
  inst-inst_ty σ τ (app l r) = ap₂ app (inst-inst_ty σ τ l) (inst-inst_ty σ τ r)
  inst-inst_ty σ τ (fun l r) = ap₂ fun (inst-inst_ty σ τ l) (inst-inst_ty σ τ r)
  inst-inst_ty σ τ (tuple ts) = ap tuple (inst-inst_tys σ τ ts)
  inst-inst_ty σ τ (record_ty fs) = ap record_ty (inst-inst_fields σ τ fs)

  inst-inst_tys :
      (σ τ : Assignment) (t : Tys) → inst_tys σ (inst_tys τ t) ≡ inst_tys (λ tv. inst σ (τ tv)) t
  inst-inst_tys σ τ nil = refl
  inst-inst_tys σ τ (cons t ts) = ap₂ cons (inst-inst_ty σ τ t) (inst-inst_tys σ τ ts)

  inst-inst_fields :
      (σ τ : Assignment) (t : Fields)
      → inst_fields σ (inst_fields τ t) ≡ inst_fields (λ tv. inst σ (τ tv)) t
  inst-inst_fields σ τ end = refl
  inst-inst_fields σ τ (field n t ts) = ap₂ (field n) (inst-inst_ty σ τ t) (inst-inst_fields σ τ ts)

pub inst-inst : (σ τ : Assignment) (t : Ty) → inst σ (inst τ t) ≡ inst (λ tv. inst σ (τ tv)) t
inst-inst σ τ t = inst-inst_ty σ τ t

mutual
  unfolding inst

  inst-var_ty : (t : Ty) → inst var t ≡ t
  inst-var_ty (var tv) = refl
  inst-var_ty (con c) = refl
  inst-var_ty (app l r) = ap₂ app (inst-var_ty l) (inst-var_ty r)
  inst-var_ty (fun l r) = ap₂ fun (inst-var_ty l) (inst-var_ty r)
  inst-var_ty (tuple ts) = ap tuple (inst-var_tys ts)
  inst-var_ty (record_ty fs) = ap record_ty (inst-var_fields fs)

  inst-var_tys : (t : Tys) → inst_tys var t ≡ t
  inst-var_tys nil = refl
  inst-var_tys (cons t ts) = ap₂ cons (inst-var_ty t) (inst-var_tys ts)

  inst-var_fields : (t : Fields) → inst_fields var t ≡ t
  inst-var_fields end = refl
  inst-var_fields (field n t ts) = ap₂ (field n) (inst-var_ty t) (inst-var_fields ts)

pub inst-var : (t : Ty) → inst var t ≡ t
inst-var t = inst-var_ty t
