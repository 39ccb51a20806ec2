-- ===== src/Types/Fragment.antt =====
-- Two fragments of the types. Without `higher`, no variable stands in the place of a type
-- constructor: the head of every application is no variable. With `higher`, there are such heads
-- and no records.
use rex.Prelude.{Bool, true, false, not, ◌&&◌, ◌||◌, ◌≡◌, refl, arith}
use rex.Types.Syntax.{
  Ty, Tys, Fields, TypeVar, var, con, app, fun, tuple, record_ty, nil, cons, end, field,
}
use rex.Types.Inst.{Assignment, inst, inst_tys, inst_fields}

unfoldable pub is_rigid : Ty → Bool
is_rigid (var _) = false
is_rigid _ = true

unfoldable mutual
  pub in_fragment : Bool → Ty → Bool
  in_fragment higher (var tv) = true
  in_fragment higher (con c) = true
  in_fragment higher (app l r) =
      (higher || is_rigid l) && (in_fragment higher l && in_fragment higher r)
  in_fragment higher (fun l r) = in_fragment higher l && in_fragment higher r
  in_fragment higher (tuple ts) = in_fragment_tys higher ts
  in_fragment higher (record_ty fs) = not higher && in_fragment_fields higher fs

  pub in_fragment_tys : Bool → Tys → Bool
  in_fragment_tys higher nil = true
  in_fragment_tys higher (cons t ts) = in_fragment higher t && in_fragment_tys higher ts

  pub in_fragment_fields : Bool → Fields → Bool
  in_fragment_fields higher end = true
  in_fragment_fields higher (field _ t fs) = in_fragment higher t && in_fragment_fields higher fs

abbrev pub InFragment : Bool → Ty → Type 0
InFragment higher t = in_fragment higher t ≡ true

rigid-inst : (σ : Assignment) (t : Ty) → is_rigid t ≡ true → is_rigid (inst σ t) ≡ true
unfolding is_rigid inst
rigid-inst σ (var tv) h = ground arith
rigid-inst σ _ h = refl

mutual
  unfolding inst in_fragment

  inst-InFragment_ty :
      (higher : Bool) (σ : Assignment) (t : Ty)
      → ((tv : TypeVar) → InFragment higher (σ tv))
      → InFragment higher t
      → InFragment higher (inst σ t)
  inst-InFragment_ty higher σ (var tv) h f = h tv
  inst-InFragment_ty higher σ (con c) h f = refl
  inst-InFragment_ty higher σ (app l r) h f =
      ground
        (arith, rigid-inst σ l, inst-InFragment_ty higher σ l h, inst-InFragment_ty higher σ r h)
  inst-InFragment_ty higher σ (fun l r) h f =
      ground (arith, inst-InFragment_ty higher σ l h, inst-InFragment_ty higher σ r h)
  inst-InFragment_ty higher σ (tuple ts) h f = inst-InFragment_tys higher σ ts h f
  inst-InFragment_ty higher σ (record_ty fs) h f =
      ground (arith, inst-InFragment_fields higher σ fs h)

  inst-InFragment_tys :
      (higher : Bool) (σ : Assignment) (t : Tys)
      → ((tv : TypeVar) → InFragment higher (σ tv))
      → in_fragment_tys higher t ≡ true
      → in_fragment_tys higher (inst_tys σ t) ≡ true
  inst-InFragment_tys higher σ nil h f = refl
  inst-InFragment_tys higher σ (cons t ts) h f =
      ground (arith, inst-InFragment_ty higher σ t h, inst-InFragment_tys higher σ ts h)

  inst-InFragment_fields :
      (higher : Bool) (σ : Assignment) (t : Fields)
      → ((tv : TypeVar) → InFragment higher (σ tv))
      → in_fragment_fields higher t ≡ true
      → in_fragment_fields higher (inst_fields σ t) ≡ true
  inst-InFragment_fields higher σ end h f = refl
  inst-InFragment_fields higher σ (field n t ts) h f =
      ground (arith, inst-InFragment_ty higher σ t h, inst-InFragment_fields higher σ ts h)

pub inst-InFragment :
    (higher : Bool) (σ : Assignment) (t : Ty)
    → ((tv : TypeVar) → InFragment higher (σ tv))
    → InFragment higher t
    → InFragment higher (inst σ t)
inst-InFragment higher σ t h f = inst-InFragment_ty higher σ t h f
