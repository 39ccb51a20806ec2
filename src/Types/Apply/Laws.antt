-- ===== src/Types/Apply/Laws.antt =====
-- `apply_with_change` against the reference semantics: the type is the instance by the map, and the
-- flag says whether a variable of the type is a key.
use rex.Prelude.{Option, none, some, Bool, true, false, ◌||◌, ◌≡◌, refl, ap, ap₂, arith}
use rex.Types.Syntax.{
  TypeVar, Ty, Tys, Fields, var, con, app, fun, tuple, record_ty, nil, cons, end, field,
}
use rex.Types.Subst.{Subst, get, assign}
use rex.Types.Inst.{inst, inst_tys, inst_fields}
use rex.Types.Apply.{
  Chain, apply_with_change, apply_chain, apply_tys, apply_fields, apply, rebuild, change_var,
  change_app, change_tuple, change_record, change_fun, chain_end, chain_arg,
}

unfoldable pub is_some : Option Ty → Bool
is_some (some t) = true
is_some none = false

-- Is some variable of the type a key of the map?
unfoldable mutual
  unfolding is_some

  pub touches : Subst → Ty → Bool
  touches s (var tv) = is_some (get tv.id s)
  touches s (con c) = false
  touches s (app l r) = touches s l || touches s r
  touches s (fun a b) = touches s a || touches s b
  touches s (tuple ts) = touches_tys s ts
  touches s (record_ty fs) = touches_fields s fs

  touches_tys : Subst → Tys → Bool
  touches_tys s nil = false
  touches_tys s (cons t ts) = touches s t || touches_tys s ts

  touches_fields : Subst → Fields → Bool
  touches_fields s end = false
  touches_fields s (field k t fs) = touches s t || touches_fields s fs

-- What is not touched is left as it is.
mutual
  unfolding touches inst assign

  inst-untouched : (s : Subst) (t : Ty) → touches s t ≡ false → inst (assign s) t ≡ t
  inst-untouched s (var tv) h = ground arith
  inst-untouched s (con c) h = refl
  inst-untouched s (app l r) h =
      ap₂ app (inst-untouched s l (ground arith)) (inst-untouched s r (ground arith))
  inst-untouched s (fun a b) h =
      ap₂ fun (inst-untouched s a (ground arith)) (inst-untouched s b (ground arith))
  inst-untouched s (tuple ts) h = ap tuple (inst_tys-untouched s ts h)
  inst-untouched s (record_ty fs) h = ap record_ty (inst_fields-untouched s fs h)

  inst_tys-untouched : (s : Subst) (t : Tys) → touches_tys s t ≡ false → inst_tys (assign s) t ≡ t
  inst_tys-untouched s nil h = refl
  inst_tys-untouched s (cons t ts) h =
      ap₂ cons (inst-untouched s t (ground arith)) (inst_tys-untouched s ts (ground arith))

  inst_fields-untouched :
      (s : Subst) (t : Fields) → touches_fields s t ≡ false → inst_fields (assign s) t ≡ t
  inst_fields-untouched s end h = refl
  inst_fields-untouched s (field k t fs) h =
      ap₂ (field k) (inst-untouched s t (ground arith)) (inst_fields-untouched s fs (ground arith))

module _ (s : Subst) where
  change_var-eq :
      (tv : TypeVar) → change_var tv (get tv.id s) ≡ (inst (assign s) (var tv), touches s (var tv))
  unfolding change_var inst assign touches
  change_var-eq tv = ground arith

  change_app-eq :
      (l r : Ty)
      → change_app l r (inst (assign s) l, touches s l) (inst (assign s) r, touches s r)
        ≡ (inst (assign s) (app l r), touches s (app l r))
  unfolding change_app inst touches
  change_app-eq l r = ground (arith, inst-untouched s l, inst-untouched s r)

  change_tuple-eq :
      (ts : Tys)
      → change_tuple ts (inst_tys (assign s) ts, touches_tys s ts)
        ≡ (inst (assign s) (tuple ts), touches s (tuple ts))
  unfolding change_tuple touches inst
  change_tuple-eq ts = ground (arith, inst_tys-untouched s ts)

  change_record-eq :
      (fs : Fields)
      → change_record fs (inst_fields (assign s) fs, touches_fields s fs)
        ≡ (inst (assign s) (record_ty fs), touches s (record_ty fs))
  unfolding change_record touches inst
  change_record-eq fs = ground (arith, inst_fields-untouched s fs)

  -- What a chain of arguments and a result stands for, and its flag.
  abbrev Gathers : Chain → Ty → Type 0
  Gathers c t = (rebuild c.args c.ret ≡ inst (assign s) t) × (c.changed ≡ touches s t)

  chain_end-Gathers :
      (t : Ty) (p : Ty × Bool) → p ≡ (inst (assign s) t, touches s t) → Gathers (chain_end p) t
  unfolding chain_end rebuild
  chain_end-Gathers t p e = rw e (refl, refl)

  chain_arg-Gathers :
      (a b : Ty) (p : Ty × Bool) (c : Chain)
      → p ≡ (inst (assign s) a, touches s a)
      → Gathers c b
      → Gathers (chain_arg p c) (fun a b)
  unfolding chain_arg rebuild inst touches
  chain_arg-Gathers a b p c e (r, k) =
      rw e (ap (fun (inst (assign s) a)) r, ap (λ x. touches s a || x) k)

  change_fun-eq :
      (a b : Ty) (c : Chain)
      → Gathers c (fun a b)
      → change_fun a b c ≡ (inst (assign s) (fun a b), touches s (fun a b))
  unfolding change_fun
  change_fun-eq a b c (r, k) = ground (arith, inst-untouched s (fun a b))

mutual
  unfolding apply_with_change inst touches

  apply_with_change-eq_ty :
      (s : Subst) (t : Ty) → apply_with_change s t ≡ (inst (assign s) t, touches s t)
  apply_with_change-eq_ty s (var tv) = change_var-eq s tv
  apply_with_change-eq_ty s (con c) = refl
  apply_with_change-eq_ty s (app l r) =
      rw (apply_with_change-eq_ty s l, apply_with_change-eq_ty s r) (change_app-eq s l r)
  apply_with_change-eq_ty s (fun a b) =
      change_fun-eq s a b (chain_arg (apply_with_change s a) (apply_chain s b)) (
        chain_arg-Gathers s a b _ (apply_chain s b) (apply_with_change-eq_ty s a)
          (apply_chain-Gathers s b))
  apply_with_change-eq_ty s (tuple ts) = rw (apply_tys-eq s ts) (change_tuple-eq s ts)
  apply_with_change-eq_ty s (record_ty fs) = rw (apply_fields-eq s fs) (change_record-eq s fs)

  apply_chain-Gathers : (s : Subst) (t : Ty) → Gathers s (apply_chain s t) t
  apply_chain-Gathers s (var tv) = chain_end-Gathers s (var tv) _ (change_var-eq s tv)
  apply_chain-Gathers s (con c) = chain_end-Gathers s (con c) _ (refl)
  apply_chain-Gathers s (app l r) =
      chain_end-Gathers s (app l r) _
        (rw (apply_with_change-eq_ty s l, apply_with_change-eq_ty s r) (change_app-eq s l r))
  apply_chain-Gathers s (fun a b) =
      chain_arg-Gathers s a b _ (apply_chain s b) (apply_with_change-eq_ty s a)
        (apply_chain-Gathers s b)
  apply_chain-Gathers s (tuple ts) =
      chain_end-Gathers s (tuple ts) _ (rw (apply_tys-eq s ts) (change_tuple-eq s ts))
  apply_chain-Gathers s (record_ty fs) =
      chain_end-Gathers s (record_ty fs) _ (rw (apply_fields-eq s fs) (change_record-eq s fs))

  apply_tys-eq : (s : Subst) (t : Tys) → apply_tys s t ≡ (inst_tys (assign s) t, touches_tys s t)
  apply_tys-eq s nil = refl
  apply_tys-eq s (cons t ts) = rw (apply_with_change-eq_ty s t, apply_tys-eq s ts) refl

  apply_fields-eq :
      (s : Subst) (t : Fields) → apply_fields s t ≡ (inst_fields (assign s) t, touches_fields s t)
  apply_fields-eq s end = refl
  apply_fields-eq s (field k t fs) = rw (apply_with_change-eq_ty s t, apply_fields-eq s fs) refl

-- Applying a map to a type gives the type with every variable that is a key replaced by its entry,
-- and the flag is raised exactly when some variable of the type is a key.
pub apply_with_change-eq :
    (s : Subst) (t : Ty) → apply_with_change s t ≡ (inst (assign s) t, touches s t)
apply_with_change-eq = apply_with_change-eq_ty

pub apply-eq-inst : (s : Subst) (t : Ty) → apply s t ≡ inst (assign s) t
unfolding apply
apply-eq-inst s t = ap (λ p. p.0) (apply_with_change-eq s t)
