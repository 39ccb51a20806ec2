-- ===== src/Types/Unify/Absorbs.antt =====
-- What it means for a substitution of the variables to see no difference where a map was applied,
-- and how large the types are that it makes.
use rex.Prelude.{
  ◌<◌, ◌≤◌, [], Option, none, some, true, false, ◌≡◌, refl, ap, sym, ◌∙◌, arith, ==_iff,
  Option-cases, inl, inr,
}
use rex.Types.Syntax.{
  Ty, Tys, Fields, TypeVar, TypeVarId, var, con, app, fun, tuple, record_ty, nil, cons, end, field,
}
use rex.Types.Inst.{
  Assignment, inst, inst_tys, inst_fields, inst_ext, inst-inst, occurs_in, occurs_in_tys,
  occurs_in_fields,
}
use rex.Types.Subst.{Subst, IsMap, get, assign, assign-some, assign-none}
use rex.Types.Apply.{apply}
use rex.Types.Apply.Laws.{apply-eq-inst}
use rex.Types.Ftv.{size, size_tys, size_fields}
use rex.Types.Compose.{compose_subst}
use rex.Types.Compose.Laws.{get-compose_subst, compose_subst-IsMap, or_else, map_apply}
use rex.Types.Unify.{is_var}
use rex.Outcome.{Outcome, ok, out_of_fuel, ◌>>=◌}

module _ (σ : TypeVarId → Ty) where
  -- A substitution of the variables, by their ids.
  abbrev pub by_id : Assignment
  by_id tv = σ tv.id

  -- `σ` sees no difference where the map was applied.
  pub record Absorbs (s : Subst) : Type 0 where
    pub is_map : IsMap s
    pub entry : (k : TypeVarId) (t : Ty) → get k s ≡ some t → inst by_id t ≡ σ k

  pub inst-apply : (s : Subst) → Absorbs s → (t : Ty) → inst by_id (apply s t) ≡ inst by_id t
  inst-apply s a t =
      ap (inst by_id) (apply-eq-inst s t)
      ∙ inst-inst by_id (assign s) t
      ∙ inst_ext _ by_id t (λ tv _. one tv)
    where
      one : (tv : TypeVar) → inst by_id (assign s tv) ≡ σ tv.id
      one tv = elim (Option-cases (get tv.id s)) [
        | inl free ↦ rw (assign-none s tv free) (unfold inst in refl)
        | inr (u, e) ↦ rw (assign-some s tv e) (a.entry tv.id u e)
      ]

  pub Absorbs-nil : Absorbs []
  unfolding get
  Absorbs-nil = record { is_map = tt; entry = λ k t e. cc }

  pub Absorbs-compose_subst : (a b : Subst) → Absorbs a → Absorbs b → Absorbs (compose_subst b a)
  Absorbs-compose_subst a b sa sb = record {
    is_map = compose_subst-IsMap b a sb.is_map sa.is_map;
    entry = entry;
  }
    where
      entry : (k : TypeVarId) (t : Ty) → get k (compose_subst b a) ≡ some t → inst by_id t ≡ σ k
      entry k t e =
          pick (get k b) (get k a) refl refl (sym (get-compose_subst k b a sb.is_map sa.is_map) ∙ e)
        where
          pick :
              (ob oa : Option Ty)
              → get k b ≡ ob
              → get k a ≡ oa
              → or_else ob (map_apply b oa) ≡ some t
              → inst by_id t ≡ σ k
          pick (some u) oa eb ea h = sb.entry k t (eb ∙ (unfold or_else in h))
          pick none (some u) eb ea h =
              ap (inst by_id) (sym (same u (unfold or_else map_apply in h)))
              ∙ inst-apply b sb u
              ∙ sa.entry k u ea
            where
              same : (u : Ty) → some (apply b u) ≡ some t → apply b u ≡ t
              same u h = cc
          pick none none eb ea h = unfold or_else map_apply in cc

  -- The outcome is a map that `σ` absorbs, unless the fuel ran out.
  pub data Agrees : Outcome Subst → Type 0 where
    agrees : {s : Subst} → Absorbs s → Agrees (ok s)
    unfinished : Agrees out_of_fuel

  pub Agrees-bind :
      {r : Outcome Subst} (f : Subst → Outcome Subst)
      → Agrees r
      → ((s : Subst) → Absorbs s → Agrees (f s))
      → Agrees (r >>= f)
  Agrees-bind f (agrees {s} a) k = k s a
  Agrees-bind f unfinished k = unfinished

-- A type is larger than what any variable in it stands for, unless it is that variable.
mutual
  unfolding inst occurs_in size

  size-occurs_ty :
      (σ : TypeVarId → Ty) (id : TypeVarId) (t : Ty)
      → occurs_in id t ≡ true
      → size (σ id) ≤ size (inst (by_id σ) t)
  size-occurs_ty σ id (var tv) o = omega (arith, ap (λ k. size (σ k)) ((==_iff tv.id id).0 o))
  size-occurs_ty σ id (con c) o = cc
  size-occurs_ty σ id (app l r) o = ground (arith, size-occurs_ty σ id l, size-occurs_ty σ id r)
  size-occurs_ty σ id (fun l r) o = ground (arith, size-occurs_ty σ id l, size-occurs_ty σ id r)
  size-occurs_ty σ id (tuple ts) o = omega (arith, size-occurs_tys σ id ts o)
  size-occurs_ty σ id (record_ty fs) o = omega (arith, size-occurs_fields σ id fs o)

  size-occurs_tys :
      (σ : TypeVarId → Ty) (id : TypeVarId) (t : Tys)
      → occurs_in_tys id t ≡ true
      → size (σ id) ≤ size_tys (inst_tys (by_id σ) t)
  size-occurs_tys σ id nil o = cc
  size-occurs_tys σ id (cons t ts) o =
      ground (arith, size-occurs_ty σ id t, size-occurs_tys σ id ts)

  size-occurs_fields :
      (σ : TypeVarId → Ty) (id : TypeVarId) (t : Fields)
      → occurs_in_fields id t ≡ true
      → size (σ id) ≤ size_fields (inst_fields (by_id σ) t)
  size-occurs_fields σ id end o = cc
  size-occurs_fields σ id (field n t ts) o =
      ground (arith, size-occurs_ty σ id t, size-occurs_fields σ id ts)

pub size-occurs_lt :
    (σ : TypeVarId → Ty) (tv : TypeVar) (t : Ty)
    → is_var tv t ≡ false
    → occurs_in tv.id t ≡ true
    → size (σ tv.id) < size (inst (by_id σ) t)
unfolding inst occurs_in size is_var
size-occurs_lt σ tv (var w) h o = cc
size-occurs_lt σ tv (con c) h o = cc
size-occurs_lt σ tv (app l r) h o =
    ground (arith, size-occurs_ty σ tv.id l, size-occurs_ty σ tv.id r)
size-occurs_lt σ tv (fun l r) h o =
    ground (arith, size-occurs_ty σ tv.id l, size-occurs_ty σ tv.id r)
size-occurs_lt σ tv (tuple ts) h o = omega (arith, size-occurs_tys σ tv.id ts o)
size-occurs_lt σ tv (record_ty fs) h o = omega (arith, size-occurs_fields σ tv.id fs o)
