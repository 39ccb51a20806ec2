-- ===== src/Types/Compose/Laws.antt =====
-- What `compose_subst` maps a variable to, and when applying the composition is applying both.
use rex.Prelude.{[], ◌∷◌, Option, none, some, ◌≡◌, ◌↔◌, refl, sym, ◌∙◌, ap, arith}
use rex.Types.Syntax.{Ty, TypeVar, TypeVarId, var}
use rex.Types.Subst.{
  Subst, get, insert, IsMap, get-insert, insert-IsMap, assign, assign-some, assign-none, or_var,
}
use rex.Types.Inst.{inst, inst-inst, inst_ext, inst-var}
use rex.Types.Apply.{apply}
use rex.Types.Apply.Laws.{apply-eq-inst}
use rex.Types.Compose.{insert_applied, insert_all, compose_subst}

unfoldable pub or_else : Option Ty → Option Ty → Option Ty
or_else (some t) o = some t
or_else none o = o

unfoldable pub map_apply : Subst → Option Ty → Option Ty
map_apply a (some t) = some (apply a t)
map_apply a none = none

pub apply-nil : (t : Ty) → apply [] t ≡ t
unfolding assign or_var get
apply-nil t = apply-eq-inst [] t ∙ inst-var t

get-insert_all :
    (j : TypeVarId) (a res : Subst)
    → IsMap a
    → get j (insert_all a res) ≡ or_else (get j a) (get j res)
unfolding insert_all get or_else
get-insert_all j [] res m = refl
get-insert_all j ((k, v) ∷ a) res m =
    ground (arith, get-insert_all j a (insert k v res) m.1, get-insert j k v res)

get-insert_applied :
    (j : TypeVarId) (a b res : Subst)
    → IsMap b
    → get j (insert_applied a b res) ≡ or_else (map_apply a (get j b)) (get j res)
unfolding insert_applied get or_else map_apply
get-insert_applied j a [] res m = refl
get-insert_applied j a ((k, v) ∷ b) res m =
    ground (
      arith,
      get-insert_applied j a b (insert k (apply a v) res) m.1,
      get-insert j k (apply a v) res,
    )

insert_all-IsMap : (a res : Subst) → IsMap res → IsMap (insert_all a res)
unfolding insert_all
insert_all-IsMap [] res m = m
insert_all-IsMap ((k, v) ∷ a) res m = insert_all-IsMap a (insert k v res) (insert-IsMap k v res m)

insert_applied-IsMap : (a b res : Subst) → IsMap res → IsMap (insert_applied a b res)
unfolding insert_applied
insert_applied-IsMap a [] res m = m
insert_applied-IsMap a ((k, v) ∷ b) res m =
    insert_applied-IsMap a b (insert k (apply a v) res) (insert-IsMap k (apply a v) res m)

pub compose_subst-IsMap : (a b : Subst) → IsMap a → IsMap b → IsMap (compose_subst a b)
unfolding compose_subst
compose_subst-IsMap [] b m n = n
compose_subst-IsMap (p ∷ a) [] m n = m
compose_subst-IsMap (p ∷ a) (q ∷ b) m n =
    insert_all-IsMap (p ∷ a) _ (insert_applied-IsMap (p ∷ a) (q ∷ b) [] tt)

map_apply-nil : (o : Option Ty) → map_apply [] o ≡ o
unfolding map_apply
map_apply-nil (some t) = ap some (apply-nil t)
map_apply-nil none = refl

or_else-none : (o : Option Ty) → or_else o none ≡ o
unfolding or_else
or_else-none (some t) = refl
or_else-none none = refl

-- The composition reads `a` first; a variable that only `b` maps gets `b`'s type with `a` applied.
pub get-compose_subst :
    (j : TypeVarId) (a b : Subst)
    → IsMap a
    → IsMap b
    → get j (compose_subst a b) ≡ or_else (get j a) (map_apply a (get j b))
unfolding compose_subst
get-compose_subst j [] b m n = unfold get or_else in sym (map_apply-nil (get j b))
get-compose_subst j (p ∷ a) [] m n = unfold map_apply get in sym (or_else-none (get j (p ∷ a)))
get-compose_subst j (p ∷ a) (q ∷ b) m n =
    get-insert_all j (p ∷ a) (insert_applied (p ∷ a) (q ∷ b) []) m
    ∙ ap (or_else (get j (p ∷ a)))
        (get-insert_applied j (p ∷ a) (q ∷ b) [] n ∙ unfold get in or_else-none _)

or_else-some : (t : Ty) (o : Option Ty) → or_else (some t) o ≡ some t
unfolding or_else
or_else-some t o = refl

apply-var : (s : Subst) (tv : TypeVar) → apply s (var tv) ≡ assign s tv
unfolding inst
apply-var s tv = apply-eq-inst s (var tv)

-- On a variable that both map, `a` has the type that it makes of `b`'s.
abbrev pub Agree : Subst → Subst → Type 0
Agree a b = (k : TypeVarId) (t u : Ty) → get k a ≡ some t → get k b ≡ some u → t ≡ apply a u

module _ (a b : Subst) (m : IsMap a) (n : IsMap b) where
  -- One variable, by what each map holds for it.
  pick :
      Agree a b
      → (tv : TypeVar) (oa ob : Option Ty) → get tv.id a ≡ oa
      → get tv.id b ≡ ob
      → or_var tv (or_else oa (map_apply a ob)) ≡ inst (assign a) (or_var tv ob)
  unfolding or_var inst or_else map_apply
  pick agree tv (some t) (some u) ea eb = agree tv.id t u ea eb ∙ apply-eq-inst a u
  pick agree tv (some t) none ea eb = sym (assign-some a tv ea)
  pick agree tv none (some u) ea eb = apply-eq-inst a u
  pick agree tv none none ea eb = sym (assign-none a tv ea)

  pub assign-compose_subst :
      Agree a b → (tv : TypeVar) → assign (compose_subst a b) tv ≡ inst (assign a) (assign b tv)
  unfolding assign
  assign-compose_subst agree tv =
      rw (get-compose_subst tv.id a b m n) (pick agree tv (get tv.id a) (get tv.id b) refl refl)

  -- Applying the composition is applying `b` and then `a`, on every type, exactly when on each
  -- variable that both maps have `a` holds what it makes of `b`'s type.
  pub apply-compose_subst_iff :
      ((t : Ty) → apply (compose_subst a b) t ≡ apply a (apply b t)) ↔ Agree a b
  apply-compose_subst_iff = (forth, back)
    where
      inst_compose :
          Agree a b
          → (t : Ty) → inst (assign (compose_subst a b)) t ≡ inst (assign a) (inst (assign b) t)
      inst_compose agree t =
          inst_ext (assign (compose_subst a b)) _ t (λ tv _. assign-compose_subst agree tv)
          ∙ sym (inst-inst (assign a) (assign b) t)

      back : Agree a b → (t : Ty) → apply (compose_subst a b) t ≡ apply a (apply b t)
      back agree t =
          apply-eq-inst (compose_subst a b) t
          ∙ inst_compose agree t
          ∙ sym (apply-eq-inst a (apply b t) ∙ ap (inst (assign a)) (apply-eq-inst b t))

      forth : ((t : Ty) → apply (compose_subst a b) t ≡ apply a (apply b t)) → Agree a b
      forth h k t u ea eb =
          let tv : TypeVar = record { id = k; name = none } in
          sym (assign-some (compose_subst a b) tv (get-compose_subst k a b m n ∙ both k t u ea))
          ∙ sym (apply-var (compose_subst a b) tv)
          ∙ h (var tv)
          ∙ ap (apply a) (apply-var b tv ∙ assign-some b tv eb)
        where
          both :
              (k : TypeVarId) (t u : Ty)
              → get k a ≡ some t
              → or_else (get k a) (map_apply a (get k b)) ≡ some t
          both k t u ea = rw ea (or_else-some t (map_apply a (get k b)))
