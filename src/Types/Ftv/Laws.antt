-- ===== src/Types/Ftv/Laws.antt =====
-- The loop of `ftv` ends, and gathers exactly the variables that stand in the type.
use rex.Prelude.{
  ℕ, zero, suc, ◌+◌, ◌≤◌, ◌<◌, List, [], ◌∷◌, Option, some, Bool, false, ◌||◌, ◌==◌, ◌≡◌, refl, ◌∙◌,
  ap, arith,
}
use rex.Types.Syntax.{
  Ty, Tys, Fields, TypeVarId, var, con, app, fun, tuple, record_ty, nil, cons, end, field,
}
use rex.Types.Inst.{occurs_in, occurs_in_tys, occurs_in_fields}
use rex.Types.Ftv.{
  IdSet, insert_id, contains, push_tys, push_fields, ftv_loop, size, size_tys, size_fields, ftv,
}

-- The list that stands for a `BTreeSet` ascends, every later element being above `id`.
abbrev Above : TypeVarId → IdSet → Type 0
Above id [] = Unit
Above id (j ∷ out) = (id < j) × Above j out

abbrev pub IsAscending : IdSet → Type 0
IsAscending [] = Unit
IsAscending (j ∷ out) = Above j out

insert_id-Above :
    (k id : TypeVarId) (out : IdSet) → k < id → Above k out → Above k (insert_id id out)
unfolding insert_id
insert_id-Above k id [] h a = (h, tt)
insert_id-Above k id (j ∷ out) h a = ground (arith, insert_id-Above j id out)

insert_id-IsAscending :
    (id : TypeVarId) (out : IdSet) → IsAscending out → IsAscending (insert_id id out)
unfolding insert_id
insert_id-IsAscending id [] a = tt
insert_id-IsAscending id (j ∷ out) a = ground (arith, insert_id-Above j id out)

contains-insert_id :
    (k id : TypeVarId) (out : IdSet) → contains k (insert_id id out) ≡ (id == k || contains k out)
unfolding insert_id contains
contains-insert_id k id [] = ground arith
contains-insert_id k id (j ∷ out) = ground (arith, contains-insert_id k id out)

sizes : List Ty → ℕ
sizes [] = 0
sizes (t ∷ ts) = size t + sizes ts

occurs_any : TypeVarId → List Ty → Bool
occurs_any id [] = false
occurs_any id (t ∷ ts) = occurs_in id t || occurs_any id ts

sizes-push_tys :
    (ts : Tys) (stack : List Ty) → sizes (push_tys ts stack) ≡ size_tys ts + sizes stack
unfolding push_tys sizes size
sizes-push_tys nil stack = omega arith
sizes-push_tys (cons t ts) stack = omega (arith, sizes-push_tys ts (t ∷ stack))

sizes-push_fields :
    (fs : Fields) (stack : List Ty) → sizes (push_fields fs stack) ≡ size_fields fs + sizes stack
unfolding push_fields sizes size
sizes-push_fields end stack = omega arith
sizes-push_fields (field _ t fs) stack = omega (arith, sizes-push_fields fs (t ∷ stack))

module _ (id : TypeVarId) where
  occurs_any-push_tys :
      (ts : Tys) (stack : List Ty)
      → occurs_any id (push_tys ts stack) ≡ (occurs_in_tys id ts || occurs_any id stack)
  unfolding push_tys occurs_any occurs_in
  occurs_any-push_tys nil stack = refl
  occurs_any-push_tys (cons t ts) stack = ground (arith, occurs_any-push_tys ts (t ∷ stack))

  occurs_any-push_fields :
      (fs : Fields) (stack : List Ty)
      → occurs_any id (push_fields fs stack) ≡ (occurs_in_fields id fs || occurs_any id stack)
  unfolding push_fields occurs_any occurs_in
  occurs_any-push_fields end stack = refl
  occurs_any-push_fields (field _ t fs) stack =
      ground (arith, occurs_any-push_fields fs (t ∷ stack))

-- What the loop returns: `out` and the variables of the stack.
abbrev Gathers : List Ty → IdSet → Option IdSet → Type 0
Gathers stack out r =
    (res : IdSet) × (r ≡ some res)
    × ((id : TypeVarId) → contains id res ≡ (contains id out || occurs_any id stack))
    × (IsAscending out → IsAscending res)

-- A step that leaves the variables of stack and set together as they were.
Gathers-of_step :
    (stack stack' : List Ty) (out out' : IdSet) {r : Option IdSet}
    → ((id : TypeVarId)
        → (contains id out' || occurs_any id stack') ≡ (contains id out || occurs_any id stack))
    → (IsAscending out → IsAscending out')
    → Gathers stack' out' r
    → Gathers stack out r
Gathers-of_step stack stack' out out' same asc (res, e, h, k) =
    (res, e, (λ id. h id ∙ same id), λ a. k (asc a))

ftv_loop-Gathers :
    (f : ℕ) (stack : List Ty) (out : IdSet)
    → sizes stack ≤ f
    → Gathers stack out (ftv_loop f stack out)
unfolding ftv_loop sizes size occurs_any occurs_in
ftv_loop-Gathers f [] out h = (out, refl, (λ id. ground arith), λ a. a)
ftv_loop-Gathers zero (var tv ∷ stack) out h = absurd (omega arith)
ftv_loop-Gathers zero (con c ∷ stack) out h = absurd (omega arith)
ftv_loop-Gathers zero (app l r ∷ stack) out h = absurd (omega arith)
ftv_loop-Gathers zero (fun l r ∷ stack) out h = absurd (omega arith)
ftv_loop-Gathers zero (tuple ts ∷ stack) out h = absurd (omega arith)
ftv_loop-Gathers zero (record_ty fs ∷ stack) out h = absurd (omega arith)
ftv_loop-Gathers (suc f) (var tv ∷ stack) out h =
    Gathers-of_step (var tv ∷ stack) stack out (insert_id tv.id out)
      (λ id. ground (arith, contains-insert_id id tv.id out)) (insert_id-IsAscending tv.id out)
      (ftv_loop-Gathers f stack (insert_id tv.id out) (omega arith))
ftv_loop-Gathers (suc f) (con c ∷ stack) out h =
    Gathers-of_step (con c ∷ stack) stack out out (λ id. refl) (λ a. a)
      (ftv_loop-Gathers f stack out (omega arith))
ftv_loop-Gathers (suc f) (app l r ∷ stack) out h =
    Gathers-of_step (app l r ∷ stack) (r ∷ l ∷ stack) out out (λ id. ground arith) (λ a. a)
      (ftv_loop-Gathers f (r ∷ l ∷ stack) out (omega arith))
ftv_loop-Gathers (suc f) (fun l r ∷ stack) out h =
    Gathers-of_step (fun l r ∷ stack) (r ∷ l ∷ stack) out out (λ id. ground arith) (λ a. a)
      (ftv_loop-Gathers f (r ∷ l ∷ stack) out (omega arith))
ftv_loop-Gathers (suc f) (tuple ts ∷ stack) out h =
    Gathers-of_step (tuple ts ∷ stack) (push_tys ts stack) out out
      (λ id. ap (λ b. contains id out || b) (occurs_any-push_tys id ts stack)) (λ a. a)
      (ftv_loop-Gathers f (push_tys ts stack) out (omega (arith, sizes-push_tys ts stack)))
ftv_loop-Gathers (suc f) (record_ty fs ∷ stack) out h =
    Gathers-of_step (record_ty fs ∷ stack) (push_fields fs stack) out out
      (λ id. ap (λ b. contains id out || b) (occurs_any-push_fields id fs stack)) (λ a. a)
      (ftv_loop-Gathers f (push_fields fs stack) out (omega (arith, sizes-push_fields fs stack)))

-- The loop never runs out: it ends in a set that holds a variable exactly when it stands in the
-- type, each once and in order.
pub ftv_lem :
    (t : Ty)
    → (ftv_loop (size t) (t ∷ []) [] ≡ some (ftv t))
      × ((id : TypeVarId) → contains id (ftv t) ≡ occurs_in id t)
      × IsAscending (ftv t)
unfolding ftv sizes contains occurs_any
ftv_lem t =
    let (res, e, h, k) = ftv_loop-Gathers (size t) (t ∷ []) [] (omega arith) in
    rw e (refl, (λ id. h id ∙ alone id), k tt)
  where
    alone : (id : TypeVarId) → (contains id [] || occurs_any id (t ∷ [])) ≡ occurs_in id t
    alone id = ground arith
