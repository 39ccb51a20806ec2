-- ===== src/Types/Ftv.antt =====
-- rex-typesystem/src/types.rs, `ftv` of `trait Types` for `Type`: the free variables, gathered with
-- an explicit stack into a `BTreeSet`, here a strictly ascending list.
pub mod Laws
use rex.Prelude.{
  ℕ, zero, suc, ◌+◌, List, [], ◌∷◌, Option, none, some, Bool, true, false, if◌then◌else◌, ◌==◌, ltb,
  ◌||◌,
}
use rex.Types.Syntax.{
  Ty, Tys, Fields, TypeVarId, var, con, app, fun, tuple, record_ty, nil, cons, end, field,
}

abbrev pub IdSet : Type 0
IdSet = List TypeVarId

-- `BTreeSet::insert`
unfoldable pub insert_id : TypeVarId → IdSet → IdSet
insert_id id [] = id ∷ []
insert_id id (j ∷ out) =
    if ltb id j then id ∷ j ∷ out else if id == j then j ∷ out else j ∷ insert_id id out

-- `BTreeSet::contains`
unfoldable pub contains : TypeVarId → IdSet → Bool
contains id [] = false
contains id (j ∷ out) = id == j || contains id out

push_tys : Tys → List Ty → List Ty
push_tys nil stack = stack
push_tys (cons t ts) stack = push_tys ts (t ∷ stack)

push_fields : Fields → List Ty → List Ty
push_fields end stack = stack
push_fields (field _ ty fs) stack = push_fields fs (ty ∷ stack)

-- The `while` loop, one unit of fuel a pop; `none` means that the fuel ran out.
unfoldable pub ftv_loop : ℕ → List Ty → IdSet → Option IdSet
unfolding push_tys push_fields
ftv_loop f [] out = some out
ftv_loop zero (t ∷ stack) out = none
ftv_loop (suc f) (var tv ∷ stack) out = ftv_loop f stack (insert_id tv.id out)
ftv_loop (suc f) (con c ∷ stack) out = ftv_loop f stack out
ftv_loop (suc f) (app l r ∷ stack) out = ftv_loop f (r ∷ l ∷ stack) out
ftv_loop (suc f) (fun a b ∷ stack) out = ftv_loop f (b ∷ a ∷ stack) out
ftv_loop (suc f) (tuple ts ∷ stack) out = ftv_loop f (push_tys ts stack) out
ftv_loop (suc f) (record_ty fs ∷ stack) out = ftv_loop f (push_fields fs stack) out

-- The number of nodes: each is popped once.
unfoldable mutual
  pub size : Ty → ℕ
  size (var tv) = 1
  size (con c) = 1
  size (app l r) = suc (size l + size r)
  size (fun a b) = suc (size a + size b)
  size (tuple ts) = suc (size_tys ts)
  size (record_ty fs) = suc (size_fields fs)

  pub size_tys : Tys → ℕ
  size_tys nil = 0
  size_tys (cons t ts) = size t + size_tys ts

  pub size_fields : Fields → ℕ
  size_fields end = 0
  size_fields (field _ t fs) = size t + size_fields fs

collected : Option IdSet → IdSet
collected (some out) = out
collected none = []

unfoldable pub ftv : Ty → IdSet
unfolding collected
ftv t = collected (ftv_loop (size t) (t ∷ []) [])
