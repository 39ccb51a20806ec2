-- ===== src/Types/Subst.antt =====
-- rex-typesystem/src/unification.rs, `Subst`: a persistent hash map from variables to types. It is
-- a list of pairs; `insert` replaces the entry of a key that is there, so that a map built by
-- `insert` from `empty` visits each key once.
use rex.Prelude.{
  List, [], ◌∷◌, Option, none, some, Bool, true, false, ◌≡◌, refl, if◌then◌else◌, ◌==◌, arith,
}
use rex.Types.Syntax.{Ty, TypeVar, TypeVarId, var}
use rex.Types.Inst.{Assignment}

abbrev pub Subst : Type 0
Subst = List (TypeVarId × Ty)

unfoldable pub get : TypeVarId → Subst → Option Ty
get k [] = none
get k ((j, t) ∷ s) = if j == k then some t else get k s

unfoldable pub insert : TypeVarId → Ty → Subst → Subst
insert k t [] = (k, t) ∷ []
insert k t ((j, u) ∷ s) = if j == k then (k, t) ∷ s else (j, u) ∷ insert k t s

unfoldable pub subst_is_empty : Subst → Bool
subst_is_empty [] = true
subst_is_empty (_ ∷ _) = false

-- Each key stands once.
abbrev pub IsMap : Subst → Type 0
IsMap [] = Unit
IsMap ((k, t) ∷ s) = (get k s ≡ none) × IsMap s

pub get-insert :
    (j k : TypeVarId) (t : Ty) (s : Subst)
    → get j (insert k t s) ≡ (if k == j then some t else get j s)
unfolding get insert
get-insert j k t [] = refl
get-insert j k t ((i, u) ∷ s) = ground (arith, get-insert j k t s)

pub insert-IsMap : (k : TypeVarId) (t : Ty) (s : Subst) → IsMap s → IsMap (insert k t s)
unfolding insert get
insert-IsMap k t [] m = (refl, tt)
insert-IsMap k t ((j, u) ∷ s) m = ground (arith, get-insert j k t s, insert-IsMap k t s m.1)

-- The assignment that a map stands for: a variable that is no key stays.
unfoldable pub or_var : TypeVar → Option Ty → Ty
or_var tv (some t) = t
or_var tv none = var tv

unfoldable pub assign : Subst → Assignment
unfolding or_var
assign s tv = or_var tv (get tv.id s)

pub assign-some : (s : Subst) (tv : TypeVar) {t : Ty} → get tv.id s ≡ some t → assign s tv ≡ t
unfolding assign
assign-some s tv h = rw h

pub assign-none : (s : Subst) (tv : TypeVar) → get tv.id s ≡ none → assign s tv ≡ var tv
unfolding assign
assign-none s tv h = rw h
