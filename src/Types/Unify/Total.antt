-- ===== src/Types/Unify/Total.antt =====
-- The unifier ends on both fragments, and what it returns solves the two types.
use rex.Prelude.{
  ℕ, zero, suc, ◌<◌, ◌+◌, [], ◌∷◌, Bool, ◌≡◌, refl, arith, length, some, sym, ◌++◌, ◌||◌, subst,
  subst₂,
}
use rex.Types.Syntax.{Ty}
use rex.Types.Subst.{Subst, get}
use rex.Types.Apply.{apply}
use rex.Types.Ftv.{size, ftv, contains}
use rex.Types.Ftv.Laws.{ftv_lem}
use rex.Types.Compose.Laws.{apply-nil}
use rex.Types.Vars.{Vars, Within, minus, minus-nil}
use rex.Types.Fragment.{InFragment}
use rex.Types.Unify.{unify}
use rex.Types.Unify.Compat.{Compat}
use rex.Types.Unify.Solved.{Solved, length-Solved, Within-apply, InFragment-apply, apply-apply_self}
use rex.Types.Unify.Loops.{Calls, Fits, Unifies}
use rex.Types.Unify.Step.{unify-Step}
use rex.Outcome.Settles.{Settles, settles_weaken}

abbrev Solvable : Bool → Vars → Ty → Ty → Type 0
Solvable higher vars t u = Settles (λ g. unify g t u) (Unifies higher vars t u)

-- At the empty map a call is on the types as they are.
at_nil :
    (higher : Bool) (vars : Vars) (t u : Ty)
    → Solvable higher vars t u
    → Solvable higher (minus vars []) (apply [] t) (apply [] u)
at_nil higher vars t u h =
    subst (λ v. Solvable higher v (apply [] t) (apply [] u)) (sym (minus-nil vars))
      (subst₂ (Solvable higher vars) (sym (apply-nil t)) (sym (apply-nil u)) h)

head_entry : (k : ℕ) (x : Ty) (s : Subst) → get k ((k, x) ∷ s) ≡ some x
unfolding get
head_entry k x s = ground arith

-- By induction on the number of variables, and on the number of nodes below it: a call at the empty
-- map has fewer nodes, a call at any other solution has fewer variables.

solve :
    (higher : Bool) (n m : ℕ) (vars : Vars) (t u : Ty)
    → length vars < n
    → size t + size u < m
    → Fits higher vars t
    → Fits higher vars u
    → Solvable higher vars t u
solve higher zero m vars t u few small ft fu = absurd (omega arith)
solve higher (suc n) zero vars t u few small ft fu = absurd (omega arith)
solve higher (suc n) (suc m) vars t u few small ft fu =
    unify-Step higher vars t u
      (calls (λ t' u' ft' fu' small'. solve higher (suc n) m vars t' u' few (omega arith) ft' fu')
        (λ vars' t' u' few' ft' fu'.
          solve higher n (suc (size t' + size u')) vars' t' u' (omega arith) (omega arith) ft' fu'))
      ft fu
  where
    calls :
        ((t' u' : Ty)
          → Fits higher vars t'
          → Fits higher vars u'
          → size t' + size u' < size t + size u
          → Solvable higher vars t' u')
        → ((vars' : Vars) (t' u' : Ty)
            → length vars' < length vars
            → Fits higher vars' t'
            → Fits higher vars' u'
            → Solvable higher vars' t' u')
        → Calls higher vars (size t + size u)
    calls less fewer [] sol t' u' ft' fu' small' =
        at_nil higher vars t' u' (less t' u' ft' fu' small')
    calls less fewer ((k, x) ∷ s) sol t' u' ft' fu' small' =
        fewer (minus vars ((k, x) ∷ s)) (apply ((k, x) ∷ s) t') (apply ((k, x) ∷ s) u')
          (length-Solved sol k x (head_entry k x s))
          (Within-apply sol t' ft'.0, InFragment-apply sol t' ft'.1)
          (Within-apply sol u' fu'.0, InFragment-apply sol u' fu'.1)

contains-append : (k : ℕ) (xs ys : Vars) → contains k (xs ++ ys) ≡ (contains k xs || contains k ys)
unfolding contains
contains-append k [] ys = refl
contains-append k (x ∷ xs) ys = ground (arith, contains-append k xs ys)

-- The variables of the two types, as `ftv` gathers them.
abbrev pub vars_of : Ty → Ty → Vars
vars_of t u = ftv t ++ ftv u

-- On types without variables in head position, and on types without records, there is an amount of
-- fuel from which on `unify` has one and the same outcome: an error, or a map whose keys and types
-- are over the variables of the two types, that is idempotent, and that makes them compatible.
pub unify_total :
    (higher : Bool) (t u : Ty)
    → InFragment higher t
    → InFragment higher u
    → Settles
        (λ g. unify g t u)
        (λ s.
          Solved higher (vars_of t u) s
          × ((v : Ty) → apply s (apply s v) ≡ apply s v)
          × Compat (apply s t) (apply s u))
unify_total higher t u ft fu =
    settles_weaken (λ g. unify g t u) (λ s (sol, c). (sol, apply-apply_self sol, c))
      (solve higher (suc (length (vars_of t u))) (suc (size t + size u)) (vars_of t u) t u
        (omega arith) (omega arith) (left, ft) (right, fu))
  where
    left : Within (vars_of t u) t
    left j o = ground (arith, contains-append j (ftv t) (ftv u), (ftv_lem t).1 j)

    right : Within (vars_of t u) u
    right j o = ground (arith, contains-append j (ftv t) (ftv u), (ftv_lem u).1 j)
