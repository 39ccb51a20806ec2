-- ===== src/Types/Unify/Loops.antt =====
-- The arms of `unify`, each given that the calls it makes settle.
use rex.Prelude.{ℕ, ◌<◌, ◌+◌, [], Bool, ◌≡◌, ap, sym, ◌∙◌, arith, subst, subst₂}
use text.Mathlib.Text.{◌==◌ as str_eq}
use text.Mathlib.TextEquality.{eq_iff}
use rex.Types.Syntax.{Ty, Tys, Fields, nil, cons, end, field}
use rex.Types.Inst.{inst, inst_tys, inst_fields}
use rex.Types.Subst.{Subst, assign}
use rex.Types.Apply.{apply}
use rex.Types.Apply.Laws.{apply-eq-inst}
use rex.Types.Ftv.{size, size_tys, size_fields}
use rex.Types.Compose.{compose_subst}
use rex.Types.Compose.Laws.{apply-nil}
use rex.Types.Vars.{Vars, Within, minus, minus-nil}
use rex.Types.Fragment.{InFragment}
use rex.Types.Unify.{unify, unify_pair, unify_tys, unify_fields, tys_len, fields_len}
use rex.Types.Unify.Compat.{Compat, CompatTys, CompatFields, no_tys, each_ty, no_fields, each_field}
use rex.Types.Unify.Solved.{
  Solved, Solved-nil, Solved-compose_subst, apply-compose_subst, apply-apply_self, Compat-apply,
}
use rex.Outcome.{Outcome, ok, err, unification, ◌>>=◌}
use rex.Outcome.Settles.{Settles, settles_ok, settles_err, settles_bind, settles_if, settles_weaken}

-- The map solves the two types over the set.
abbrev pub Unifies : Bool → Vars → Ty → Ty → Subst → Type 0
Unifies higher vars t u s = Solved higher vars s × Compat (apply s t) (apply s u)

pub inst_of_apply :
    (s : Subst) (t u : Ty)
    → Compat (apply s t) (apply s u)
    → Compat (inst (assign s) t) (inst (assign s) u)
inst_of_apply s t u c = subst₂ Compat (apply-eq-inst s t) (apply-eq-inst s u) c

-- What `s` makes compatible `s'` does too, and `s'` sees no difference where `s` was applied.
abbrev pub Later : Subst → Subst → Type 0
Later s s' =
    ((t u : Ty) → Compat (apply s t) (apply s u) → Compat (apply s' t) (apply s' u))
    × ((t : Ty) → apply s' (apply s t) ≡ apply s' t)

pub Later-refl : (higher : Bool) (vars : Vars) (s : Subst) → Solved higher vars s → Later s s
Later-refl higher vars s sol = ((λ t u c. c), apply-apply_self sol)

pub Later-trans : (s s' s'' : Subst) → Later s s' → Later s' s'' → Later s s''
Later-trans s s' s'' (h, a) (h', a') =
    ((λ t u c. h' t u (h t u c)), λ t. sym (a' (apply s t)) ∙ ap (apply s'') (a t) ∙ a' t)

Later-compose_subst :
    (higher : Bool) (vars : Vars) (s n : Subst)
    → Solved higher vars s
    → Solved higher (minus vars s) n
    → Later s (compose_subst n s)
Later-compose_subst higher vars s n sol soln =
    let law = apply-compose_subst sol soln in
    (
      (λ t u c. rw (law t, law u) (Compat-apply n c)),
      λ t. law (apply s t) ∙ ap (apply n) (apply-apply_self sol t) ∙ sym (law t),
    )

-- A type that the calls may be given: over the set, and in the fragment.
abbrev pub Fits : Bool → Vars → Ty → Type 0
Fits higher vars t = Within vars t × InFragment higher t

-- Every call at a solution, on types that together have fewer than `m` nodes, settles.
abbrev pub Calls : Bool → Vars → ℕ → Type 0
Calls higher vars m =
    (s : Subst)
    → Solved higher vars s
    → (t u : Ty) → Fits higher vars t
    → Fits higher vars u
    → size t + size u < m
    → Settles (λ g. unify g (apply s t) (apply s u))
        (Unifies higher (minus vars s) (apply s t) (apply s u))

module _ (higher : Bool) (vars : Vars) (m : ℕ) (calls : Calls higher vars m) where
  -- A nested call and what the code does with the composed map.
  pub advance :
      {B : Type 0} {Q : B → Type 0} (s : Subst) (t u : Ty) (next : Subst → ℕ → Outcome B)
      → Solved higher vars s
      → Fits higher vars t
      → Fits higher vars u
      → size t + size u < m
      → ((s' : Subst) → Later s s' → Unifies higher vars t u s' → Settles (next s') Q)
      → Settles (λ g. unify g (apply s t) (apply s u) >>= λ n. next (compose_subst n s) g) Q
  advance s t u next sol ft fu small k =
      settles_bind (λ g. unify g (apply s t) (apply s u)) (λ n. next (compose_subst n s))
        (calls s sol t u ft fu small)
        λ n (soln, c).
          let law = apply-compose_subst sol soln in
          k (compose_subst n s) (Later-compose_subst higher vars s n sol soln)
            (Solved-compose_subst sol soln, rw (law t, law u) c)

  -- The first call, at the empty map.
  pub first_call :
      (t u : Ty)
      → Fits higher vars t
      → Fits higher vars u
      → size t + size u < m
      → Settles (λ g. unify g t u) (Unifies higher vars t u)
  first_call t u ft fu small =
      subst (λ v. Settles (λ g. unify g t u) (Unifies higher v t u)) (minus-nil vars)
        (subst (λ y. Settles (λ g. unify g t y) (Unifies higher (minus vars []) t y)) (apply-nil u)
          (subst
            (λ x.
              Settles (λ g. unify g x (apply [] u)) (Unifies higher (minus vars []) x (apply [] u)))
            (apply-nil t) (calls [] (Solved-nil higher vars) t u ft fu small)))

  -- The `Fun` and `App` arms: both parts are solved by the map that is returned.
  pub unify_pair-Settles :
      (l1 r1 l2 r2 : Ty)
      → Fits higher vars l1
      → Fits higher vars r1
      → Fits higher vars l2
      → Fits higher vars r2
      → size l1 + size l2 < m
      → size r1 + size r2 < m
      → Settles
          (λ g. unify_pair (unify g) l1 r1 l2 r2)
          (λ s. Unifies higher vars l1 l2 s × Compat (apply s r1) (apply s r2))
  unfolding unify_pair
  unify_pair-Settles l1 r1 l2 r2 fl1 fr1 fl2 fr2 small small' =
      settles_bind (λ g. unify g l1 l2)
        (λ s1 g. unify g (apply s1 r1) (apply s1 r2) >>= λ s2. ok (compose_subst s2 s1))
        (first_call l1 l2 fl1 fl2 small)
        λ s1 (sol, c).
          advance s1 r1 r2 (λ s _. ok s) sol fr1 fr2 small'
            λ s later (sol', c'). settles_ok s ((sol', later.0 l1 l2 c), c')

  abbrev pub FitsTys : Tys → Type 0
  FitsTys nil = Unit
  FitsTys (cons t ts) = Fits higher vars t × FitsTys ts

  abbrev pub FitsFields : Fields → Type 0
  FitsFields end = Unit
  FitsFields (field _ t fs) = Fits higher vars t × FitsFields fs

  pub unify_tys-Settles :
      (s : Subst) (ts1 ts2 : Tys)
      → Solved higher vars s
      → tys_len ts1 ≡ tys_len ts2
      → FitsTys ts1
      → FitsTys ts2
      → size_tys ts1 + size_tys ts2 < m
      → Settles
          (λ g. unify_tys (unify g) s ts1 ts2)
          (λ s'.
            Solved higher vars s'
            × Later s s'
            × CompatTys (inst_tys (assign s') ts1) (inst_tys (assign s') ts2))
  unfolding unify_tys tys_len size inst
  unify_tys-Settles s nil nil sol len f1 f2 small =
      settles_ok s (sol, Later-refl higher vars s sol, no_tys)
  unify_tys-Settles s nil (cons u us) sol len f1 f2 small = absurd (omega arith)
  unify_tys-Settles s (cons t ts) nil sol len f1 f2 small = absurd (omega arith)
  unify_tys-Settles s (cons t ts) (cons u us) sol len f1 f2 small =
      advance s t u (λ s' g. unify_tys (unify g) s' ts us) sol f1.0 f2.0 (omega arith)
        λ s' later (sol', c).
          settles_weaken _
            (λ s'' (sol'', later', cs). (
              sol'',
              Later-trans s s' s'' later later',
              each_ty (inst_of_apply s'' t u (later'.0 t u c)) cs,
            ))
            (unify_tys-Settles s' ts us sol' (omega arith) f1.1 f2.1 (omega arith))

  pub unify_fields-Settles :
      (s : Subst) (fs1 fs2 : Fields)
      → Solved higher vars s
      → fields_len fs1 ≡ fields_len fs2
      → FitsFields fs1
      → FitsFields fs2
      → size_fields fs1 + size_fields fs2 < m
      → Settles
          (λ g. unify_fields (unify g) s fs1 fs2)
          (λ s'.
            Solved higher vars s'
            × Later s s'
            × CompatFields (inst_fields (assign s') fs1) (inst_fields (assign s') fs2))
  unfolding unify_fields fields_len size inst
  unify_fields-Settles s end end sol len f1 f2 small =
      settles_ok s (sol, Later-refl higher vars s sol, no_fields)
  unify_fields-Settles s end (field _ u us) sol len f1 f2 small = absurd (omega arith)
  unify_fields-Settles s (field _ t ts) end sol len f1 f2 small = absurd (omega arith)
  unify_fields-Settles s (field n t ts) (field k u us) sol len f1 f2 small =
      settles_if (str_eq n k) _ (λ _. err (unification t u))
        (λ same.
          advance s t u (λ s' g. unify_fields (unify g) s' ts us) sol f1.0 f2.0 (omega arith)
            λ s' later (sol', c).
              settles_weaken _
                (λ s'' (sol'', later', cs). (
                  sol'',
                  Later-trans s s' s'' later later',
                  each_field ((eq_iff n k).0 same) (inst_of_apply s'' t u (later'.0 t u c)) cs,
                ))
                (unify_fields-Settles s' ts us sol' (omega arith) f1.1 f2.1 (omega arith)))
        (λ _. settles_err (unification t u))
