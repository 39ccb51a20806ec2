-- ===== src/Types/Unify/Complete.antt =====
-- Whatever makes two types equal, the unifier's map is at least as general: `unify` refuses no two
-- types that some substitution of the variables makes equal.
use rex.Prelude.{decide}
use rex.Prelude.{
  ℕ, zero, suc, ◌≤◌, [], ◌∷◌, some, Bool, true, false, ◌≡◌, refl, ap, sym, ◌∙◌, arith, ◌==◌, ==_iff,
  Bool-cases, inl, inr, subst,
}
use text.Mathlib.TextEquality.{eq_iff}
use rex.Types.Syntax.{
  Ty, Tys, Fields, TypeVar, TypeConst, TypeVarId, var, con, app, fun, tuple, record_ty, nil, cons,
  end, field, const_eq, builtin, user,
}
use rex.Types.Builtin.{BuiltinTypeId-discrete}
use rex.Types.Inst.{inst, inst_tys, inst_fields, occurs_in}
use rex.Types.Subst.{Subst, get, insert}
use rex.Types.Apply.{apply}
use rex.Types.Ftv.{size, ftv, contains}
use rex.Types.Ftv.Laws.{ftv_lem}
use rex.Types.Compose.{compose_subst}
use rex.Types.Fragment.{InFragment}
use rex.Types.Unify.{
  unify, bind, is_var, unify_pair, unify_tys, unify_fields, tys_len, fields_len, Unify,
}
use rex.Types.Unify.Absorbs.{
  by_id, Absorbs, inst-apply, Absorbs-nil, Absorbs-compose_subst, Agrees, agrees, unfinished,
  Agrees-bind, size-occurs_lt,
}
use rex.Types.Unify.Compat.{Compat}
use rex.Types.Unify.Solved.{Solved}
use rex.Types.Unify.Total.{unify_total, vars_of}
use rex.Outcome.{Outcome, TypeError, ok, err, out_of_fuel, ◌>>=◌}
use rex.Outcome.Settles.{Settles, returns, raises}

module _ (σ : TypeVarId → Ty) where
  abbrev Equal : Ty → Ty → Type 0
  Equal t u = inst (by_id σ) t ≡ inst (by_id σ) u

  -- A map of one entry that `σ` agrees with.
  Absorbs-single : (id : TypeVarId) (t : Ty) → σ id ≡ inst (by_id σ) t → Absorbs σ (insert id t [])
  unfolding insert get
  Absorbs-single id t h = record { is_map = (refl, tt); entry = entry }
    where
      entry : (k : TypeVarId) (u : Ty) → get k ((id, t) ∷ []) ≡ some u → inst (by_id σ) u ≡ σ k
      entry k u e = elim (Bool-cases (id == k)) [
        | inl hit ↦
            let found : some t ≡ some u = (rw hit at e) in
            let same : t ≡ u = (cc found) in
            ap (inst (by_id σ)) (sym same) ∙ sym h ∙ ap σ ((==_iff id k).0 hit)
        | inr miss ↦ cc (rw miss at e)
      ]

  bind-Agrees : (tv : TypeVar) (t : Ty) → σ tv.id ≡ inst (by_id σ) t → Agrees σ (bind tv t)
  unfolding bind
  bind-Agrees tv t h = elim (Bool-cases (is_var tv t)) [
    | inl same ↦ rw same (agrees (Absorbs-nil σ))
    | inr other ↦ rw other (elim (Bool-cases (contains tv.id (ftv t))) [
      | inl there ↦ absurd (too_large other (sym ((ftv_lem t).1 tv.id) ∙ there))
      | inr absent ↦ rw absent (agrees (Absorbs-single tv.id t h))
    ])
  ]
    where
      too_large : is_var tv t ≡ false → occurs_in tv.id t ≡ true → ⊥
      too_large other o = omega (arith, size-occurs_lt σ tv t other o, ap size h)

  -- Each nested call, if `σ` makes its types equal.
  abbrev Calls : Unify → Type 0
  Calls u = (t t' : Ty) → Equal t t' → Agrees σ (u t t')

  applied : (s : Subst) (t u : Ty) → Absorbs σ s → Equal t u → Equal (apply s t) (apply s u)
  applied s t u a e = inst-apply σ s a t ∙ e ∙ sym (inst-apply σ s a u)

  module _ (u : Unify) (calls : Calls u) where
    -- A nested call at a map, and what the code does with the composition.
    advance :
        (s : Subst) (t t' : Ty) (next : Subst → Outcome Subst)
        → Absorbs σ s
        → Equal t t'
        → ((s' : Subst) → Absorbs σ s' → Agrees σ (next s'))
        → Agrees σ (u (apply s t) (apply s t') >>= λ n. next (compose_subst n s))
    advance s t t' next a e k =
        Agrees-bind σ (λ n. next (compose_subst n s)) (calls _ _ (applied s t t' a e))
          λ n b. k (compose_subst n s) (Absorbs-compose_subst σ s n a b)

    unify_pair-Agrees :
        (l1 r1 l2 r2 : Ty) → Equal l1 l2 → Equal r1 r2 → Agrees σ (unify_pair u l1 r1 l2 r2)
    unfolding unify_pair
    unify_pair-Agrees l1 r1 l2 r2 e e' =
        Agrees-bind σ _ (calls l1 l2 e) λ s a. advance s r1 r2 ok a e' (λ s' a'. agrees a')

    unify_tys-Agrees :
        (s : Subst) (ts us : Tys)
        → Absorbs σ s
        → inst_tys (by_id σ) ts ≡ inst_tys (by_id σ) us
        → Agrees σ (unify_tys u s ts us)
    unfolding unify_tys inst
    unify_tys-Agrees s nil us a e = agrees a
    unify_tys-Agrees s (cons t ts) nil a e = agrees a
    unify_tys-Agrees s (cons t ts) (cons t' us) a e =
        advance s t t' (λ s'. unify_tys u s' ts us) a (cc)
          λ s' a'. unify_tys-Agrees s' ts us a' (cc)

    unify_fields-Agrees :
        (s : Subst) (fs gs : Fields)
        → Absorbs σ s
        → inst_fields (by_id σ) fs ≡ inst_fields (by_id σ) gs
        → Agrees σ (unify_fields u s fs gs)
    unfolding unify_fields inst
    unify_fields-Agrees s end gs a e = agrees a
    unify_fields-Agrees s (field n t fs) end a e = agrees a
    unify_fields-Agrees s (field n t fs) (field m t' gs) a e = rw ((eq_iff n m).1 (cc)) (
        advance s t t' (λ s'. unify_fields u s' fs gs) a (cc)
          λ s' a'. unify_fields-Agrees s' fs gs a' (cc))

  tys_len-inst : (ts : Tys) → tys_len (inst_tys (by_id σ) ts) ≡ tys_len ts
  unfolding tys_len inst
  tys_len-inst nil = refl
  tys_len-inst (cons t ts) = ap suc (tys_len-inst ts)

  fields_len-inst : (fs : Fields) → fields_len (inst_fields (by_id σ) fs) ≡ fields_len fs
  unfolding fields_len inst
  fields_len-inst end = refl
  fields_len-inst (field n t fs) = ap suc (fields_len-inst fs)

  tuple_arm :
      (g : ℕ) (ts us : Tys)
      → Calls (unify g)
      → Equal (tuple ts) (tuple us)
      → Agrees σ (unify (suc g) (tuple ts) (tuple us))
  unfolding unify inst
  tuple_arm g ts us calls e =
      let parts : inst_tys (by_id σ) ts ≡ inst_tys (by_id σ) us = (cc) in
      let len : tys_len ts ≡ tys_len us =
        sym (tys_len-inst ts) ∙ ap tys_len parts ∙ tys_len-inst us in
      rw ((==_iff (tys_len ts) (tys_len us)).1 len)
        (unify_tys-Agrees (unify g) calls [] ts us (Absorbs-nil σ) parts)

  record_arm :
      (g : ℕ) (fs gs : Fields)
      → Calls (unify g)
      → Equal (record_ty fs) (record_ty gs)
      → Agrees σ (unify (suc g) (record_ty fs) (record_ty gs))
  unfolding unify inst
  record_arm g fs gs calls e =
      let parts : inst_fields (by_id σ) fs ≡ inst_fields (by_id σ) gs = (cc) in
      let len : fields_len fs ≡ fields_len gs =
        sym (fields_len-inst fs) ∙ ap fields_len parts ∙ fields_len-inst gs in
      rw ((==_iff (fields_len fs) (fields_len gs)).1 len)
        (unify_fields-Agrees (unify g) calls [] fs gs (Absorbs-nil σ) parts)

const_eq_refl : (c : TypeConst) → const_eq c c ≡ true
unfolding const_eq
const_eq_refl (builtin id) = same (BuiltinTypeId-discrete id id)
  where
    same : (d : Dec (id ≡ id)) → decide d ≡ true
    same (yes p) = unfold decide in refl
    same (no n) = absurd (n refl)
const_eq_refl (user n a) = ground (arith, eq_iff n n)

pub unify-Agrees :
    (σ : TypeVarId → Ty) (g : ℕ) (t u : Ty)
    → inst (by_id σ) t ≡ inst (by_id σ) u
    → Agrees σ (unify g t u)
unfolding unify inst
unify-Agrees σ zero t u e = unfinished
unify-Agrees σ (suc g) (fun l1 r1) (fun l2 r2) e =
    unify_pair-Agrees σ (unify g) (unify-Agrees σ g) l1 r1 l2 r2 (cc) (cc)
unify-Agrees σ (suc g) (record_ty fs) (record_ty gs) e = record_arm σ g fs gs (unify-Agrees σ g) e
unify-Agrees σ (suc g) (record_ty fs) (app l r) e = cc
unify-Agrees σ (suc g) (app l r) (record_ty fs) e = cc
unify-Agrees σ (suc g) (app l1 r1) (app l2 r2) e =
    unify_pair-Agrees σ (unify g) (unify-Agrees σ g) l1 r1 l2 r2 (cc) (cc)
unify-Agrees σ (suc g) (tuple ts) (tuple us) e = tuple_arm σ g ts us (unify-Agrees σ g) e
unify-Agrees σ (suc g) (var tv) u e = bind-Agrees σ tv u e
unify-Agrees σ (suc g) t (var tv) e = bind-Agrees σ tv t (sym e)
unify-Agrees σ (suc g) (con c) (con d) e =
    let same : c ≡ d = (cc) in
    rw (sym (ap (const_eq c) same) ∙ const_eq_refl c) (agrees (Absorbs-nil σ))
unify-Agrees σ (suc g) t u e = cc

-- If some substitution of the variables makes two types of a fragment equal, then from some fuel on
-- `unify` returns one map, which is over the variables of the types and makes them compatible, and
-- the map is most general: that substitution sees no difference where the map was applied.
pub unify_most_general :
    (higher : Bool) (t u : Ty) (σ : TypeVarId → Ty)
    → InFragment higher t
    → InFragment higher u
    → inst (by_id σ) t ≡ inst (by_id σ) u
    → (f : ℕ) × (s : Subst) × ((g : ℕ) → f ≤ g → unify g t u ≡ ok s)
      × Solved higher (vars_of t u) s
      × Compat (apply s t) (apply s u)
      × ((v : Ty) → inst (by_id σ) (apply s v) ≡ inst (by_id σ) v)
unify_most_general higher t u σ ft fu e = go (unify_total higher t u ft fu)
  where
    General : Subst → Type 0
    General s = (v : Ty) → inst (by_id σ) (apply s v) ≡ inst (by_id σ) v

    general : {s : Subst} → Agrees σ (ok s) → General s
    general (agrees {s} a) = inst-apply σ s a

    refused : {x : TypeError} → Agrees σ (err x) → ⊥
    refused a = elim a [ ]

    go :
        Settles
          (λ g. unify g t u)
          (λ s.
            Solved higher (vars_of t u) s
            × ((v : Ty) → apply s (apply s v) ≡ apply s v)
            × Compat (apply s t) (apply s u))
        → (f : ℕ) × (s : Subst) × ((g : ℕ) → f ≤ g → unify g t u ≡ ok s)
          × Solved higher (vars_of t u) s
          × Compat (apply s t) (apply s u)
          × General s
    go (f, ok s, same, returns (sol, _, c)) = (
      f,
      s,
      same,
      sol,
      c,
      general (subst (Agrees σ) (same f (omega arith)) (unify-Agrees σ f t u e)),
    )
    go (f, err x, same, raises) =
        absurd (refused (subst (Agrees σ) (same f (omega arith)) (unify-Agrees σ f t u e)))
    go (f, out_of_fuel, same, x) = elim x [ ]
