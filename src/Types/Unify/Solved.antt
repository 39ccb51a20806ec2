-- ===== src/Types/Unify/Solved.antt =====
-- A solution over a set of variables: a map whose keys are in the set, and whose types are over the
-- variables of the set that are no keys. Such a map is idempotent, and a solution of what it leaves
-- can be composed with it.
use rex.Prelude.{
  ◌<◌, [], ◌∷◌, none, some, Bool, true, false, ◌≡◌, refl, ap, sym, ◌∙◌, arith, length, ◌==◌,
  Option-cases, Bool-cases, ==_iff, inl, inr, subst,
}
use rex.Types.Syntax.{Ty, TypeVar, TypeVarId, var}
use rex.Types.Inst.{inst, inst-inst, inst_ext, inst-var, occurs_in}
use rex.Types.Subst.{Subst, get, insert, IsMap, assign, assign-some, assign-none}
use rex.Types.Apply.{apply}
use rex.Types.Apply.Laws.{apply-eq-inst}
use rex.Types.Ftv.{contains}
use rex.Types.Compose.{compose_subst}
use rex.Types.Compose.Laws.{
  or_else, map_apply, get-compose_subst, compose_subst-IsMap, apply-compose_subst_iff,
}
use rex.Types.Vars.{
  Vars, Within, is_key, is_key-some, minus, contains-minus, contains-minus_iff, length-minus_lt,
  Within-inst,
}
use rex.Types.Fragment.{in_fragment, InFragment, inst-InFragment}
use rex.Types.Unify.Compat.{Compat, inst-Compat}

pub record Solved (higher : Bool) (vars : Vars) (s : Subst) : Type 0 where
  pub is_map : IsMap s
  pub entry :
      (k : TypeVarId) (t : Ty)
      → get k s ≡ some t
      → (contains k vars ≡ true) × Within (minus vars s) t × InFragment higher t

pub Solved-nil : (higher : Bool) (vars : Vars) → Solved higher vars []
unfolding get
Solved-nil higher vars = record { is_map = tt; entry = λ k t e. cc }

-- `bind` on a variable that does not stand in the type.
pub Solved-single :
    (higher : Bool) (vars : Vars) (id : TypeVarId) (t : Ty)
    → contains id vars ≡ true
    → Within vars t
    → InFragment higher t
    → occurs_in id t ≡ false
    → Solved higher vars (insert id t [])
unfolding insert get is_key
Solved-single higher vars id t inside within frag fresh = record {
  is_map = (refl, tt);
  entry = entry;
}
  where
    left : (j : TypeVarId) → occurs_in j t ≡ true → contains j (minus vars ((id, t) ∷ [])) ≡ true
    left j o =
        ground (arith, contains-minus j vars ((id, t) ∷ []), within j o, ap (λ i. occurs_in i t))

    entry :
        (k : TypeVarId) (u : Ty)
        → get k ((id, t) ∷ []) ≡ some u
        → (contains k vars ≡ true) × Within (minus vars ((id, t) ∷ [])) u × InFragment higher u
    entry k u e = elim (Bool-cases (id == k)) [
      | inl hit ↦
          let found : some t ≡ some u = (rw hit at e) in
          subst
            (λ v.
              (contains k vars ≡ true) × Within (minus vars ((id, t) ∷ [])) v × InFragment higher v)
            {y = u} (cc found)
            (subst (λ i. contains i vars ≡ true) ((==_iff id k).0 hit) inside, left, frag)
      | inr miss ↦ cc (rw miss at e)
    ]

Within-var : (vars : Vars) (tv : TypeVar) → contains tv.id vars ≡ true → Within vars (var tv)
unfolding occurs_in
Within-var vars tv h j o = subst (λ i. contains i vars ≡ true) ((==_iff tv.id j).0 o) h

module _ {higher : Bool} {vars : Vars} {s : Subst} (sol : Solved higher vars s) where
  -- What the map makes of a type over the set is over what it leaves.
  pub Within-apply : (t : Ty) → Within vars t → Within (minus vars s) (apply s t)
  Within-apply t w = subst (Within (minus vars s)) (sym (apply-eq-inst s t)) (
      Within-inst (minus vars s) (assign s) t λ tv o. elim (Option-cases (get tv.id s)) [
        | inl free ↦
            rw (assign-none s tv free)
              (Within-var (minus vars s) tv ((contains-minus_iff tv.id vars s).1 (w tv.id o, free)))
        | inr (u, e) ↦ rw (assign-some s tv e) (sol.entry tv.id u e).1
      ])

  pub InFragment-apply : (t : Ty) → InFragment higher t → InFragment higher (apply s t)
  InFragment-apply t f = subst (InFragment higher) (sym (apply-eq-inst s t)) (
      inst-InFragment higher (assign s) t
        (λ tv. elim (Option-cases (get tv.id s)) [
          | inl free ↦ rw (assign-none s tv free) (unfold in_fragment in refl)
          | inr (u, e) ↦ rw (assign-some s tv e) (sol.entry tv.id u e).2
        ])
        f)

  pub length-Solved :
      (k : TypeVarId) (t : Ty) → get k s ≡ some t → length (minus vars s) < length vars
  length-Solved k t e = length-minus_lt vars s k (sol.entry k t e).0 (is_key-some k s t e)

  -- Applying a solution twice is applying it once.
  pub apply-apply_self : (t : Ty) → apply s (apply s t) ≡ apply s t
  apply-apply_self t =
      apply-eq-inst s (apply s t)
      ∙ ap (inst (assign s)) (apply-eq-inst s t)
      ∙ inst-inst (assign s) (assign s) t
      ∙ inst_ext _ (assign s) t (λ tv _. settled tv)
      ∙ sym (apply-eq-inst s t)
    where
      settled : (tv : TypeVar) → inst (assign s) (assign s tv) ≡ assign s tv
      settled tv = elim (Option-cases (get tv.id s)) [
        | inl free ↦ rw (assign-none s tv free) (unfold inst in assign-none s tv free)
        | inr (u, e) ↦ rw (assign-some s tv e) (
            inst_ext (assign s) var u (λ w o.
              assign-none s w
                ((contains-minus_iff w.id vars s).0 ((sol.entry tv.id u e).1 w.id o)).1)
            ∙ inst-var u)
      ]

pub Compat-apply : (s : Subst) {t u : Ty} → Compat t u → Compat (apply s t) (apply s u)
Compat-apply s {t} {u} c = rw (apply-eq-inst s t, apply-eq-inst s u) (inst-Compat s c)

module _ {higher : Bool} {vars : Vars} {a b : Subst} (sa : Solved higher vars a)
    (sb : Solved higher (minus vars a) b) where
  pub Solved-compose_subst : Solved higher vars (compose_subst b a)
  Solved-compose_subst = record {
    is_map = compose_subst-IsMap b a sb.is_map sa.is_map;
    entry = entry;
  }
    where
      -- what both maps leave
      both :
          (j : TypeVarId)
          → contains j (minus (minus vars a) b) ≡ true
          → contains j (minus vars (compose_subst b a)) ≡ true
      both j h =
          let (h', free_b) = (contains-minus_iff j (minus vars a) b).0 h in
          let (h'', free_a) = (contains-minus_iff j vars a).0 h' in
          (contains-minus_iff j vars (compose_subst b a)).1
            (h'', get-compose_subst j b a sb.is_map sa.is_map ∙ nothing free_b free_a)
        where
          nothing :
              get j b ≡ none → get j a ≡ none → or_else (get j b) (map_apply b (get j a)) ≡ none
          nothing e e' = unfold or_else map_apply in rw (e, e')

      entry :
          (k : TypeVarId) (t : Ty)
          → get k (compose_subst b a) ≡ some t
          → (contains k vars ≡ true)
            × Within (minus vars (compose_subst b a)) t
            × InFragment higher t
      entry k t e =
          let held = sym (get-compose_subst k b a sb.is_map sa.is_map) ∙ e in
          elim (Option-cases (get k b)) [
            | inr (u, eb) ↦
                let (c, w, f) = sb.entry k u eb in
                let same : u ≡ t = (cc (first u eb, held)) in
                subst Good same (((contains-minus_iff k vars a).0 c).0, (λ j o. both j (w j o)), f)
            | inl free ↦ elim (Option-cases (get k a)) [
              | inr (u, ea) ↦
                  let (c, w, f) = sa.entry k u ea in
                  let same : apply b u ≡ t = (cc (second u free ea, held)) in
                  subst Good same
                    (c, (λ j o. both j (Within-apply sb u w j o)), InFragment-apply sb u f)
              | inl free' ↦ cc (neither free free', held)
            ]
          ]
        where
          Good : Ty → Type 0
          Good v =
              (contains k vars ≡ true)
              × Within (minus vars (compose_subst b a)) v
              × InFragment higher v

          first : (u : Ty) → get k b ≡ some u → or_else (get k b) (map_apply b (get k a)) ≡ some u
          first u e = unfold or_else in rw e

          second :
              (u : Ty)
              → get k b ≡ none
              → get k a ≡ some u
              → or_else (get k b) (map_apply b (get k a)) ≡ some (apply b u)
          second u e e' = unfold or_else map_apply in rw (e, e')

          neither :
              get k b ≡ none → get k a ≡ none → or_else (get k b) (map_apply b (get k a)) ≡ none
          neither e e' = unfold or_else map_apply in rw (e, e')

  pub apply-compose_subst : (t : Ty) → apply (compose_subst b a) t ≡ apply b (apply a t)
  apply-compose_subst =
      (apply-compose_subst_iff b a sb.is_map sa.is_map).1
        λ k t u eb ea. cc (ea, ((contains-minus_iff k vars a).0 (sb.entry k t eb).0).1)
